-- ===== src/Submit/WebApi/Http.antt =====
-- What the handlers use of net/http: a response has one status, the first that is sent, and a body.
use shortcut.Prelude.{ℕ, Bytes, String, [], ◌∷◌, ◌++◌, Option, none, some}
use shortcut.Runtime.{Chunk, Exec, modify, ◌>>◌}

abbrev pub or_else : Option ℕ → ℕ → Option ℕ
or_else none n = some n
or_else (some s) n = some s

-- `w.WriteHeader(code)`: a second call changes nothing.
unfoldable pub write_header : ℕ → Exec (Unit {0})
write_header code =
    modify
      (λ w. record w { response = record w.response { status = or_else w.response.status code } })

-- `w.Header().Set(key, value)`
unfoldable pub set_header : String → String → Exec (Unit {0})
set_header key value =
    modify
      (λ w. record w { response = record w.response { header = (key, value) ∷ w.response.header } })

-- `w.Write(chunk)` sends status 200 if none was sent.
unfoldable pub write_body : Chunk → Exec (Unit {0})
unfolding write_header
write_body chunk = do
  write_header 200
  modify (λ w. record w { response = record w.response { body = w.response.body ++ chunk ∷ [] } })

-- `http.Error(w, text, code)`
unfoldable pub http_error : String → ℕ → Exec (Unit {0})
unfolding set_header write_header write_body
http_error text code = do
  set_header "Content-Type" "text/plain; charset=utf-8"
  write_header code
  write_body (Chunk.text text)

-- What the handlers read of a request: the form value `payload`, and the query.
pub record Request : Type 0 where
  pub payload : Bytes
  pub query : String → Bytes
