-- ===== src/Runtime/Methods.antt =====
-- A method that runs in a process: it returns, returns an error, panics or blocks for ever, and
-- what it wrote before stays written.
use shortcut.Prelude.{ℕ, Bytes, String, Bool, List, ◌∷◌, Option, none, some, ◌⊎◌, inl, inr}
use shortcut.Runtime.Errors.{Error}
use shortcut.Runtime.Calls.{Call}
use shortcut.Runtime.Values.{Field}

-- What a handler writes to the body of a response: a text, bytes, or a map that it encodes as JSON.
pub data Chunk : Type 0 where
  text : String → Chunk
  octets : Bytes → Chunk
  json : List (String × Field) → Chunk

-- An `http.ResponseWriter`: the status that was sent, the header fields, and the body.
pub record Response : Type 0 where
  pub status : Option ℕ
  pub header : List (String × String)
  pub body : List Chunk

-- The state of one process. `history` lists the calls made, the newest first; `storage` is the map
-- of `repository.Service`, `err_ch` what waits in its channel `ErrCh`, `wait_group` the counter of
-- `Daemon.Wg`, `worker_ctx` whether the context of the workers is cancelled (none before
-- `Daemon.Start`), `sem` the number of tokens in `TaskHandler.sem`, `shutting_down` the flag
-- `isShuttingDown`, and `response` what the HTTP handler at hand has answered.
pub record World : Type 0 where
  pub history : List Call
  pub storage : List Bytes
  pub err_ch : List Error
  pub wait_group : ℕ
  pub worker_ctx : Option Bool
  pub sem : ℕ
  pub shutting_down : Bool
  pub response : Response

pub data Outcome (A : Type 0) : Type 0 where
  ok : A → Outcome A
  err : Error → Outcome A
  panic : String → Outcome A
  blocked : Outcome A

abbrev pub Exec : Type 0 → Type 0
Exec A = World → Outcome A × World

module _ {A : Type 0} where
  abbrev pub pure : A → Exec A
  pure a w = (ok a, w)

  abbrev pub raise : Error → Exec A
  raise e w = (err e, w)

  abbrev pub panics : String → Exec A
  panics m w = (panic m, w)

  abbrev pub gets : (World → A) → Exec A
  gets f w = (ok (f w), w)

  -- One call to the outside, and its answer: `reply` is given the calls made, this one first.
  abbrev pub call : Call → (List Call → Outcome A) → Exec A
  call c reply w = (reply (c ∷ w.history), record w { history = c ∷ w.history })

abbrev pub modify : (World → World) → Exec (Unit {0})
modify f w = (ok tt, f w)

-- A call with no answer.
abbrev pub tell : Call → Exec (Unit {0})
tell c w = (ok tt, record w { history = c ∷ w.history })

abbrev pub checked : Option Error → Outcome (Unit {0})
checked none = ok tt
checked (some e) = err e

abbrev pub returned : {A : Type 0} → Error ⊎ A → Outcome A
returned (inl e) = err e
returned (inr a) = ok a

abbrev pub continue : {A B : Type 0} → Outcome A → (A → Exec B) → Exec B
continue (ok a) f w = f a w
continue (err e) f w = (err e, w)
continue (panic m) f w = (panic m, w)
continue blocked f w = (blocked, w)

infixl 5 ◌>>=◌ ◌>>◌
abbrev pub ◌>>=◌ : {A B : Type 0} → Exec A → (A → Exec B) → Exec B
◌>>=◌ m f w = let (r, w') = m w in continue r f w'

abbrev pub ◌>>◌ : {A B : Type 0} → Exec A → Exec B → Exec B
m >> k = m >>= λ _. k

abbrev pub on_result : {A B : Type 0} → Outcome A → (Error → Exec B) → (A → Exec B) → Exec B
on_result (ok a) h f w = f a w
on_result (err e) h f w = h e w
on_result (panic m) h f w = (panic m, w)
on_result blocked h f w = (blocked, w)

-- `if a, err := m(); err != nil { h } else { f }`
abbrev pub try : {A B : Type 0} → Exec A → (Error → Exec B) → (A → Exec B) → Exec B
try m h f w = let (r, w') = m w in on_result r h f w'

-- The outcome of a body after its deferred call, whose own error is dropped.
abbrev pub after_defer : {A : Type 0} → Outcome A → Outcome (Unit {0}) → Outcome A
after_defer r (ok _) = r
after_defer r (err _) = r
after_defer r (panic m) = panic m
after_defer r blocked = blocked

abbrev pub finish : {A : Type 0} → Outcome A → Exec (Unit {0}) → World → Outcome A × World
finish (ok a) d w = let (q, w') = d w in (after_defer (ok a) q, w')
finish (err e) d w = let (q, w') = d w in (after_defer (err e) q, w')
finish (panic m) d w = let (q, w') = d w in (after_defer (panic m) q, w')
finish blocked d w = (blocked, w)

-- `defer d()` before the body `m`: it runs when the body returns or panics.
abbrev pub deferring : {A : Type 0} → Exec (Unit {0}) → Exec A → Exec A
deferring d m w = let (r, w') = m w in finish r d w'
