-- ===== src/Runtime/Errors.antt =====
-- Go error values, `errors.Is` and `errors.As`. `custom` is `*CustomError` of
-- process_service/extapi/client.go, the one error type that a caller asks for by its type.
use shortcut.Prelude.{Bool, true, false, Option, none, some, String, str_append}

pub data Error : Type 0 where
  custom : String → Error
  deadline_exceeded : Error
  canceled : Error
  redis_nil : Error
  message : String → Error
  wrapped : String → Error → Error

-- The sentinel values that the code compares with.
pub data Sentinel : Type 0 where
  is_deadline is_canceled is_redis_nil : Sentinel

-- `err == target`
abbrev pub equals : Error → Sentinel → Bool
equals deadline_exceeded is_deadline = true
equals canceled is_canceled = true
equals redis_nil is_redis_nil = true
equals _ _ = false

-- `errors.Is(err, target)`
unfoldable pub is_error : Error → Sentinel → Bool
is_error (wrapped _ e) t = is_error e t
is_error e t = equals e t

-- `errors.As(err, &customErr)`: the message of the first `*CustomError` on the chain.
unfoldable pub as_custom : Error → Option String
as_custom (custom m) = some m
as_custom (wrapped _ e) = as_custom e
as_custom _ = none

-- `err.Error()`
unfoldable pub error_text : Error → String
error_text (custom m) = m
error_text deadline_exceeded = "context deadline exceeded"
error_text canceled = "context canceled"
error_text redis_nil = "redis: nil"
error_text (message m) = m
error_text (wrapped m e) = str_append m (error_text e)
