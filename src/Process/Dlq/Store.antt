-- ===== src/Process/Dlq/Store.antt =====
-- `NewMinIO` and `SendInvalidPayload`.
use shortcut.Prelude.{
  ℕ, Bytes, String, Bool, true, false, List, [], ◌∷◌, ◌++◌, Option, none, some, if◌then◌else◌,
  str_eq, not,
}
use shortcut.Runtime.{
  Call, Env, message, Exec, call, checked, returned, pure, raise, gets, ◌>>=◌, ◌>>◌, Field,
}
use shortcut.Process.Dlq.Names.{object_name}

pub record Config : Type 0 where
  pub endpoint : String
  pub access_key : String
  pub secret_key : String
  pub dlq_bucket : String
  pub use_ssl : Bool

-- `Record`
pub record DlqRecord : Type 0 where
  pub message_id : Bytes
  pub reason : String
  pub payload : Bytes
  pub created_at : ℕ

-- `MinIO`: the client may be nil.
pub record MinIo : Type 0 where
  pub has_client : Bool
  pub bucket : String

abbrev pub default_config : Config
default_config = record {
  endpoint = "localhost:9000";
  access_key = "minioadmin";
  secret_key = "minioadmin";
  dlq_bucket = "tasks-dlq";
  use_ssl = false;
}

unfoldable pub or_default : String → String → String
or_default given default = if str_eq given "" then default else given

-- The settings that `NewMinIO` uses: those given, and the default for each text left empty.
unfoldable pub effective : Option Config → Config
unfolding or_default
effective none = default_config
effective (some conf) = record {
  endpoint = or_default conf.endpoint default_config.endpoint;
  access_key = or_default conf.access_key default_config.access_key;
  secret_key = or_default conf.secret_key default_config.secret_key;
  dlq_bucket = or_default conf.dlq_bucket default_config.dlq_bucket;
  use_ssl = conf.use_ssl;
}

-- The fields that `json.Marshal` prints; an empty payload is left out.
unfoldable pub fields : DlqRecord → List (String × Field)
fields r =
    ("message_id", Field.octets r.message_id)
    ∷ ("reason", Field.string r.reason)
    ∷ (payload_field r.payload
        ++ ("created_at", Field.instant "2006-01-02T15:04:05.999999999Z07:00" r.created_at) ∷ [])
  where
    payload_field : Bytes → List (String × Field)
    payload_field [] = []
    payload_field (b ∷ bs) = ("payload", Field.octets (b ∷ bs)) ∷ []

abbrev pub payload_text : Option Bytes → Bytes
payload_text none = []
payload_text (some p) = p

module _ (env : Env) where
  -- `NewMinIO`: the client library refuses a bad endpoint.
  unfoldable pub new_min_io : Option Config → Exec MinIo
  unfolding effective
  new_min_io conf =
      let used = effective conf in
      call (Call.minio_new used.endpoint used.access_key used.secret_key used.use_ssl)
        (λ h. checked (env.minio_reply h))
      >> pure (record { has_client = true; bucket = used.dlq_bucket })

  unfoldable pub ensure_bucket : MinIo → Exec (Unit {0})
  ensure_bucket m = do
    exists ← call (Call.bucket_exists m.bucket) (λ h. returned (env.exists_reply h))
    if exists then pure tt else call (Call.make_bucket m.bucket) (λ h. checked (env.minio_reply h))

  -- The record, and the put of it under a name of its own.
  unfoldable pub put_record : MinIo → Bytes → Option Bytes → String → Exec (Unit {0})
  unfolding fields object_name
  put_record m message_id payload reason = do
    created_at ← gets (λ w. env.now w.history)
    body ← λ w. (
      returned (
          env.marshal (
            fields (record {
              message_id = message_id;
              reason = reason;
              payload = payload_text payload;
              created_at = created_at;
            }))),
      w,
    )
    nanos ← gets (λ w. env.now w.history)
    call (Call.put_object m.bucket (object_name nanos message_id) body)
        (λ h. checked (env.minio_reply h))

  -- `SendInvalidPayload` past its test for nil.
  unfoldable pub send_to : MinIo → Bytes → Option Bytes → String → Exec (Unit {0})
  unfolding ensure_bucket put_record
  send_to m message_id payload reason = ensure_bucket m >> put_record m message_id payload reason

  -- A nil receiver is allowed.
  unfoldable pub send_invalid_payload :
      Option MinIo → Bytes → Option Bytes → String → Exec (Unit {0})
  unfolding send_to
  send_invalid_payload none message_id payload reason =
      raise (message "dlq storage is not configured")
  send_invalid_payload (some m) message_id payload reason =
      if not m.has_client
      then raise (message "dlq storage is not configured")
      else send_to m message_id payload reason
