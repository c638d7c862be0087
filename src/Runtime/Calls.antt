-- ===== src/Runtime/Calls.antt =====
-- The calls that leave a process, and the answers to them. A service answers by all the
-- calls made, the newest first, which is the one to answer: so it may keep any state.
use shortcut.Prelude.{ℕ, Bytes, String, Bool, List, Option, ◌⊎◌}
use shortcut.Runtime.Errors.{Error}
use shortcut.Runtime.Collectors.{Collector}
use shortcut.Runtime.Values.{Uuid, Value, XStream, Arg, Field, Counter, Gauge, Level}

pub data Call : Type 0 where
  -- ClickHouse: `conn.Exec`, `conn.Query`
  exec : String → List Arg → Call
  query : String → List Arg → Call
  -- `ch.Open`: address, user and password, and whether it uses TLS
  ch_open : String → String → String → Bool → Call
  -- Redis: group, consumer and streams of `XReadGroup`; `XRead`; stream, group and id of `XAck`
  x_read_group : String → Bytes → ℕ → List String → Call
  x_read : List String → Call
  x_ack : String → String → Bytes → Call
  x_add : String → List (String × Value) → Call
  x_group_create : String → String → String → Call
  -- MinIO
  minio_new : String → String → String → Bool → Call
  bucket_exists : String → Call
  make_bucket : String → Call
  put_object : String → Bytes → Bytes → Call
  -- the external API: task and worker
  get_something : Bytes → ℕ → Call
  -- Prometheus: label of a counter, amount of a gauge, duration of an observation
  register : Collector → Call
  counter_inc : Counter → Bytes → Call
  gauge_add : Gauge → ℕ → Call
  gauge_sub : Gauge → ℕ → Call
  observe : ℕ → Call
  -- `time.Sleep`, in milliseconds
  sleep : ℕ → Call
  -- a `go` statement: the function and its arguments
  spawn : String → List ℕ → Call
  -- the HTTP servers
  listen : String → Call
  shutdown : String → Call
  -- the configuration: the search path, name and type of the file, the reading of it, and the
  -- environment in place of its values
  add_config_path : String → Call
  set_config_name : String → Call
  set_config_type : String → Call
  read_in_config : Call
  automatic_env : Call
  set_env_key_replacer : List (String × String) → Call
  unmarshal_config : Call
  log : Level → String → Call
  -- a line of the log that is a text made at run time
  log_text : Level → Bytes → Call

pub record Env : Type 0 where
  -- ClickHouse; a row that `Scan` cannot read is an error
  pub exec_reply : List Call → Option Error
  pub open_reply : List Call → Option Error
  pub query_reply : List Call → Error ⊎ List (Error ⊎ Bytes)
  -- Redis
  pub read_reply : List Call → Error ⊎ List XStream
  pub redis_reply : List Call → Option Error
  -- MinIO
  pub exists_reply : List Call → Error ⊎ Bool
  pub minio_reply : List Call → Option Error
  -- the external API behind `ExternalAPICaller`
  pub api_reply : List Call → Option Error
  -- Prometheus: `Register`, and the value of a counter or gauge as `uint64`
  pub register_reply : List Call → Option Error
  pub counter_value : List Call → Counter → Bytes → Error ⊎ ℕ
  pub gauge_value : List Call → Gauge → Error ⊎ ℕ
  -- the HTTP servers
  pub shutdown_reply : List Call → Option Error
  -- viper
  pub config_reply : List Call → Option Error
  -- google/uuid; the bytes of `New` are random
  pub uuid_parse : Bytes → Option Uuid
  pub uuid_string : Uuid → Bytes
  pub uuid_new : List Call → Uuid
  -- `time.Now`, in nanoseconds since 1970
  pub now : List Call → ℕ
  -- `json.Marshal`
  pub marshal : List (String × Field) → Error ⊎ Bytes
  -- the order in which a `range` over a map visits its keys
  pub map_order : List Call → List Bytes → List Bytes
