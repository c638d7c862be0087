-- ===== src/Runtime/Values.antt =====
-- The values that pass between the services and what they call.
use shortcut.Prelude.{ℕ, Bytes, String, List, Option}

-- `uuid.UUID`: its sixteen bytes as one number.
pub record Uuid : Type 0 where
  pub number : ℕ

-- A field of a Redis message, `interface{}`: a string, a byte slice, or a value of another type
-- with what its `String` method returns, if it has one, and what `%v` prints.
pub data Value : Type 0 where
  str : Bytes → Value
  bytes : Bytes → Value
  other : Option Bytes → Bytes → Value

-- `redis.XMessage`
pub record XMessage : Type 0 where
  pub id : Bytes
  pub values : List (String × Value)

-- `redis.XStream`
pub record XStream : Type 0 where
  pub name : String
  pub messages : List XMessage

-- An argument of an SQL statement. A time is a layout and the nanoseconds since 1970.
pub data Arg : Type 0 where
  text : String → Arg
  nullable : Option Bytes → Arg
  raw : Bytes → Arg
  uuid : Uuid → Arg
  time : String → ℕ → Arg

-- A value of a `map[string]any` that `json.Marshal` prints.
pub data Field : Type 0 where
  number : ℕ → Field
  string : String → Field
  octets : Bytes → Field
  list : List Bytes → Field
  instant : String → ℕ → Field

-- `prometheus.CounterVec`s and gauges of a recorder, named as the recorder names them.
pub data Counter : Type 0 where
  task_counter status_counter error_counter : Counter

pub data Gauge : Type 0 where
  mem_used active_tasks http_requests_inflight : Gauge

pub data Level : Type 0 where
  debug info warn error fatal : Level
