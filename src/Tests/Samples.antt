-- ===== src/Tests/Samples.antt =====
-- Sample values: the answers of the other programs, a process that has just begun, and messages.
use shortcut.Prelude.{
  ℕ, Bytes, codes, String, true, false, List, [], ◌∷◌, Option, none, some, ◌⊎◌, inl, inr, pos,
}
use shortcut.Runtime.{Call, Env, Error, message, World, Exec, pure, Uuid, Value, XMessage}
use shortcut.Metrics.{count}
use shortcut.ClickHouse.{Service}
use shortcut.ClickHouse.{Client}
use shortcut.Process.Dlq.{MinIo}
use shortcut.Process.Domain.{Task}
use shortcut.Process.Tasks.{TaskRepository}
use shortcut.Process.Bus.{Consumer}
use shortcut.Submit.Domain.{Task as SubmittedTask}
use shortcut.Submit.WebApi.{Request}
use shortcut.Submit.WebApi.{TaskHandler}

-- A UUID is printed as one byte, its number.
abbrev pub parse : Bytes → Option Uuid
parse [] = none
parse (n ∷ []) = some (record { number = n })
parse (_ ∷ _ ∷ _) = none

-- Every call succeeds, and the counters are those of Prometheus.
abbrev pub env : Env
env = record {
  exec_reply = λ _. none;
  open_reply = λ _. none;
  query_reply = λ _. inr (inr (5 ∷ []) ∷ inr [] ∷ []);
  read_reply = λ _. inr [];
  redis_reply = λ _. none;
  exists_reply = λ _. inr true;
  minio_reply = λ _. none;
  api_reply = λ _. none;
  register_reply = λ _. none;
  config_reply = λ _. none;
  counter_value = λ h c l. inr (count c l h);
  gauge_value = λ h g. inr 0;
  shutdown_reply = λ _. none;
  uuid_parse = parse;
  uuid_string = λ u. u.number ∷ [];
  uuid_new = λ _. record { number = 7 };
  now = λ _. 0;
  marshal = λ _. inr (codes "{}");
  map_order = λ _ keys. keys;
}

-- The first call fails, and every later one succeeds.
abbrev pub fails_once : List Call → Option Error
fails_once [] = none
fails_once (_ ∷ []) = some (message "broken pipe")
fails_once (_ ∷ _ ∷ _) = none

abbrev pub flaky : Env
flaky = record env { exec_reply = fails_once; api_reply = λ _. some (message "unavailable") }

-- A process that has made no call.
abbrev pub new_world : World
new_world = record {
  history = [];
  storage = [];
  err_ch = [];
  wait_group = 0;
  worker_ctx = some false;
  sem = 0;
  shutting_down = false;
  response = record { status = none; header = []; body = [] };
}

abbrev pub uuid_of : ℕ → Uuid
uuid_of n = record { number = n }

abbrev pub store : MinIo
store = record { has_client = true; bucket = "tasks-dlq" }

-- A message with an id and a payload.
abbrev pub message_with : String → XMessage
message_with payload = record {
  id = codes "1-1";
  values = ("task_id", Value.str (5 ∷ [])) ∷ ("payload", Value.str (codes payload)) ∷ [];
}

-- A decoder that takes every payload but "{".
abbrev pub decoded : Task
decoded = record {
  id = uuid_of 9;
  status = "";
  payload = some (codes "work");
  failed_payload = none;
}

abbrev pub takes_all : Bytes → String ⊎ Task
takes_all _ = inr decoded

abbrev pub takes_none : Bytes → String ⊎ Task
takes_none _ = inl "unexpected end of JSON input"

abbrev pub client : Client
client = record {
  conf = record {
    dsn = "localhost:9000";
    user = "";
    password = "";
    num_retries = pos 3;
    timeout = 1000;
    use_tls = false;
  };
}

-- A client that does not retry.
abbrev pub impatient : Client
impatient = record {
  conf = record {
    dsn = "localhost:9000";
    user = "";
    password = "";
    num_retries = pos 0;
    timeout = 1000;
    use_tls = false;
  };
}

abbrev pub service : Service
service = record { client = client; has_metrics = false }

abbrev pub task_repository : TaskRepository
task_repository = record { s = some service }

abbrev pub consumer : Option (Option MinIo) → Consumer
consumer writer = record { dlq_writer = writer; status_hook = none }

abbrev pub handler : ℕ → Task → Exec (Unit {0})
handler _ _ = pure tt

-- The task handler of the web server, and its requests.
abbrev pub task_handler : TaskHandler
task_handler = record { task_service = record { task_repo = record { s = some service } } }

abbrev pub no_query : String → Bytes
no_query _ = []

abbrev pub submission : Bytes → Request
submission payload = record { payload = payload; query = no_query }

abbrev pub submitted_task : SubmittedTask
submitted_task = record { id = uuid_of 5; status = "processing"; payload = some (codes "work") }
