-- ===== src/Metrics/Collectors.antt =====
-- metrics.go: what `NewRecorder` makes, and its registration.
use shortcut.Prelude.{String, List, [], ◌∷◌}
use shortcut.Runtime.{
  Call, Env, Exec, ◌>>◌, pure, call, checked, Buckets, def_buckets, exponential_buckets, Collector,
  counter_vec, histogram, gauge,
}

pub record RecorderConfig : Type 0 where
  pub prefix : String
  pub duration_buckets : Buckets
  pub size_buckets : Buckets

-- `Recorder`, its collectors by what they were made of.
pub record Recorder : Type 0 where
  pub conf : RecorderConfig
  pub task_counter : Collector
  pub status_counter : Collector
  pub error_counter : Collector
  pub task_duration : Collector
  pub mem_used : Collector
  pub active_tasks : Collector
  pub http_requests_inflight : Collector

abbrev task_processed_label : String
task_processed_label = "processed"

abbrev status_code_label : String
status_code_label = "code"

abbrev error_label : String
error_label = "error"

abbrev recorder_config : RecorderConfig
recorder_config = record {
  prefix = "";
  duration_buckets = def_buckets;
  size_buckets = exponential_buckets 100 10 8;
}

unfoldable pub new_recorder : Recorder
new_recorder = record {
  conf = recorder_config;
  task_counter = record {
    kind = counter_vec (task_processed_label ∷ []);
    namespace = recorder_config.prefix;
    subsystem = "task";
    name = "processed_tasks_total";
    help = "The total number of accepted HTTP requests.";
  };
  status_counter = record {
    kind = counter_vec (status_code_label ∷ []);
    namespace = recorder_config.prefix;
    subsystem = "http";
    name = "requests_accepted_total";
    help = "The total number of accepted HTTP requests.";
  };
  error_counter = record {
    kind = counter_vec (error_label ∷ []);
    namespace = recorder_config.prefix;
    subsystem = "task";
    name = "errors_total";
    help = "The total number of task errors.";
  };
  task_duration = record {
    kind = histogram recorder_config.duration_buckets;
    namespace = recorder_config.prefix;
    subsystem = "task";
    name = "duration_seconds";
    help = "The duration of task processing in seconds.";
  };
  mem_used = record {
    kind = gauge;
    namespace = recorder_config.prefix;
    subsystem = "http";
    name = "mem_used_bytes";
    help = "The number of bytes of memory used.";
  };
  active_tasks = record {
    kind = gauge;
    namespace = recorder_config.prefix;
    subsystem = "task";
    name = "active_tasks";
    help = "The number of active tasks being processed at the same time.";
  };
  http_requests_inflight = record {
    kind = gauge;
    namespace = recorder_config.prefix;
    subsystem = "http";
    name = "requests_inflight";
    help = "The number of inflight requests being handled at the same time.";
  };
}

-- `metricsToRegister`
unfoldable pub metrics_to_register : Recorder → List Collector
metrics_to_register r =
    r.active_tasks ∷ r.error_counter ∷ r.task_duration ∷ r.mem_used ∷ r.http_requests_inflight
    ∷ r.status_counter ∷ r.task_counter ∷ []

module _ (env : Env) where
  -- The loop of `RegisterMetrics` stops at the first collector that the registry refuses.
  unfoldable pub register_all : List Collector → Exec (Unit {0})
  register_all [] = pure tt
  register_all (m ∷ ms) =
      call (Call.register m) (λ h. checked (env.register_reply h)) >> register_all ms

  unfoldable pub register_metrics : Recorder → Exec (Unit {0})
  unfolding register_all metrics_to_register
  register_metrics r = register_all (metrics_to_register r)
