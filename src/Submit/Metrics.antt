-- ===== src/Submit/Metrics.antt =====
-- submit_service/internal/metrics: metrics.go and server.go. The two files are those of
-- process_service, line for line, so each method stands for the one that is translated from there.
use shortcut.Prelude.{ℕ, Bool, String, List}
use shortcut.Runtime.{Env, Exec, Field}
use shortcut.Metrics as Shared
use shortcut.Metrics.Collectors
use shortcut.Metrics.Server

-- The types of the two files.
abbrev pub RecorderConfig : Type 0
RecorderConfig = Collectors.RecorderConfig

abbrev pub Recorder : Type 0
Recorder = Collectors.Recorder

abbrev pub Config : Type 0
Config = Server.Config

abbrev pub Api : Type 0
Api = Server.Api

abbrev pub Service : Type 0
Service = Server.Service

unfoldable pub inc_processed_tasks : Bool → Exec (Unit {0})
unfolding Shared.inc_processed_tasks
inc_processed_tasks = Shared.inc_processed_tasks

unfoldable pub inc_http_response_status : ℕ → Exec (Unit {0})
unfolding Shared.inc_http_response_status
inc_http_response_status = Shared.inc_http_response_status

unfoldable pub inc_task_error : Exec (Unit {0})
unfolding Shared.inc_task_error
inc_task_error = Shared.inc_task_error

unfoldable pub inc_task_timeout : Exec (Unit {0})
unfolding Shared.inc_task_timeout
inc_task_timeout = Shared.inc_task_timeout

unfoldable pub add_active_tasks : ℕ → Exec (Unit {0})
unfolding Shared.add_active_tasks
add_active_tasks = Shared.add_active_tasks

unfoldable pub dec_active_tasks : ℕ → Exec (Unit {0})
unfolding Shared.dec_active_tasks
dec_active_tasks = Shared.dec_active_tasks

unfoldable pub observe_task_duration : ℕ → Exec (Unit {0})
unfolding Shared.observe_task_duration
observe_task_duration = Shared.observe_task_duration

unfoldable pub add_inflight_requests : ℕ → Exec (Unit {0})
unfolding Shared.add_inflight_requests
add_inflight_requests = Shared.add_inflight_requests

unfoldable pub new_recorder : Recorder
unfolding Collectors.new_recorder
new_recorder = Collectors.new_recorder

unfoldable pub new_api : Config → Api
new_api = Server.new_api

unfoldable pub api_start : Api → Exec (Unit {0})
unfolding Server.api_start
api_start = Server.api_start

unfoldable pub new : Config → Service
unfolding Server.new
new = Server.new

module _ (env : Env) where
  unfoldable pub get_processed_tasks_total : Exec ℕ
  unfolding Shared.get_processed_tasks_total
  get_processed_tasks_total = Shared.get_processed_tasks_total env

  unfoldable pub get_mem_used : Exec ℕ
  unfolding Shared.get_mem_used
  get_mem_used = Shared.get_mem_used env

  unfoldable pub get_active_tasks_total : Exec ℕ
  unfolding Shared.get_active_tasks_total
  get_active_tasks_total = Shared.get_active_tasks_total env

  unfoldable pub get_unavailable_total : Exec ℕ
  unfolding Shared.get_unavailable_total
  get_unavailable_total = Shared.get_unavailable_total env

  unfoldable pub get_submitted_tasks_total : Exec ℕ
  unfolding Shared.get_submitted_tasks_total
  get_submitted_tasks_total = Shared.get_submitted_tasks_total env

  unfoldable pub get_task_errors_total : Exec ℕ
  unfolding Shared.get_task_errors_total
  get_task_errors_total = Shared.get_task_errors_total env

  unfoldable pub get_timeouts_total : Exec ℕ
  unfolding Shared.get_timeouts_total
  get_timeouts_total = Shared.get_timeouts_total env

  unfoldable pub get_metrics : Exec (List (String × Field))
  unfolding Shared.get_metrics
  get_metrics = Shared.get_metrics env

  unfoldable pub register_metrics : Recorder → Exec (Unit {0})
  unfolding Collectors.register_metrics
  register_metrics = Collectors.register_metrics env

  unfoldable pub api_stop : Api → Exec (Unit {0})
  unfolding Server.api_stop
  api_stop = Server.api_stop env

  unfoldable pub start : Service → Exec (Unit {0})
  unfolding Server.start
  start = Server.start env

  unfoldable pub stop : Service → Exec (Unit {0})
  unfolding Server.stop
  stop = Server.stop env
