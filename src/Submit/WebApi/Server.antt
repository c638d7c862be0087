-- ===== src/Submit/WebApi/Server.antt =====
-- web-api.go, readiness_handler.go and metrics_handler.go
use shortcut.Prelude.{ℕ, String, true, Option, none, some, inl, inr, str_eq, if◌then◌else◌, length}
use shortcut.Runtime.{
  Call, Chunk, Env, Exec, call, checked, try, raise, modify, tell, ◌>>=◌, ◌>>◌, Level, Field,
}
use shortcut.Submit.Metrics.{get_metrics}
use shortcut.ClickHouse.{put}
use shortcut.Submit.Tasks.{TaskService, get_all_not_processed_tasks}
use shortcut.Submit.WebApi.Http.{Request, http_error, set_header, write_header, write_body}
use shortcut.Submit.WebApi.Tasks.{TaskHandler, new_task_handler, submit_task}
use shortcut.Submit.WebApi.Load.{cpu_load_handler, memory_load_handler}

unfoldable pub handle_readiness : Exec (Unit {0})
unfolding write_header write_body
handle_readiness w =
    if w.shutting_down
    then (write_header 503 >> write_body (Chunk.text "shutting down")) w
    else (write_header 200 >> write_body (Chunk.text "ok")) w

-- `Config`
pub record Config : Type 0 where
  pub addr : String

-- `API`: its server by the address, and the handler of tasks behind the routes.
pub record Api : Type 0 where
  pub server_addr : String
  pub tasks_handler : TaskHandler

unfoldable pub new : Config → TaskService → Api
new conf task_srv = record { server_addr = conf.addr; tasks_handler = new_task_handler task_srv }

-- The paths that the server routes.
pub data Route : Type 0 where
  submit readiness metrics cpu_load memory_load : Route

unfoldable pub route : String → Option Route
route path =
    if str_eq path "/submit"
    then some submit
    else if str_eq path "/readiness"
    then some readiness
    else if str_eq path "/metrics"
    then some metrics
    else if str_eq path "/load/cpu"
    then some cpu_load
    else if str_eq path "/load/memory"
    then some memory_load
    else none

module _ (env : Env) where
  -- `MetricsHandler.LogMetrics`
  unfoldable pub log_metrics : TaskHandler → Exec (Unit {0})
  unfolding get_metrics get_all_not_processed_tasks put http_error set_header write_header
      write_body
  log_metrics th = do
    resp ← get_metrics env
    try (get_all_not_processed_tasks env th.task_service)
        (λ _. http_error "Failed to get not processed tasks" 500)
        (λ tasks. do
          set_header "Content-Type" "application/json; charset=utf-8"
          write_header 200
          elim (env.marshal (put "not_processed_tasks_count" (Field.number (length tasks)) resp)) [
            | inl e ↦ http_error "Failed to format response" 500
            | inr text ↦ write_body (Chunk.octets text)
          ])

  -- A request through the routes of `New`; another path is not found.
  unfoldable pub serve_route : TaskHandler → ℕ → Request → Option Route → Exec (Unit {0})
  unfolding submit_task handle_readiness log_metrics cpu_load_handler memory_load_handler http_error
  serve_route th num_cpu r none = http_error "404 page not found" 404
  serve_route th num_cpu r (some submit) = submit_task env th r
  serve_route th num_cpu r (some readiness) = handle_readiness
  serve_route th num_cpu r (some metrics) = log_metrics th
  serve_route th num_cpu r (some cpu_load) = cpu_load_handler num_cpu r
  serve_route th num_cpu r (some memory_load) = memory_load_handler r

  unfoldable pub serve : TaskHandler → ℕ → String → Request → Exec (Unit {0})
  unfolding serve_route route
  serve th num_cpu path r = serve_route th num_cpu r (route path)

  -- `API.Start`
  unfoldable pub start : String → Exec (Unit {0})
  start addr = do
    tell (Call.log Level.info "Server started on %s")
    tell (Call.log Level.info "Try: hey -n 15000 -c 100 http://localhost:8080/submit")
    tell (Call.listen addr)

  -- `API.Stop`: the wait of five seconds, or to the end of the context, ends either way.
  unfoldable pub stop : String → Exec (Unit {0})
  stop addr = do
    modify (λ w. record w { shutting_down = true })
    tell (Call.log Level.info "Readiness probe set to unhealthy, waiting for traffic to drain...")
    tell (Call.sleep 5000)
    try (call (Call.shutdown addr) (λ h. checked (env.shutdown_reply h)))
        (λ e. tell (Call.log Level.error "Failed to shut down server") >> raise e)
        (λ _. tell (Call.log Level.info "Server shut down"))
