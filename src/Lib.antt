-- ===== src/Lib.antt =====
-- shortcut: a service that takes tasks over HTTP, and a service that works them off.
--
-- submit_service answers `/submit`: it stores the task in ClickHouse and publishes it to the Redis
-- stream `tasks`. process_service runs a pool of workers that read the stream in a group, call an
-- external API for each task, and acknowledge the message; a message whose payload cannot be decoded
-- is marked in ClickHouse and copied to a bucket in MinIO, the dead letter queue. Both keep Prometheus
-- counters and write logs and metrics to ClickHouse with retries.
--
-- Runtime is the ground: what a process calls (`Call`), the answers it gets (`Env`), the state of a
-- process (`World`) and methods over it (`Exec`), which return, return an error, panic or block for
-- ever, what was written before staying written. The answers of ClickHouse, Redis, MinIO, the API,
-- Prometheus, google/uuid, the clock and `json.Marshal` are functions in `Env`, each given all the
-- calls made so far, so that a service may keep any state; a theorem holds for every such `Env`, and
-- says so where it asks for more (`IsPrometheus`, `IsGauge`, `IsRegistry`, `PrintsUuids`,
-- `VisitsEachKey`, `DeliversOnce`, `RespectsCount`).
--
-- The parts, with the code that each one translates:
--   Metrics           process_service/internal/metrics: `Recorder` and `Collectors` (metrics.go), `Server`
--                     (metrics.go, server.go)
--   ClickHouse        process_service/internal/repository: `Storage` and `Tables` (clickhouse.go),
--                     `Writer` (logs_repo.go, metrics_repo.go, hook.go)
--   Process.Domain    process_service/internal/domain/task.go
--   Process.Tasks     process_service/internal/repository/task_repo.go (`Repo`) and
--                     process_service/internal/services/task_service.go (`Service`)
--   Process.Dlq       process_service/internal/dlq/minio.go: `Names` and `Store`
--   Process.Bus       process_service/internal/bus/redis.go: `Ids` (extractTaskUUID) and `Consume`
--                     (ConsumeTasks: `consume_tasks`, `consume_streams`, `consume_messages`,
--                     `consume_message`, and the cases of a message under it)
--   Process.ExtApi    process_service/extapi/client.go
--   Process.Daemon    process_service/internal/daemon/daemon.go: `Handler` (handleTask), `Lifecycle`
--                     (New, Start, worker, Stop), `Pool`, the workers beside `Stop`, interleaved, and
--                     `Handling`, the workers inside handleTask, interleaved action by action; the
--                     theorems are in `Balance` (one task), `Accounts`, `Deliveries`, `Losses`,
--                     `Progress` and `Rounds` (the rounds of a worker), `Report` (logFinalMetrics), `Simulated`
--                     (handleTask with the API of extapi) and in the children of `Pool` and `Handling`
--   Process.Queue     the interface PersistentQueue of daemon.go, which repository.Service fills
--   Config            process_service/internal/config/config.go and its twin in submit_service: GetConf;
--                     the sections are in Process.Config and Submit.Config
--   Wiring            what process_service/main.go and submit_service/main.go share: the providers, the
--                     main loop and `stop`
--   Process.Main      process_service/main.go: the rest of it, up to `main`
--   Submit.Main       submit_service/main.go, up to `main`
--   Submit.Domain     submit_service/internal/domain/task.go
--   Submit.Tasks      submit_service/internal/repository/task_repo.go and
--                     submit_service/internal/services/task_service.go
--   Submit.Bus        submit_service/internal/bus/redis.go; `Pipeline` and `WorkedOff` follow a message into
--                     process_service
--   Submit.Daemon     submit_service/internal/daemon/daemon.go
--   Submit.WebApi     submit_service/internal/web-api: `Tasks` (task_handler.go), `Load` and `Numbers`
--                     (mem_load_handler.go, cpu_load_handler.go), `CpuLoad` (runCPULoad), `Server` (web-api.go,
--                     readiness_handler.go, metrics_handler.go), `Http`, what these use of net/http,
--                     `Answers`, all of them behind their routes,
--                     `Exhaustion`, any requests in a row, and `Admission`, the submissions side by side
--   Prelude           shared helpers; Tests: sample values, and the theorems at them
-- The metrics and the repository of submit_service are the files of process_service over again:
-- Submit.Metrics, Submit.Repository and Submit.Wiring name their methods, and each name stands for
-- the model of the method that it repeats.
--
-- State. `World.history` lists the calls made, the newest first. `storage` is the map of tasks that
-- were not processed, `wait_group` and `worker_ctx` belong to the daemon, `sem` counts the tokens in
-- the channel of the task handler, `shutting_down` is the flag of the web server, and `response` is the
-- answer to the HTTP request at hand. A method runs alone; the workers and `Stop` of the daemon side by
-- side are `Process.Daemon.Pool`, the workers over one `World` are `Process.Daemon.Handling`, and the
-- submissions beside `API.Stop` are `Submit.WebApi.Admission`.
--
-- Start and end. dig calls a provider when its result is first asked for, in the order of the
-- arguments: `provide_all` writes that order out. It promises no order for the members of a group,
-- so the order in which the services stop is an argument of `main`. `meanwhile` stands for what the
-- goroutines do between the start and the first event that the main loop sees. What viper makes of
-- the file and the environment is the argument `unmarshal`. A section that the file does not have
-- is a nil pointer, and reading it a panic. `log.Fatalf` ends the process with no deferred call
-- (`Ending`).
--
-- Numbers and fuel. An `int` keeps its 64 bits (`% 2 ^ 64`) where the load handlers multiply. The
-- retries run as many rounds as the setting says, none if it is negative. `visited` runs on fuel
-- `pages len`, one more than a page in every 4096 bytes needs; the decimal printer runs on the
-- number itself; `spin` runs on any fuel, of which the duration and one more is enough. The endless
-- loops of a worker and of the metrics goroutine run over the list of what their `select` sees in
-- each round.
--
-- A wait group has the 32 bits of its counter where the number of workers comes from a request, and
-- `Pool` has the panics that sync documents for an `Add` from 0 beside a `Wait`.
--
-- Not modelled. Decoding a payload is the parameter `Decoder`. A line of the log is one call: what
-- the hook of the logger writes to ClickHouse for it (`fire`) is modelled for itself and not run at
-- each line. The endpoint of the metrics is one that http.ServeMux takes (it panics on an empty one),
-- and a path is clean (ServeMux redirects another one before it routes it). viper, dig, logrus and
-- the clients of Redis, MinIO, ClickHouse and Prometheus are libraries, seen by their calls. Fields
-- of a log line, timeouts of single calls and the square roots of the CPU load have no state. Lines of
-- the log are kept by their format, but for the final report, kept by its text (`log_text`).
pub mod Prelude
pub mod Runtime
pub mod Metrics
pub mod ClickHouse
pub mod Config
pub mod Wiring
pub mod Process
pub mod Submit
pub mod Tests
