-- ===== src/Submit/Repository.antt =====
-- submit_service/internal/repository: clickhouse.go, logs_repo.go, metrics_repo.go and hook.go. The
-- files are those of process_service but for the path of an import, so each method stands for the
-- one that is translated from there.
use shortcut.Prelude.{Bool, Bytes, String, List}
use shortcut.Runtime.{Env, Exec, Field}
use shortcut.ClickHouse as Shared
use shortcut.ClickHouse.{Entry}

-- The types of the files.
abbrev pub Config : Type 0
Config = Shared.Config

abbrev pub Client : Type 0
Client = Shared.Client

abbrev pub Service : Type 0
Service = Shared.Service

abbrev pub LogRequest : Type 0
LogRequest = Shared.LogRequest

unfoldable pub add_not_processed_task : Bytes → Exec (Unit {0})
unfolding Shared.add_not_processed_task
add_not_processed_task = Shared.add_not_processed_task

unfoldable pub get_all_not_processed_tasks : Env → Exec (List Bytes)
unfolding Shared.get_all_not_processed_tasks
get_all_not_processed_tasks = Shared.get_all_not_processed_tasks

module _ (env : Env) where
  unfoldable pub post_logs_or_metrics_with_retries :
      Client → String → List (String × Field) → Exec (Unit {0})
  unfolding Shared.post_logs_or_metrics_with_retries
  post_logs_or_metrics_with_retries = Shared.post_logs_or_metrics_with_retries env

  unfoldable pub write_log : Client → List (String × Field) → Exec (Unit {0})
  unfolding Shared.write_log
  write_log = Shared.write_log env

  unfoldable pub write_metrics : Client → List (String × Field) → Exec (Unit {0})
  unfolding Shared.write_metrics
  write_metrics = Shared.write_metrics env

  unfoldable pub fire : Client → Entry → Exec (Unit {0})
  unfolding Shared.fire
  fire = Shared.fire env

  unfoldable pub new_client : Config → Exec Client
  unfolding Shared.new_client
  new_client = Shared.new_client env

  unfoldable pub ensure_tables : Client → Exec (Unit {0})
  unfolding Shared.ensure_tables
  ensure_tables = Shared.ensure_tables env

  unfoldable pub new_service : Config → Bool → Exec Service
  unfolding Shared.new_service
  new_service = Shared.new_service env

  unfoldable pub sample : Service → List Bool → Exec (Unit {0})
  unfolding Shared.sample
  sample = Shared.sample env
