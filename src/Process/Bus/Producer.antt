-- ===== src/Process/Bus/Producer.antt =====
-- redis.go: the producer, which process_service does not call. What go-redis makes of the task, a
-- pointer to a struct, is the argument `fields`.
use shortcut.Prelude.{String, List}
use shortcut.Runtime.{Call, Env, Exec, call, checked, Value}
use shortcut.Process.Domain.{Task}

unfoldable pub produce_task : (Task → List (String × Value)) → Env → Task → Exec (Unit {0})
produce_task fields env task =
    call (Call.x_add "tasks" (fields task)) (λ h. checked (env.redis_reply h))
