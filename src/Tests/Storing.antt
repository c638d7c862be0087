-- ===== src/Tests/Storing.antt =====
-- The theorems on ClickHouse and the dead letter queue at sample values.
use shortcut.Prelude.{codes, [], some, refl, arith}
use shortcut.ClickHouse.{insert_into, post_logs_or_metrics_with_retries}
use shortcut.ClickHouse.Retries.{Ends, post_with_retries-Ends}
use shortcut.Process.Dlq.{send_to}
use shortcut.Process.Dlq.Put.{Stored, send_to-Stored}
use shortcut.Tests.Samples.{env, flaky, new_world, store, client}

-- The first attempt fails, and the second one succeeds.
post_with_retries-Ends_example :
    Ends flaky
      (insert_into "logs")
      (record { ts = 0; val = codes "{}" })
      3
      new_world
      (post_logs_or_metrics_with_retries flaky client "logs" [] new_world)
post_with_retries-Ends_example =
    post_with_retries-Ends flaky client "logs" [] 3 (codes "{}") new_world refl (omega arith) refl

send_to-Stored_example :
    Stored env store
      (codes "1-1")
      (some (codes "{"))
      "bad"
      new_world
      (send_to env store (codes "1-1") (some (codes "{")) "bad" new_world).1
unfolding send_to
send_to-Stored_example =
    send_to-Stored env store (codes "1-1") (some (codes "{")) "bad" new_world
      (send_to env store (codes "1-1") (some (codes "{")) "bad" new_world).1 refl
