-- ===== src/Process/Config.antt =====
-- process_service/internal/config/config.go: the sections of the configuration. A section that the
-- file does not have is a nil pointer.
use shortcut.Prelude.{String, Option}
use shortcut.Metrics.Server
use shortcut.ClickHouse
use shortcut.Process.Dlq

-- `bus.Config`
pub record BusConfig : Type 0 where
  pub redis_addr : String

pub record AppConfig : Type 0 where
  pub redis_conf : Option BusConfig
  pub min_io_conf : Option Dlq.Config
  pub repo_conf : Option ClickHouse.Config
  pub metrics : Option Server.Config
