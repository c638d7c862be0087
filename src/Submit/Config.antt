-- ===== src/Submit/Config.antt =====
-- submit_service/internal/config/config.go: the sections of the configuration.
use shortcut.Prelude.{String, Option}
use shortcut.Metrics.Server
use shortcut.ClickHouse
use shortcut.Submit.WebApi

-- `bus.Config`
pub record BusConfig : Type 0 where
  pub redis_addr : String

pub record AppConfig : Type 0 where
  pub repo_conf : Option ClickHouse.Config
  pub redis_conf : Option BusConfig
  pub metrics : Option Server.Config
  pub web_api : Option WebApi.Config
