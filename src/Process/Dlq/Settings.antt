-- ===== src/Process/Dlq/Settings.antt =====
-- The settings of the MinIO client.
use shortcut.Prelude.{String, eq_iff, none, some, ◌≡◌, ◌≢◌, refl, arith}
use shortcut.Process.Dlq.Store.{Config, default_config, or_default, effective}

or_default_lem :
    (given default : String)
    → default ≢ ""
    → (or_default given default ≢ "")
      × (given ≢ "" → or_default given default ≡ given)
      × (given ≡ "" → or_default given default ≡ default)
unfolding or_default
or_default_lem given default h = (
  ground (arith, eq_iff given ""),
  λ n. ground (arith, eq_iff given ""),
  λ e. ground (arith, eq_iff given ""),
)

-- A text of the settings: never empty, the given one if that is not empty, and else the default.
abbrev pub Settles : String → String → String → Type 0
Settles given default used =
    (used ≢ "") × (given ≢ "" → used ≡ given) × (given ≡ "" → used ≡ default)

not_empty :
    (default_config.endpoint ≢ "")
    × (default_config.access_key ≢ "")
    × (default_config.dlq_bucket ≢ "")
not_empty = (
  ground (arith, eq_iff "localhost:9000" ""),
  ground (arith, eq_iff "minioadmin" ""),
  ground (arith, eq_iff "tasks-dlq" ""),
)

-- Each of the four texts is the given one, or the default where that is empty or no settings are
-- given, and never empty; TLS is used exactly if the settings say so.
pub effective_lem :
    (conf : Config)
    → Settles conf.endpoint default_config.endpoint (effective (some conf)).endpoint
      × Settles conf.access_key default_config.access_key (effective (some conf)).access_key
      × Settles conf.secret_key default_config.secret_key (effective (some conf)).secret_key
      × Settles conf.dlq_bucket default_config.dlq_bucket (effective (some conf)).dlq_bucket
      × ((effective (some conf)).use_ssl ≡ conf.use_ssl)
      × (effective none ≡ default_config)
unfolding effective
effective_lem conf = (
  or_default_lem conf.endpoint default_config.endpoint not_empty.0,
  or_default_lem conf.access_key default_config.access_key not_empty.1,
  or_default_lem conf.secret_key default_config.secret_key not_empty.1,
  or_default_lem conf.dlq_bucket default_config.dlq_bucket not_empty.2,
  refl,
  refl,
)
