-- ===== src/Runtime/Collectors.antt =====
-- What client_golang is told of a collector: its options, its labels or its buckets.
use shortcut.Prelude.{ℕ, String, List}

-- `prometheus.DefBuckets` and `prometheus.ExponentialBuckets`: start, factor and count
pub data Buckets : Type 0 where
  def_buckets : Buckets
  exponential_buckets : ℕ → ℕ → ℕ → Buckets

pub data Kind : Type 0 where
  counter_vec : List String → Kind
  histogram : Buckets → Kind
  gauge : Kind

pub record Collector : Type 0 where
  pub kind : Kind
  pub namespace : String
  pub subsystem : String
  pub name : String
  pub help : String
