-- ===== src/Submit/WebApi/Routes.antt =====
-- The paths of the server.
use shortcut.Prelude.{String, eq_iff, some, ◌≡◌, ◌↔◌, refl, arith}
use shortcut.Submit.WebApi.Server.{Route, submit, readiness, metrics, cpu_load, memory_load, route}

-- The path of each handler.
pub path_of : Route → String
path_of submit = "/submit"
path_of readiness = "/readiness"
path_of metrics = "/metrics"
path_of cpu_load = "/load/cpu"
path_of memory_load = "/load/memory"

-- Each handler is served under its path and under no other.
pub route-path_of : (path : String) (r : Route) → (route path ≡ some r) ↔ (path ≡ path_of r)
unfolding route path_of
route-path_of path r = (
  λ h. ground (
    arith,
    eq_iff path "/submit",
    eq_iff path "/readiness",
    eq_iff path "/metrics",
    eq_iff path "/load/cpu",
    eq_iff path "/load/memory",
  ),
  λ e. served path r e,
)
  where
    served : (path : String) (r : Route) → path ≡ path_of r → route path ≡ some r
    served path submit e = rw e refl
    served path readiness e = rw e refl
    served path metrics e = rw e refl
    served path cpu_load e = rw e refl
    served path memory_load e = rw e refl
