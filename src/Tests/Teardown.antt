-- ===== src/Tests/Teardown.antt =====
-- Three hooks, of which the second fails.
use mcpcheck.Prelude.{ℕ, ◌≡◌, refl, true, [], ◌∷◌, Option, none, some, codes, if◌then◌else◌, ◌==◌}
use mathlib.Core.List.{reverse}
use mcpcheck.Shutdown.{
  Registered, Coordinator, Ending, returns, failed, shutdown, run_hooks, run_hook,
}
use mcpcheck.Shutdown.Hooks.{coordinator}
use mcpcheck.Shutdown.Running.{IsRun, shutdown_lem}

abbrev hook : ℕ → Registered ℕ
hook n = record { name = codes "db"; hook = n }

abbrev three_hooks : Coordinator ℕ
three_hooks = coordinator (hook 1 ∷ hook 2 ∷ hook 3 ∷ [])

abbrev live_ctx : Registered ℕ → Option ℕ
live_ctx r = none

abbrev second_fails : Registered ℕ → Ending ℕ
second_fails r = returns (if r.hook == 2 then some 9 else none)

shutdown_run :
    (shutdown live_ctx second_fails three_hooks).1
    ≡ record { ran = hook 3 ∷ hook 2 ∷ hook 1 ∷ []; errors = failed (codes "db") 9 ∷ [] }
unfolding shutdown run_hooks run_hook
shutdown_run = refl

shutdown_example :
    IsRun live_ctx second_fails
      (reverse three_hooks.hooks)
      (shutdown live_ctx second_fails three_hooks).1
    × ((shutdown live_ctx second_fails three_hooks).0.started ≡ true)
    × (shutdown live_ctx second_fails (shutdown live_ctx second_fails three_hooks).0
        ≡ ((shutdown live_ctx second_fails three_hooks).0, record { ran = []; errors = [] }))
shutdown_example = shutdown_lem live_ctx second_fails three_hooks refl
