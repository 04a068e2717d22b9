-- ===== src/Shutdown/Running.antt =====
-- The order in which `Shutdown` runs the hooks, and what it returns.
use mcpcheck.Prelude.{
  ◌≡◌, ◌⊎◌, refl, sym, ap, ◌∙◌, inl, inr, true, false, List, [], ◌∷◌, ◌++◌, Option, none, some, All,
}
use mathlib.Core.List.{reverse}
use mcpcheck.Shutdown.{
  Registered, Coordinator, Ending, returns, panics, timed_out, Failure, failed, panicked, late,
  aborted, run_hook, Report, add_failure, run_one, check_ctx, run_hooks, shutdown,
}

module _ {H E : Type 0} (ctx : Registered H → Option E) (ending : Registered H → Ending E) where
  -- The errors of hooks that ran, in their order: one for each that returned an error, panicked or was late.
  pub failures_of : List (Registered H) → List (Failure E)
  failures_of [] = []
  failures_of (r ∷ rs) = elim (ending r) [
    | returns none ↦ failures_of rs
    | returns (some e) ↦ failed r.name e ∷ failures_of rs
    | panics v ↦ panicked r.name v ∷ failures_of rs
    | timed_out e ↦ late r.name e ∷ failures_of rs
  ]

  failures_of-run_hook :
      (r : Registered H) (rs : List (Registered H))
      → failures_of (r ∷ rs) ≡ add_failure (run_hook r.name (ending r)) (failures_of rs)
  unfolding failures_of run_hook
  failures_of-run_hook r rs = by_ending (ending r)
    where
      by_ending :
          (d : Ending E)
          → (elim d [
            | returns none ↦ failures_of rs
            | returns (some e) ↦ failed r.name e ∷ failures_of rs
            | panics v ↦ panicked r.name v ∷ failures_of rs
            | timed_out e ↦ late r.name e ∷ failures_of rs
          ])
            ≡ add_failure (run_hook r.name d) (failures_of rs)
      by_ending (returns none) = refl
      by_ending (returns (some e)) = refl
      by_ending (panics v) = refl
      by_ending (timed_out e) = refl

  -- What ran of some hooks and what did not.
  pub record IsRun (hooks : List (Registered H)) (p : Report H E) : Type 0 where
    pub left : List (Registered H)
    pub splits : hooks ≡ p.ran ++ left
    pub live : All (λ r. ctx r ≡ none) p.ran
    pub ends :
        ((left ≡ []) × (p.errors ≡ failures_of p.ran))
        ⊎ ((r : Registered H) × (rest : List (Registered H)) × (e : E) × (left ≡ r ∷ rest)
            × (ctx r ≡ some e)
            × (p.errors ≡ failures_of p.ran ++ (aborted r.name e ∷ [])))

  add_failure-append :
      (o : Option (Failure E)) (xs ys : List (Failure E))
      → add_failure o (xs ++ ys) ≡ add_failure o xs ++ ys
  add_failure-append none xs ys = refl
  add_failure-append (some f) xs ys = refl

  run_one-IsRun :
      (r : Registered H) (rs : List (Registered H)) (p : Report H E)
      → ctx r ≡ none
      → IsRun rs p
      → IsRun (r ∷ rs) (run_one ctx ending r p)
  unfolding failures_of
  run_one-IsRun r rs p c v = record {
    left = v.left;
    splits = ap (◌∷◌ r) v.splits;
    live = (c, v.live);
    ends = elim v.ends [
      | inl (a, b) ↦
          inl (
            a,
            ap (add_failure (run_hook r.name (ending r))) b ∙ sym (failures_of-run_hook r p.ran),
          )
      | inr (q, rest, e, a, b, d) ↦ inr (
        q,
        rest,
        e,
        a,
        b,
        ap (add_failure (run_hook r.name (ending r))) d
            ∙ add_failure-append (run_hook r.name (ending r)) (failures_of p.ran)
                (aborted q.name e ∷ [])
            ∙ ap (λ fs. fs ++ (aborted q.name e ∷ [])) (sym (failures_of-run_hook r p.ran)),
      )
    ];
  }

  run_hooks-IsRun : (rs : List (Registered H)) → IsRun rs (run_hooks ctx ending rs)
  unfolding run_hooks failures_of
  run_hooks-IsRun [] = record { left = []; splits = refl; live = tt; ends = inl (refl, refl) }
  run_hooks-IsRun (r ∷ rs) = step (ctx r) refl (run_hooks-IsRun rs)
    where
      step :
          (o : Option E)
          → ctx r ≡ o
          → IsRun rs (run_hooks ctx ending rs)
          → IsRun (r ∷ rs) (check_ctx ctx ending r o (run_hooks ctx ending rs))
      step none c v = run_one-IsRun r rs _ c v
      step (some e) c v = record {
        left = r ∷ rs;
        splits = refl;
        live = tt;
        ends = inr (r, rs, e, refl, c, refl);
      }

  -- The first `Shutdown` runs hooks from the one that was registered last on, each while the context is not
  -- done. Its errors are those of the hooks that failed, panicked or were late, in the order in which they ran;
  -- if the context is done before a hook, that one and those behind it do not run and a last error says
  -- so. Every further `Shutdown` runs nothing and returns no error.
  pub shutdown_lem :
      (c : Coordinator H)
      → c.started ≡ false
      → IsRun (reverse c.hooks) (shutdown ctx ending c).1
        × ((shutdown ctx ending c).0.started ≡ true)
        × (shutdown ctx ending (shutdown ctx ending c).0
            ≡ ((shutdown ctx ending c).0, record { ran = []; errors = [] }))
  unfolding shutdown
  shutdown_lem c h = rw h (run_hooks-IsRun (reverse c.hooks), refl, refl)
