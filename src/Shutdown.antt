-- ===== src/Shutdown.antt =====
-- internal/shutdown/shutdown.go. A hook is an `H`; what the code that it calls returns is a parameter.
pub mod Hooks
pub mod Running
use mcpcheck.Prelude.{
  ℕ, zero, suc, ◌+◌, ◌-◌, Bool, true, false, ◌||◌, not, List, [], ◌∷◌, ◌++◌, Option, none, some,
  Text, ◌=ₜ◌, codes, length, ltb, leb, if◌then◌else◌,
}
use mathlib.Core.List.{reverse}

-- `registered`
pub record Registered (H : Type 0) : Type 0 where
  pub name : Text
  pub hook : H

-- `Coordinator`
pub record Coordinator (H : Type 0) : Type 0 where
  pub hooks : List (Registered H)
  pub started : Bool

-- `c.hooks[idx].name`
abbrev pub name_at : {H : Type 0} → ℕ → List (Registered H) → Option Text
name_at idx [] = none
name_at zero (r ∷ rs) = some r.name
name_at (suc idx) (r ∷ rs) = name_at idx rs

-- `append(c.hooks[:idx], c.hooks[idx+1:]...)`
abbrev pub remove_at : {H : Type 0} → ℕ → List (Registered H) → List (Registered H)
remove_at idx [] = []
remove_at zero (r ∷ rs) = rs
remove_at (suc idx) (r ∷ rs) = r ∷ remove_at idx rs

-- `New`
abbrev pub new_coordinator : {H : Type 0} → Coordinator H
new_coordinator = record { hooks = []; started = false }

-- `Register`, with the index that its closure keeps.
unfoldable pub register : {H : Type 0} → Text → H → Coordinator H → Coordinator H × ℕ
register name h c =
    (record c { hooks = c.hooks ++ (record { name = name; hook = h } ∷ []) }, length c.hooks)

abbrev pub has_name : Text → Option Text → Bool
has_name name none = false
has_name name (some n) = n =ₜ name

-- The closure of `Register`.
unfoldable pub deregister : {H : Type 0} → Text → ℕ → Coordinator H → Coordinator H
deregister name idx c =
    if c.started || leb (length c.hooks) idx || not (has_name name (name_at idx c.hooks))
    then c
    else record c { hooks = remove_at idx c.hooks }

-- `Size`
unfoldable pub size : {H : Type 0} → Coordinator H → ℕ
size c = length c.hooks

-- How a hook ends: it returns, it panics, or its time is over before; the last with the context's error.
pub data Ending (E : Type 0) : Type 0 where
  returns : Option E → Ending E
  panics : Text → Ending E
  timed_out : E → Ending E

-- The errors of `Shutdown`: a hook's, with its name, or the end of the call before a hook.
pub data Failure (E : Type 0) : Type 0 where
  failed : Text → E → Failure E
  panicked : Text → Text → Failure E
  late : Text → E → Failure E
  aborted : Text → E → Failure E

-- `runHook`, with the wrapping of the loop.
unfoldable pub run_hook : {E : Type 0} → Text → Ending E → Option (Failure E)
run_hook name (returns none) = none
run_hook name (returns (some e)) = some (failed name e)
run_hook name (panics v) = some (panicked name v)
run_hook name (timed_out e) = some (late name e)

-- What the loop leaves: the hooks that ran, in their order, and the errors.
pub record Report (H E : Type 0) : Type 0 where
  pub ran : List (Registered H)
  pub errors : List (Failure E)

abbrev pub add_failure : {E : Type 0} → Option (Failure E) → List (Failure E) → List (Failure E)
add_failure none fs = fs
add_failure (some f) fs = f ∷ fs

module _ {H E : Type 0} (ctx : Registered H → Option E) (ending : Registered H → Ending E) where
  abbrev pub run_one : Registered H → Report H E → Report H E
  run_one r rest = record {
    ran = r ∷ rest.ran;
    errors = add_failure (run_hook r.name (ending r)) rest.errors;
  }

  abbrev pub check_ctx : Registered H → Option E → Report H E → Report H E
  check_ctx r (some e) rest = record { ran = []; errors = aborted r.name e ∷ [] }
  check_ctx r none rest = run_one r rest

  -- The loop of `Shutdown`, over the hooks from the last on. `ctx` is `ctx.Err()` before a hook.
  unfoldable pub run_hooks : List (Registered H) → Report H E
  run_hooks [] = record { ran = []; errors = [] }
  run_hooks (r ∷ rs) = check_ctx r (ctx r) (run_hooks rs)

  -- `Shutdown`: its error joins the errors; none is nil.
  unfoldable pub shutdown : Coordinator H → Coordinator H × Report H E
  shutdown c =
      if c.started
      then (c, record { ran = []; errors = [] })
      else (record c { started = true }, run_hooks (reverse c.hooks))
