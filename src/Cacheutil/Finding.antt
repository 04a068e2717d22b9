-- ===== src/Cacheutil/Finding.antt =====
-- A worker that can go on, and a job that it can take.
use mcpcheck.Prelude.{◌<◌, ◌≡◌, refl, ap, List, [], ◌∷◌, ◌++◌, length, arith}
use mcpcheck.Cacheutil.{Phase, waiting, running, recorded, counted, exited}
use mcpcheck.Cacheutil.Tallies.{busy, gone, each, tally}

module _ {J : Type 0} where
  -- A list of phases without a busy one, or one with its place.
  pub data Found (ps : List (Phase J)) : Type 0 where
    none_busy : tally busy ps ≡ 0 → Found ps
    found :
        (front back : List (Phase J)) (p : Phase J) → ps ≡ front ++ p ∷ back → busy p ≡ 1 → Found ps

  find_later : (p : Phase J) (ps : List (Phase J)) → busy p ≡ 0 → Found ps → Found (p ∷ ps)
  find_later p ps e (none_busy h) = none_busy (omega (arith, e, h))
  find_later p ps e (found front back q h b) = found (p ∷ front) back q (ap (λ z. p ∷ z) h) b

  pub find_busy : (ps : List (Phase J)) → Found ps
  find_busy [] = none_busy refl
  find_busy (waiting ∷ ps) = find_later waiting ps refl (find_busy ps)
  find_busy (running j ∷ ps) = found [] ps (running j) refl refl
  find_busy (recorded ∷ ps) = found [] ps recorded refl refl
  find_busy (counted ∷ ps) = found [] ps counted refl refl
  find_busy (exited ∷ ps) = find_later exited ps refl (find_busy ps)

  -- Of workers none of which is busy or has left, the first one waits.
  pub first_waits :
      (ps : List (Phase J))
      → tally busy ps ≡ 0
      → tally gone ps ≡ 0
      → 0 < tally each ps
      → (back : List (Phase J)) × (ps ≡ waiting ∷ back)
  first_waits [] b g m = absurd (omega arith)
  first_waits (waiting ∷ ps) b g m = (ps, refl)
  first_waits (running j ∷ ps) b g m = absurd (omega arith)
  first_waits (recorded ∷ ps) b g m = absurd (omega arith)
  first_waits (counted ∷ ps) b g m = absurd (omega arith)
  first_waits (exited ∷ ps) b g m = absurd (omega arith)

  pub first_job : (js : List J) → 0 < length js → (j : J) × (ks : List J) × (js ≡ j ∷ ks)
  first_job [] h = absurd (omega arith)
  first_job (j ∷ ks) h = (j, ks, refl)
