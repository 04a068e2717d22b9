-- ===== src/Shutdown/Hooks.antt =====
-- Which hook a deregister function removes.
use mcpcheck.Prelude.{
  ℕ, ◌≤◌, ◌≡◌, refl, sym, ap, ◌∙◌, true, false, List, [], ◌∷◌, ◌++◌, append_assoc, append-nil, some,
  Text, text_eq_refl, length, length-append, leb, arith,
}
use mcpcheck.Shutdown.{Registered, Coordinator, name_at, remove_at, register, has_name, deregister}

module _ {H : Type 0} where
  name_at-append :
      (before : List (Registered H)) (r : Registered H) (after : List (Registered H))
      → name_at (length before) (before ++ (r ∷ after)) ≡ some r.name
  name_at-append [] r after = refl
  name_at-append (b ∷ before) r after = name_at-append before r after

  remove_at-append :
      (before : List (Registered H)) (r : Registered H) (after : List (Registered H))
      → remove_at (length before) (before ++ (r ∷ after)) ≡ before ++ after
  remove_at-append [] r after = refl
  remove_at-append (b ∷ before) r after = ap (◌∷◌ b) (remove_at-append before r after)

  abbrev pub coordinator : List (Registered H) → Coordinator H
  coordinator hooks = record { hooks = hooks; started = false }

  -- Before `Shutdown` the hook that stands where it was registered is removed by its deregister function, and no
  -- other is.
  pub deregister-append :
      (before : List (Registered H)) (r : Registered H) (after : List (Registered H))
      → deregister r.name (length before) (coordinator (before ++ (r ∷ after)))
        ≡ coordinator (before ++ after)
  unfolding deregister
  deregister-append before r after =
      let l : leb (length (before ++ (r ∷ after))) (length before) ≡ false =
        ground (arith, length-append before (r ∷ after)) in
      let n : has_name r.name (name_at (length before) (before ++ (r ∷ after))) ≡ true =
        ap (has_name r.name) (name_at-append before r after) ∙ text_eq_refl r.name in
      rw (l, n) (ap coordinator (remove_at-append before r after))

  deregister_beyond :
      (name : Text) (idx : ℕ) (hooks : List (Registered H))
      → length hooks ≤ idx
      → deregister name idx (coordinator hooks) ≡ coordinator hooks
  unfolding deregister
  deregister_beyond name idx hooks h =
      let l : leb (length hooks) idx ≡ true = ground arith in rw l refl

  -- Of two hooks that are registered one after the other, the second stays if the first is removed before
  -- it: its deregister function does nothing then.
  pub deregister_stale :
      (c : List (Registered H)) (a b : Text) (h k : H)
      → let (c1, i) = register a h (coordinator c) in
        let (c2, j) = register b k c1 in
        deregister b j (deregister a i c2) ≡ coordinator (c ++ (record { name = b; hook = k } ∷ []))
  unfolding register
  deregister_stale c a b h k =
      let r : Registered H = record { name = a; hook = h } in
      let s : Registered H = record { name = b; hook = k } in
      let i : ℕ = length (c ++ (r ∷ [])) in
      ap (λ z. deregister b i (deregister a (length c) (coordinator z)))
        (append_assoc c (r ∷ []) (s ∷ []))
      ∙ ap (deregister b i) (deregister-append c r (s ∷ []))
      ∙ deregister_beyond b i (c ++ (s ∷ []))
          (omega (arith, length-append c (r ∷ []), length-append c (s ∷ [])))

  -- Of three hooks with one name, where the first is removed, the deregister function of the second removes
  -- the third.
  pub deregister_other :
      (c : List (Registered H)) (a : Text) (h k m : H)
      → let (c1, i) = register a h (coordinator c) in
        let (c2, j) = register a k c1 in
        let (c3, n) = register a m c2 in
        deregister a j (deregister a i c3) ≡ coordinator (c ++ (record { name = a; hook = k } ∷ []))
  unfolding register
  deregister_other c a h k m =
      let r : Registered H = record { name = a; hook = h } in
      let s : Registered H = record { name = a; hook = k } in
      let t : Registered H = record { name = a; hook = m } in
      let i : ℕ = length (c ++ (r ∷ [])) in
      let j : i ≡ length (c ++ (s ∷ [])) =
        omega (arith, length-append c (r ∷ []), length-append c (s ∷ [])) in
      ap (λ z. deregister a i (deregister a (length c) (coordinator z)))
        (append_assoc (c ++ (r ∷ [])) (s ∷ []) (t ∷ []) ∙ append_assoc c (r ∷ []) (s ∷ t ∷ []))
      ∙ ap (deregister a i) (deregister-append c r (s ∷ t ∷ []))
      ∙ ap (λ n. deregister a n (coordinator (c ++ (s ∷ t ∷ [])))) j
      ∙ ap (λ z. deregister a (length (c ++ (s ∷ []))) (coordinator z))
          (sym (append_assoc c (s ∷ []) (t ∷ [])))
      ∙ deregister-append (c ++ (s ∷ [])) t []
      ∙ ap coordinator (append-nil (c ++ (s ∷ [])))
