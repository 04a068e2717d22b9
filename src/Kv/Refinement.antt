-- ===== src/Kv/Refinement.antt =====
-- The store against a plain map from keys to entries, which has no shards and never removes an expired entry.
use mcpcheck.Prelude.{
  ℕ, ◌+◌, ◌≤◌, ◌≡◌, ◌≢◌, refl, sym, ap, ap₂, subst, ◌∙◌, inl, inr, true, not, List, [], ◌∷◌, Option,
  none, some, Text, ◌=ₜ◌, text_eq_iff, if◌then◌else◌, ◌==◌, arith, Bool-cases, Option-cases,
}
use mcpcheck.Kv.{
  Entry, Memory, put, remove, is_expired, entry_of, on_shard, drop_expired, get, set, set_with_ttl,
  delete, sweep, new_memory,
}
use mcpcheck.Kv.Shards.{IsMap-put, IsMap-keep, sift, IsStore, new_memory-IsStore}
use mcpcheck.Kv.Lookup.{
  visible, expired-later, if_true, if_false, on_shard-IsStore, entry_of-put, entry_of-remove,
  entry_of-sweep, sweep-IsStore, entry_of-new_memory, get-none, get-live, get-expired,
  drop_expired-none, drop_expired-same, drop_expired-other, deadline_over,
}

-- A call of the store, with the time that it reads; a `ttl` of 0 is that of `Set`.
pub data Command (V : Type 0) : Type 0 where
  gets : ℕ → Text → Command V
  sets : ℕ → Text → V → ℕ → Command V
  deletes : ℕ → Text → Command V
  sweeps : ℕ → Command V

abbrev pub time_of : {V : Type 0} → Command V → ℕ
time_of (gets now key) = now
time_of (sets now key v ttl) = now
time_of (deletes now key) = now
time_of (sweeps now) = now

-- The plain map.
abbrev pub Plain : Type 0 → Type 0
Plain V = Text → Option (Entry V)

abbrev pub assign : {V : Type 0} → Text → Option (Entry V) → Plain V → Plain V
assign key o f = λ k. if key =ₜ k then o else f k

abbrev pub deadline : ℕ → ℕ → ℕ
deadline now ttl = if ttl == 0 then 0 else now + ttl

-- What a call does to the plain map, and what it returns.
abbrev pub plain : {V : Type 0} → Command V → Plain V → Plain V × Option V
plain (gets now key) f = (f, visible now (f key))
plain (sets now key v ttl) f =
    (assign key (some (record { value = v; expires_at = deadline now ttl })) f, none)
plain (deletes now key) f = (assign key none f, none)
plain (sweeps now) f = (f, none)

abbrev pub answers_plain : {V : Type 0} → List (Command V) → Plain V → List (Option V)
answers_plain [] f = []
answers_plain (c ∷ cs) f = (plain c f).1 ∷ answers_plain cs (plain c f).0

-- The clock does not go back.
abbrev pub Advances : {V : Type 0} → ℕ → List (Command V) → Type 0
Advances now [] = Unit
Advances now (c ∷ cs) = (now ≤ time_of c) × Advances (time_of c) cs

module _ {V : Type 0} (hash : Text → ℕ) where
  abbrev pub exec : Command V → Memory V → Memory V × Option V
  exec (gets now key) m = get hash now key m
  exec (sets now key v ttl) m = (set_with_ttl hash now key v ttl m, none)
  exec (deletes now key) m = (delete hash key m, none)
  exec (sweeps now) m = (sweep now m, none)

  abbrev pub answers : List (Command V) → Memory V → List (Option V)
  answers [] m = []
  answers (c ∷ cs) m = (exec c m).1 ∷ answers cs (exec c m).0

  -- From a time on, a reader sees the same at each key.
  abbrev pub Agree : ℕ → Memory V → Plain V → Type 0
  Agree now m f = (k : Text) (t : ℕ) → now ≤ t → visible t (entry_of hash k m) ≡ visible t (f k)

  abbrev Kept : ℕ → Memory V × Option V → Plain V × Option V → Type 0
  Kept now a b = IsStore a.0 × Agree now a.0 b.0 × (a.1 ≡ b.1)

  assign-Agree :
      (now : ℕ) (key : Text) (o : Option (Entry V)) (m m' : Memory V) (f : Plain V)
      → ((k : Text) → entry_of hash k m' ≡ (if key =ₜ k then o else entry_of hash k m))
      → Agree now m f
      → Agree now m' (assign key o f)
  assign-Agree now key o m m' f h a k t l =
      ap (visible t) (h k)
      ∙ elim (Bool-cases (key =ₜ k)) [ inl e ↦ rw e refl | inr e ↦ rw e (a k t l) ]

  put-Kept :
      (now : ℕ) (key : Text) (e : Entry V) (m : Memory V) (f : Plain V)
      → IsStore m
      → Agree now m f
      → Kept now (on_shard hash key (put key e) m, none) (assign key (some e) f, none)
  put-Kept now key e m f v a = (
    on_shard-IsStore hash key (put key e) m (IsMap-put key e) v,
    assign-Agree now key (some e) m _ f (λ k. entry_of-put hash key k e m v) a,
    refl,
  )

  remove-IsStore :
      (key : Text) (m : Memory V) → IsStore m → IsStore (on_shard hash key (remove key) m)
  unfolding remove
  remove-IsStore key m v = on_shard-IsStore hash key (remove key) m (IsMap-keep _) v

  sets-Kept :
      (now : ℕ) (key : Text) (v : V) (ttl : ℕ) (m : Memory V) (f : Plain V)
      → IsStore m
      → Agree now m f
      → Kept now (set_with_ttl hash now key v ttl m, none) (plain (sets now key v ttl) f)
  unfolding set_with_ttl set
  sets-Kept now key v ttl m f s a = elim (Bool-cases (ttl == 0)) [
    | inl e ↦ rw e (put-Kept now key (record { value = v; expires_at = 0 }) m f s a)
    | inr e ↦ rw e (put-Kept now key (record { value = v; expires_at = now + ttl }) m f s a)
  ]

  -- An entry that has expired is as good as none.
  expired-Agree :
      (now : ℕ) (key : Text) (m : Memory V) (f : Plain V) (d : Entry V)
      → IsStore m
      → entry_of hash key m ≡ some d
      → is_expired now d ≡ true
      → Agree now m f
      → Agree now (on_shard hash key (remove key) m) f
  expired-Agree now key m f d v e x a k t l =
      ap (visible t) (entry_of-remove hash key k m v) ∙ elim (Bool-cases (key =ₜ k)) [
        | inl p ↦ ap (visible t) (if_true _ _ p) ∙ unseen p ∙ a k t l
        | inr p ↦ ap (visible t) (if_false _ _ p) ∙ a k t l
      ]
    where
      unseen : (key =ₜ k) ≡ true → none ≡ visible t (entry_of hash k m)
      unseen p =
          subst (λ z. none ≡ visible t (entry_of hash z m)) ((text_eq_iff key k).0 p)
            (rw (e, expired-later now t d l x) refl)

  gets-Kept :
      (now : ℕ) (key : Text) (m : Memory V) (f : Plain V)
      → IsStore m
      → Agree now m f
      → Kept now (get hash now key m) (f, visible now (f key))
  gets-Kept now key m f s a = elim (Option-cases (entry_of hash key m)) [
    | inl e ↦
        rw (get-none hash now key m e) (s, a, ap (visible now) (sym e) ∙ a key now (omega arith))
    | inr (d, e) ↦ elim (Bool-cases (is_expired now d)) [
      | inl x ↦ rw (get-expired hash now key m d e x) (
        remove-IsStore key m s,
        expired-Agree now key m f d s e x a,
        sym (if_true _ _ x) ∙ ap (visible now) (sym e) ∙ a key now (omega arith),
      )
      | inr x ↦
          rw (get-live hash now key m d e x)
            (s, a, sym (if_false _ _ x) ∙ ap (visible now) (sym e) ∙ a key now (omega arith))
    ]
  ]

  sweeps-Kept :
      (now : ℕ) (m : Memory V) (f : Plain V)
      → IsStore m
      → Agree now m f
      → Kept now (sweep now m, none) (f, none)
  sweeps-Kept now m f v a = (sweep-IsStore hash now m v, λ k t l. seen k t l ∙ a k t l, refl)
    where
      sifted :
          (o : Option (Entry V)) (t : ℕ)
          → now ≤ t
          → visible t (sift (λ e. not (is_expired now e)) o) ≡ visible t o
      sifted none t l = refl
      sifted (some e) t l = elim (Bool-cases (is_expired now e)) [
        | inl x ↦ rw (x, expired-later now t e l x) refl
        | inr x ↦ rw x refl
      ]

      seen :
          (k : Text) (t : ℕ)
          → now ≤ t
          → visible t (entry_of hash k (sweep now m)) ≡ visible t (entry_of hash k m)
      seen k t l = ap (visible t) (entry_of-sweep hash now k m v) ∙ sifted (entry_of hash k m) t l

  exec-Kept :
      (c : Command V) (m : Memory V) (f : Plain V)
      → IsStore m
      → Agree (time_of c) m f
      → Kept (time_of c) (exec c m) (plain c f)
  unfolding delete
  exec-Kept (gets now key) m f v a = gets-Kept now key m f v a
  exec-Kept (sets now key x ttl) m f v a = sets-Kept now key x ttl m f v a
  exec-Kept (deletes now key) m f v a = (
    remove-IsStore key m v,
    assign-Agree now key none m _ f (λ k. entry_of-remove hash key k m v) a,
    refl,
  )
  exec-Kept (sweeps now) m f v a = sweeps-Kept now m f v a

  answers-Agree :
      (cs : List (Command V)) (now : ℕ) (m : Memory V) (f : Plain V)
      → IsStore m
      → Agree now m f
      → Advances now cs
      → answers cs m ≡ answers_plain cs f
  answers-Agree [] now m f v a h = refl
  answers-Agree (c ∷ cs) now m f v a h =
      let (v', a', r) = exec-Kept c m f v (λ k t l. a k t (omega (arith, h.0, l))) in
      ap₂ ◌∷◌ r (answers-Agree cs (time_of c) (exec c m).0 (plain c f).0 v' a' h.1)

  -- Whatever the hash of a key is and however many shards are asked for, up to 2 ^ 62, a new store answers each sequence of
  -- calls, the clock not going back, as the plain map does: the last value that was set at the key, unless it
  -- was deleted since or its time to live is over.
  pub answers-plain :
      (shards now : ℕ) (cs : List (Command V))
      → shards ≤ 4611686018427387904
      → Advances now cs
      → answers cs (new_memory shards) ≡ answers_plain cs (λ k. none)
  answers-plain shards now cs m h =
      answers-Agree cs now (new_memory shards) (λ k. none) (new_memory-IsStore shards m)
        (λ k t l. ap (visible t) (entry_of-new_memory hash shards k)) h

  -- The second critical section of `Get` is safe on any well-formed store, whatever other goroutines did to
  -- it before: for a deadline that is set and has passed, no key shows a different value from then on.
  pub drop_expired-Agree :
      (now d : ℕ) (key : Text) (m : Memory V)
      → IsStore m
      → d ≢ 0
      → d ≤ now
      → Agree now (drop_expired hash key d m) (λ k. entry_of hash k m)
  drop_expired-Agree now d key m v n l = elim (Option-cases (entry_of hash key m)) [
    | inl e ↦ rw (drop_expired-none hash key d m e) (λ k t h. refl)
    | inr (cur, e) ↦ elim (Bool-cases (cur.expires_at == d)) [
      | inl q ↦
          rw (drop_expired-same hash key d m cur e q)
            (expired-Agree now key m _ cur v e (deadline_over now d cur n l q) (λ k t h. refl))
      | inr q ↦ rw (drop_expired-other hash key d m cur e q) (λ k t h. refl)
    ]
  ]
