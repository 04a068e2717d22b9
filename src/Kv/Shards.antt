-- ===== src/Kv/Shards.antt =====
-- Shards and their indices.
use Prim.Native.Nat.{bit_and, bit_and-bitwise, digits, min}
use mcpcheck.Prelude.{
  ℕ, zero, suc, ◌+◌, ◌*◌, ◌/◌, ◌^◌, ◌≤◌, ◌<◌, ◌≡◌, refl, subst, ◌∙◌, ◌⊎◌, inl, inr, Bool, false,
  ◌||◌, List, [], ◌∷◌, Option, none, some, Text, ◌=ₜ◌, text_eq_iff, keep, length, All, ltb,
  if◌then◌else◌, ◌==◌, arith, Bool-cases,
}
use mcpcheck.Kv.{
  Entry, Shard, Memory, is_less, shift_left, double_until, next_pow2, empty_shards, new_memory,
  find_entry, put, remove, shard_at, update_at, index,
}

-- A mask bounds what it is applied to.
digits-le : (n a b : ℕ) → digits (λ _. zero) min n a b ≤ b
digits-le zero a b = omega arith
digits-le (suc n) zero b = omega arith
digits-le (suc n) (suc a) b = omega (arith, digits-le n (suc a / 2) (b / 2))

pub bit_and-le : (a b : ℕ) → bit_and a b ≤ b
bit_and-le a b = omega (arith, bit_and-bitwise a b, digits-le a a b)

module _ {V : Type 0} where
  pub shard_at-update_at :
      (i j : ℕ) (f : Shard V → Shard V) (ss : List (Shard V))
      → i < length ss
      → shard_at j (update_at i f ss) ≡ (if i == j then f (shard_at i ss) else shard_at j ss)
  unfolding shard_at update_at
  shard_at-update_at i j f [] h = absurd (omega arith)
  shard_at-update_at zero zero f (s ∷ ss) h = refl
  shard_at-update_at zero (suc j) f (s ∷ ss) h = ground arith
  shard_at-update_at (suc i) zero f (s ∷ ss) h = ground arith
  shard_at-update_at (suc i) (suc j) f (s ∷ ss) h =
      ground (arith, shard_at-update_at i j f ss (omega arith))

  pub length-update_at :
      (i : ℕ) (f : Shard V → Shard V) (ss : List (Shard V)) → length (update_at i f ss) ≡ length ss
  unfolding update_at
  length-update_at i f [] = refl
  length-update_at zero f (s ∷ ss) = refl
  length-update_at (suc i) f (s ∷ ss) = omega (arith, length-update_at i f ss)

  pub find_entry-put :
      (key k : Text) (e : Entry V) (s : Shard V)
      → find_entry k (put key e s) ≡ (if key =ₜ k then some e else find_entry k s)
  unfolding find_entry put
  find_entry-put key k e [] = refl
  find_entry-put key k e ((j, d) ∷ s) =
      ground
        (arith, find_entry-put key k e s, text_eq_iff j key, text_eq_iff j k, text_eq_iff key k)

  pub find_entry-remove :
      (key k : Text) (s : Shard V)
      → find_entry k (remove key s) ≡ (if key =ₜ k then none else find_entry k s)
  unfolding find_entry remove
  find_entry-remove key k [] = ground arith
  find_entry-remove key k ((j, d) ∷ s) =
      ground
        (arith, find_entry-remove key k s, text_eq_iff j key, text_eq_iff j k, text_eq_iff key k)

  -- The keys of a shard are those of a map: no later entry has the key of an earlier one.
  pub has_key : Text → Shard V → Bool
  has_key key [] = false
  has_key key ((k, _) ∷ s) = k =ₜ key || has_key key s

  abbrev pub IsMap : Shard V → Type 0
  IsMap [] = Unit
  IsMap ((k, _) ∷ s) = (has_key k s ≡ false) × IsMap s

  has_key-put :
      (key k : Text) (e : Entry V) (s : Shard V)
      → has_key k (put key e s) ≡ (key =ₜ k || has_key k s)
  unfolding put has_key
  has_key-put key k e [] = refl
  has_key-put key k e ((j, d) ∷ s) =
      ground (arith, has_key-put key k e s, text_eq_iff j key, text_eq_iff j k, text_eq_iff key k)

  pub IsMap-put : (key : Text) (e : Entry V) (s : Shard V) → IsMap s → IsMap (put key e s)
  unfolding put has_key
  IsMap-put key e [] m = (refl, tt)
  IsMap-put key e ((j, d) ∷ s) m = elim (Bool-cases (j =ₜ key)) [
    | inl p ↦ rw p (subst (λ x. has_key x s ≡ false) ((text_eq_iff j key).0 p) m.0, m.1)
    | inr p ↦ rw p (
      has_key-put key j e s ∙ ground (arith, m.0, text_eq_iff key j, text_eq_iff j key),
      IsMap-put key e s m.1,
    )
  ]

  has_key-keep :
      (p : Text × Entry V → Bool) (k : Text) (s : Shard V)
      → has_key k s ≡ false
      → has_key k (keep p s) ≡ false
  unfolding has_key
  has_key-keep p k [] h = refl
  has_key-keep p k (x ∷ s) h = ground (arith, has_key-keep p k s)

  pub IsMap-keep : (p : Text × Entry V → Bool) (s : Shard V) → IsMap s → IsMap (keep p s)
  IsMap-keep p [] m = tt
  IsMap-keep p ((k, d) ∷ s) m = elim (Bool-cases (p (k, d))) [
    | inl e ↦ rw e (has_key-keep p k s m.0, IsMap-keep p s m.1)
    | inr e ↦ rw e (IsMap-keep p s m.1)
  ]

  find_entry-missing : (k : Text) (s : Shard V) → has_key k s ≡ false → find_entry k s ≡ none
  unfolding find_entry has_key
  find_entry-missing k [] h = refl
  find_entry-missing k ((j, d) ∷ s) h = ground (arith, find_entry-missing k s)

  abbrev pub sift : (Entry V → Bool) → Option (Entry V) → Option (Entry V)
  sift p none = none
  sift p (some e) = if p e then some e else none

  -- In a map, the entries that are kept are found, and no others.
  pub find_entry-keep :
      (p : Entry V → Bool) (k : Text) (s : Shard V)
      → IsMap s
      → find_entry k (keep (λ x. p x.1) s) ≡ sift p (find_entry k s)
  unfolding find_entry
  find_entry-keep p k [] m = refl
  find_entry-keep p k ((j, d) ∷ s) m = elim (Bool-cases (p d)) [
    | inl e ↦ rw e (elim (Bool-cases (j =ₜ k)) [
      | inl q ↦ rw (q, e) refl
      | inr q ↦ rw q (find_entry-keep p k s m.1)
    ])
    | inr e ↦ rw e (elim (Bool-cases (j =ₜ k)) [
      | inl q ↦
          let gone : _ = has_key-keep (λ x. p x.1) j s m.0 in
          rw (q, e)
            (find_entry-missing k _
              (subst (λ x. has_key x (keep (λ y. p y.1) s) ≡ false) ((text_eq_iff j k).0 q) gone))
      | inr q ↦ rw q (find_entry-keep p k s m.1)
    ])
  ]

  abbrev pub AreMaps : List (Shard V) → Type 0
  AreMaps ss = All IsMap ss

  pub AreMaps-update_at :
      (i : ℕ) (f : Shard V → Shard V) (ss : List (Shard V))
      → ((s : Shard V) → IsMap s → IsMap (f s))
      → AreMaps ss
      → AreMaps (update_at i f ss)
  unfolding update_at
  AreMaps-update_at i f [] h m = tt
  AreMaps-update_at zero f (s ∷ ss) h m = (h s m.0, m.1)
  AreMaps-update_at (suc i) f (s ∷ ss) h m = (m.0, AreMaps-update_at i f ss h m.1)

  pub IsMap-shard_at : (i : ℕ) (ss : List (Shard V)) → AreMaps ss → IsMap (shard_at i ss)
  unfolding shard_at
  IsMap-shard_at i [] m = tt
  IsMap-shard_at zero (s ∷ ss) m = m.0
  IsMap-shard_at (suc i) (s ∷ ss) m = IsMap-shard_at i ss m.1

-- What holds of a store between two critical sections.
pub record IsStore {V : Type 0} (m : Memory V) : Type 0 where
  pub covers : m.mask < length m.shards
  pub maps : AreMaps m.shards

pub index-in-range :
    {V : Type 0} (hash : Text → ℕ) (key : Text) (m : Memory V)
    → IsStore m
    → index hash key m < length m.shards
unfolding index
index-in-range hash key m h = omega (arith, bit_and-le (hash key) m.mask, h.covers)

length-empty_shards : (V : Type 0) (n : ℕ) → length (empty_shards {V = V} n) ≡ n
unfolding empty_shards
length-empty_shards V zero = refl
length-empty_shards V (suc n) = omega (arith, length-empty_shards V n)

AreMaps-empty_shards : (V : Type 0) (n : ℕ) → AreMaps (empty_shards {V = V} n)
unfolding empty_shards
AreMaps-empty_shards V zero = tt
AreMaps-empty_shards V (suc n) = (tt, AreMaps-empty_shards V n)

pow-pos : (k : ℕ) → 1 ≤ 2 ^ k
pow-pos zero = omega arith
pow-pos (suc k) = omega (arith, pow-pos k)

-- An int below 2 ^ 63 is not negative, and doubling one below 2 ^ 62 does not wrap around.
is_less_lem : (p n : ℕ) → p < 9223372036854775808 → is_less p n ≡ ltb p n
is_less_lem p n h = ground arith

shift_left_lem : (p : ℕ) → p < 4611686018427387904 → shift_left p ≡ p * 2
shift_left_lem p h = omega arith

double_until_lem :
    (fuel n p k : ℕ)
    → n ≤ 4611686018427387904
    → p ≡ 2 ^ k
    → n ≤ p + fuel
    → (p ≡ 1) ⊎ (p < n * 2)
    → (j : ℕ) × (double_until fuel n p ≡ 2 ^ j) × (n ≤ 2 ^ j) × ((2 ^ j ≡ 1) ⊎ (2 ^ j < n * 2))
unfolding double_until
double_until_lem zero n p k m q h b = (k, q, omega arith, rw (← q) b)
double_until_lem (suc fuel) n p k m q h b = elim (Bool-cases (ltb p n)) [
  | inl e ↦
      let below : p < n = ground (arith, e) in
      rw (is_less_lem p n (omega (arith, below, m)), e, shift_left_lem p (omega (arith, below, m)))
        (double_until_lem fuel n (p * 2) (suc k) m (omega (arith, q)) (omega (arith, q, pow-pos k))
          (inr (omega (arith, below))))
  | inr e ↦
      let small : p < 9223372036854775808 = fits b in
      rw (is_less_lem p n small, e) (k, q, ground arith, rw (← q) b)
]
  where
    fits : (p ≡ 1) ⊎ (p < n * 2) → p < 9223372036854775808
    fits (inl o) = omega (arith, o)
    fits (inr o) = omega (arith, o, m)

-- Up to 2 ^ 62 `nextPow2` returns a power of two that is at least its argument, and less than twice that unless
-- it is 1: the loop ends with the rounds that it is given, and no step of it overflows.
pub next_pow2_lem :
    (n : ℕ)
    → n ≤ 4611686018427387904
    → (j : ℕ) × (next_pow2 n ≡ 2 ^ j) × (n ≤ 2 ^ j) × ((2 ^ j ≡ 1) ⊎ (2 ^ j < n * 2))
unfolding next_pow2
next_pow2_lem n m = double_until_lem n n 1 0 m refl (omega arith) (inl refl)

pub new_memory-IsStore :
    {V : Type 0} (shards : ℕ) → shards ≤ 4611686018427387904 → IsStore (new_memory {V = V} shards)
unfolding new_memory
new_memory-IsStore {V} shards m =
    let n = if shards == 0 then 16 else shards in
    let (j, e, _, _) = next_pow2_lem n (ground arith) in
    record {
      covers = omega (arith, length-empty_shards V (next_pow2 n), e, pow-pos j);
      maps = AreMaps-empty_shards V (next_pow2 n);
    }
