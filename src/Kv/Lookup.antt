-- ===== src/Kv/Lookup.antt =====
-- What is found at a key behind each change of the store, whichever shards the hash chooses.
use mcpcheck.Prelude.{
  ℕ, zero, suc, ◌≤◌, ◌≡◌, ◌≢◌, refl, sym, ap, ◌∙◌, inl, inr, Bool, true, false, not, List, [], ◌∷◌,
  Option, none, some, Text, ◌=ₜ◌, text_eq_iff, keep, length, if◌then◌else◌, ◌==◌, arith, Bool-cases,
}
use mcpcheck.Kv.{
  Entry, Shard, Memory, find_entry, put, remove, shard_at, is_expired, index, entry_of, on_shard,
  drop_expired, get, sweep_shards, sweep, empty_shards, new_memory,
}
use mcpcheck.Kv.Shards.{
  shard_at-update_at, length-update_at, find_entry-put, find_entry-remove, IsMap, IsMap-keep, sift,
  find_entry-keep, AreMaps, AreMaps-update_at, IsMap-shard_at, IsStore, index-in-range,
}

-- What a reader sees of an entry at a time.
abbrev pub visible : {V : Type 0} → ℕ → Option (Entry V) → Option V
visible now none = none
visible now (some e) = if is_expired now e then none else some e.value

pub expired-later :
    {V : Type 0} (now later : ℕ) (e : Entry V)
    → now ≤ later
    → is_expired now e ≡ true
    → is_expired later e ≡ true
unfolding is_expired
expired-later now later e h x = ground arith

pub if_true {ℓ} : {A : Type ℓ} (x y : A) {b : Bool} → b ≡ true → (if b then x else y) ≡ x
if_true x y e = rw e refl

pub if_false {ℓ} : {A : Type ℓ} (x y : A) {b : Bool} → b ≡ false → (if b then x else y) ≡ y
if_false x y e = rw e refl

pub deadline_over :
    {V : Type 0} (now d : ℕ) (cur : Entry V)
    → d ≢ 0
    → d ≤ now
    → (cur.expires_at == d) ≡ true
    → is_expired now cur ≡ true
unfolding is_expired
deadline_over now d cur n l q = ground arith

module _ {V : Type 0} (hash : Text → ℕ) where
  pub on_shard-IsStore :
      (key : Text) (f : Shard V → Shard V) (m : Memory V)
      → ((s : Shard V) → IsMap s → IsMap (f s))
      → IsStore m
      → IsStore (on_shard hash key f m)
  unfolding on_shard
  on_shard-IsStore key f m h v = record {
    covers = omega (arith, v.covers, length-update_at (index hash key m) f m.shards);
    maps = AreMaps-update_at (index hash key m) f m.shards h v.maps;
  }

  index-ap :
      (key k : Text) (m : Memory V)
      → (index hash key m == index hash k m) ≡ false
      → (key =ₜ k) ≡ false
  index-ap key k m e = elim (Bool-cases (key =ₜ k)) [
    | inl p ↦
        let q : _ = ap (λ x. index hash x m) ((text_eq_iff key k).0 p) in absurd (ground (arith))
    | inr p ↦ p
  ]

  -- A change of a key's shard that gives the key an entry, or none, and leaves the other keys does so to the
  -- whole store.
  entry_of-on_shard :
      (key k : Text) (f : Shard V → Shard V) (o : Option (Entry V)) (m : Memory V)
      → IsStore m
      → ((s : Shard V) → find_entry k (f s) ≡ (if key =ₜ k then o else find_entry k s))
      → entry_of hash k (on_shard hash key f m) ≡ (if key =ₜ k then o else entry_of hash k m)
  unfolding entry_of on_shard index
  entry_of-on_shard key k f o m v h =
      ap (find_entry k) (
        shard_at-update_at (index hash key m) (index hash k m) f m.shards
          (index-in-range hash key m v))
      ∙ elim (Bool-cases (index hash key m == index hash k m)) [
        | inl e ↦
            let same : shard_at (index hash key m) m.shards ≡ shard_at (index hash k m) m.shards =
              ap (λ i. shard_at i m.shards) (ground arith) in
            ap (find_entry k) (if_true _ _ e)
            ∙ h _
            ∙ ap (λ s. if key =ₜ k then o else find_entry k s) same
        | inr e ↦ ap (find_entry k) (if_false _ _ e) ∙ sym (if_false _ _ (index-ap key k m e))
      ]

  pub entry_of-put :
      (key k : Text) (e : Entry V) (m : Memory V)
      → IsStore m
      → entry_of hash k (on_shard hash key (put key e) m)
        ≡ (if key =ₜ k then some e else entry_of hash k m)
  entry_of-put key k e m v =
      entry_of-on_shard key k (put key e) (some e) m v (find_entry-put key k e)

  pub entry_of-remove :
      (key k : Text) (m : Memory V)
      → IsStore m
      → entry_of hash k (on_shard hash key (remove key) m)
        ≡ (if key =ₜ k then none else entry_of hash k m)
  entry_of-remove key k m v =
      entry_of-on_shard key k (remove key) none m v (find_entry-remove key k)

  shard_at-sweep_shards :
      (now i : ℕ) (ss : List (Shard V))
      → shard_at i (sweep_shards now ss) ≡ keep (λ p. not (is_expired now p.1)) (shard_at i ss)
  unfolding shard_at sweep_shards
  shard_at-sweep_shards now i [] = refl
  shard_at-sweep_shards now zero (s ∷ ss) = refl
  shard_at-sweep_shards now (suc i) (s ∷ ss) = shard_at-sweep_shards now i ss

  pub entry_of-sweep :
      (now : ℕ) (k : Text) (m : Memory V)
      → IsStore m
      → entry_of hash k (sweep now m) ≡ sift (λ e. not (is_expired now e)) (entry_of hash k m)
  unfolding entry_of sweep index
  entry_of-sweep now k m v =
      ap (find_entry k) (shard_at-sweep_shards now (index hash k m) m.shards)
      ∙ find_entry-keep (λ e. not (is_expired now e)) k (shard_at (index hash k m) m.shards)
          (IsMap-shard_at (index hash k m) m.shards v.maps)

  sweep_shards-keeps :
      (now : ℕ) (ss : List (Shard V))
      → AreMaps ss
      → AreMaps (sweep_shards now ss) × (length (sweep_shards now ss) ≡ length ss)
  unfolding sweep_shards
  sweep_shards-keeps now [] h = (tt, refl)
  sweep_shards-keeps now (s ∷ ss) h =
      let (a, b) = sweep_shards-keeps now ss h.1 in ((IsMap-keep _ s h.0, a), omega (arith, b))

  pub sweep-IsStore : (now : ℕ) (m : Memory V) → IsStore m → IsStore (sweep now m)
  unfolding sweep
  sweep-IsStore now m v =
      let (a, b) = sweep_shards-keeps now m.shards v.maps in
      record { covers = omega (arith, b, v.covers); maps = a }

  shard_at-empty_shards : (i n : ℕ) → shard_at {V = V} i (empty_shards n) ≡ []
  unfolding shard_at empty_shards
  shard_at-empty_shards i zero = refl
  shard_at-empty_shards zero (suc n) = refl
  shard_at-empty_shards (suc i) (suc n) = shard_at-empty_shards i n

  pub entry_of-new_memory :
      (shards : ℕ) (k : Text) → entry_of {V = V} hash k (new_memory shards) ≡ none
  unfolding entry_of new_memory find_entry index
  entry_of-new_memory shards k = ap (find_entry k) (shard_at-empty_shards _ _)

  pub drop_expired-none :
      (key : Text) (d : ℕ) (m : Memory V)
      → entry_of hash key m ≡ none
      → drop_expired hash key d m ≡ m
  unfolding drop_expired
  drop_expired-none key d m e = rw (drop_expired, e) refl

  pub drop_expired-same :
      (key : Text) (d : ℕ) (m : Memory V) (cur : Entry V)
      → entry_of hash key m ≡ some cur
      → (cur.expires_at == d) ≡ true
      → drop_expired hash key d m ≡ on_shard hash key (remove key) m
  unfolding drop_expired
  drop_expired-same key d m cur e q = rw (drop_expired, e) (if_true _ _ q)

  pub drop_expired-other :
      (key : Text) (d : ℕ) (m : Memory V) (cur : Entry V)
      → entry_of hash key m ≡ some cur
      → (cur.expires_at == d) ≡ false
      → drop_expired hash key d m ≡ m
  unfolding drop_expired
  drop_expired-other key d m cur e q = rw (drop_expired, e) (if_false _ _ q)

  pub get-none :
      (now : ℕ) (key : Text) (m : Memory V)
      → entry_of hash key m ≡ none
      → get hash now key m ≡ (m, none)
  unfolding get
  get-none now key m e = rw (get, e) refl

  pub get-live :
      (now : ℕ) (key : Text) (m : Memory V) (d : Entry V)
      → entry_of hash key m ≡ some d
      → is_expired now d ≡ false
      → get hash now key m ≡ (m, some d.value)
  unfolding get
  get-live now key m d e x = rw (get, e, x) refl

  pub get-expired :
      (now : ℕ) (key : Text) (m : Memory V) (d : Entry V)
      → entry_of hash key m ≡ some d
      → is_expired now d ≡ true
      → get hash now key m ≡ (on_shard hash key (remove key) m, none)
  unfolding get
  get-expired now key m d e x =
      rw (get, e, x)
        (ap (λ z. (z, none)) (drop_expired-same key d.expires_at m d e (same_number d.expires_at)))
    where
      same_number : (n : ℕ) → (n == n) ≡ true
      same_number n = ground arith
