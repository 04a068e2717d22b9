-- ===== src/Kv.antt =====
-- internal/kv/kv.go: the sharded store. A time is a number of nanoseconds that the call reads from its clock,
-- 0 being the zero `time.Time`; the hash of a key is a parameter, as `hash/fnv` gives it.
pub mod Shards
pub mod Lookup
pub mod Refinement
use Prim.Native.Nat.{bit_and}
use mcpcheck.Prelude.{
  ℕ, zero, suc, ◌+◌, ◌-◌, ◌*◌, ◌%◌, leb, ◌||◌, Bool, not, ◌&&◌, List, [], ◌∷◌, Option, none, some,
  Text, ◌=ₜ◌, keep, length, ltb, if◌then◌else◌, ◌==◌,
}

-- `entry`; a deadline of 0 is none.
pub record Entry (V : Type 0) : Type 0 where
  pub value : V
  pub expires_at : ℕ

-- The map of a `shard`.
abbrev pub Shard : Type 0 → Type 0
Shard V = List (Text × Entry V)

pub record Memory (V : Type 0) : Type 0 where
  pub shards : List (Shard V)
  pub mask : ℕ

-- `p < n` and `p <<= 1` for an int `p` by its 64 bits: from 2 ^ 63 on it is negative.
abbrev pub is_less : ℕ → ℕ → Bool
is_less p n = leb 9223372036854775808 p || ltb p n

abbrev pub shift_left : ℕ → ℕ
shift_left p = (p * 2) % 18446744073709551616

-- The loop of `nextPow2`, on fuel.
pub double_until : ℕ → ℕ → ℕ → ℕ
double_until zero n p = p
double_until (suc fuel) n p = if is_less p n then double_until fuel n (shift_left p) else p

-- `nextPow2`. Up to 2 ^ 62 each round adds 1 at least to `p`, so that `n` rounds are enough; beyond it `p` gets
-- to 0, and the source's loop does not end.
unfoldable pub next_pow2 : ℕ → ℕ
next_pow2 n = double_until n n 1

pub empty_shards : {V : Type 0} → ℕ → List (Shard V)
empty_shards zero = []
empty_shards (suc n) = [] ∷ empty_shards n

-- `NewMemory` by its `cfg.Shards`; a number that is not positive is 0.
unfoldable pub new_memory : {V : Type 0} → ℕ → Memory V
new_memory shards =
    let count = next_pow2 (if shards == 0 then 16 else shards) in
    record { shards = empty_shards count; mask = count - 1 }

-- `entries[key]`, `entries[key] = e` and `delete(entries, key)`
unfoldable pub find_entry : {V : Type 0} → Text → Shard V → Option (Entry V)
find_entry key [] = none
find_entry key ((k, e) ∷ s) = if k =ₜ key then some e else find_entry key s

unfoldable pub put : {V : Type 0} → Text → Entry V → Shard V → Shard V
put key e [] = (key, e) ∷ []
put key e ((k, d) ∷ s) = if k =ₜ key then (key, e) ∷ s else (k, d) ∷ put key e s

unfoldable pub remove : {V : Type 0} → Text → Shard V → Shard V
remove key s = keep (λ p. not (p.0 =ₜ key)) s

-- `m.shards[i]`, and the shards with that one changed. An index out of range, which would panic, gives the
-- empty shard and changes nothing; `index-in-range` in Kv/Shards.antt tells that none is.
unfoldable pub shard_at : {V : Type 0} → ℕ → List (Shard V) → Shard V
shard_at i [] = []
shard_at zero (s ∷ ss) = s
shard_at (suc i) (s ∷ ss) = shard_at i ss

unfoldable pub update_at : {V : Type 0} → ℕ → (Shard V → Shard V) → List (Shard V) → List (Shard V)
update_at i f [] = []
update_at zero f (s ∷ ss) = f s ∷ ss
update_at (suc i) f (s ∷ ss) = s ∷ update_at i f ss

-- The test that `Get` and `Sweep` share.
unfoldable pub is_expired : {V : Type 0} → ℕ → Entry V → Bool
is_expired now e = not (e.expires_at == 0) && not (ltb now e.expires_at)

module _ {V : Type 0} (hash : Text → ℕ) where
  -- The index of `shardFor`.
  unfoldable pub index : Text → Memory V → ℕ
  index key m = bit_and (hash key) m.mask

  unfoldable pub entry_of : Text → Memory V → Option (Entry V)
  entry_of key m = find_entry key (shard_at (index key m) m.shards)

  -- A critical section on the shard of a key.
  unfoldable pub on_shard : Text → (Shard V → Shard V) → Memory V → Memory V
  on_shard key f m = record m { shards = update_at (index key m) f m.shards }

  -- The second critical section of `Get`: the entry that was seen to be expired goes unless its deadline has
  -- changed.
  unfoldable pub drop_expired : Text → ℕ → Memory V → Memory V
  drop_expired key deadline m = elim (entry_of key m) [
    | none ↦ m
    | some cur ↦ if cur.expires_at == deadline then on_shard key (remove key) m else m
  ]

  -- `Get`, with nothing between its two critical sections.
  unfoldable pub get : ℕ → Text → Memory V → Memory V × Option V
  get now key m = elim (entry_of key m) [
    | none ↦ (m, none)
    | some e ↦
        if is_expired now e then (drop_expired key e.expires_at m, none) else (m, some e.value)
  ]

  -- `Set`
  unfoldable pub set : Text → V → Memory V → Memory V
  set key v m = on_shard key (put key (record { value = v; expires_at = 0 })) m

  -- `SetWithTTL`; a `ttl` that is not positive is 0.
  unfoldable pub set_with_ttl : ℕ → Text → V → ℕ → Memory V → Memory V
  set_with_ttl now key v ttl m =
      if ttl == 0
      then set key v m
      else on_shard key (put key (record { value = v; expires_at = now + ttl })) m

  -- `Delete`
  unfoldable pub delete : Text → Memory V → Memory V
  delete key m = on_shard key (remove key) m

  -- `GetOrSet`, with nothing in between; `compute` is what the callback returns, `none` being an error.
  unfoldable pub get_or_set : ℕ → ℕ → Text → ℕ → Option V → Memory V → Memory V × Option V
  get_or_set now later key ttl compute m =
      let (m', found) = get now key m in
      elim found [
        | some v ↦ (m', some v)
        | none ↦ elim compute [
          | none ↦ (m', none)
          | some v ↦ ((if ltb 0 ttl then set_with_ttl later key v ttl m' else set key v m'), some v)
        ]
      ]

pub sweep_shards : {V : Type 0} → ℕ → List (Shard V) → List (Shard V)
sweep_shards now [] = []
sweep_shards now (s ∷ ss) = keep (λ p. not (is_expired now p.1)) s ∷ sweep_shards now ss

-- `Sweep`
unfoldable pub sweep : {V : Type 0} → ℕ → Memory V → Memory V
sweep now m = record m { shards = sweep_shards now m.shards }

pub count_entries : {V : Type 0} → List (Shard V) → ℕ
count_entries [] = 0
count_entries (s ∷ ss) = length s + count_entries ss

-- `Len`
unfoldable pub len : {V : Type 0} → Memory V → ℕ
len m = count_entries m.shards
