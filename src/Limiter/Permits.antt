-- ===== src/Limiter/Permits.antt =====
-- How the semaphore counts its permits.
use mcpcheck.Prelude.{
  ℕ, ◌+◌, ◌-◌, ◌≤◌, ◌<◌, ◌≡◌, refl, ap, ◌∙◌, ◌↔◌, ◌⊎◌, inl, inr, Bool, true, false, Option, none,
  some, ◌==◌, arith, Bool-cases,
}
use mcpcheck.Limiter.{
  Semaphore, take, try_acquire_n, release_n, Caller, committed, acquired, over_capacity, cancelled,
  enter, look, acquire_n, returned, run_with, release, run_after, give_back,
}

-- The permits that are out never exceed the capacity.
abbrev pub IsWithin : Semaphore → Type 0
IsWithin s = s.in_flight ≤ s.capacity

-- On a semaphore within its capacity `TryAcquireN` for n permits succeeds exactly where they fit, and then
-- takes them all; where they do not it changes nothing. It leaves the semaphore within its capacity.
pub try_acquire_n_cases :
    (n : ℕ) (s : Semaphore)
    → IsWithin s
    → IsWithin (try_acquire_n n s).0
      × (((s.in_flight + n ≤ s.capacity)
            × ((try_acquire_n n s).1 ≡ true)
            × ((try_acquire_n n s).0.in_flight ≡ s.in_flight + n)
            × ((try_acquire_n n s).0.total_acquired ≡ s.total_acquired + n))
          ⊎ ((s.capacity < s.in_flight + n) × (try_acquire_n n s ≡ (s, false))))
unfolding try_acquire_n
try_acquire_n_cases n s w = ground arith

-- Permits that were taken can be given back: behind a successful `TryAcquireN`, `ReleaseN` of as many permits
-- does not panic and leaves as many permits out as before, with the capacity that was.
pub release_n-try_acquire_n :
    (n : ℕ) (s : Semaphore)
    → (try_acquire_n n s).1 ≡ true
    → (t : Semaphore) × (release_n n (try_acquire_n n s).0 ≡ some t)
      × (t.in_flight ≡ s.in_flight)
      × (t.capacity ≡ s.capacity)
unfolding try_acquire_n release_n
release_n-try_acquire_n n s h = elim (Bool-cases (n == 0)) [
  | inl e ↦ (s, ground arith, refl, refl)
  | inr e ↦
      (record (take n s) { in_flight = s.in_flight + n - n }, ground arith, ground arith, refl)
]

-- `ReleaseN` panics exactly for a positive number of permits that is more than are out.
pub release_n-eq-none_iff :
    (n : ℕ) (s : Semaphore) → (release_n n s ≡ none) ↔ ((0 < n) × (s.in_flight < n))
unfolding release_n
release_n-eq-none_iff n s = ground arith

-- A positive number of permits that the capacity allows is asked for unless the context is cancelled.
positive_cases :
    {E : Type 0} (ctx : Option E) (n : ℕ) (s : Semaphore)
    → 0 < n
    → n ≤ s.capacity
    → ((e : E) × (ctx ≡ some e) × (acquire_n ctx n s ≡ (s, cancelled e)))
      ⊎ ((ctx ≡ none) × (acquire_n ctx n s ≡ look none n false s))
unfolding acquire_n enter
positive_cases (some e) n s h k = inl (e, refl, ground arith)
positive_cases none n s h k = inr (refl, ground arith)

trivial_cases :
    {E : Type 0} (ctx : Option E) (n : ℕ) (s : Semaphore)
    → ((n ≡ 0) × (acquire_n ctx n s ≡ (s, acquired)))
      ⊎ ((s.capacity < n) × (acquire_n ctx n s ≡ (s, over_capacity)))
      ⊎ ((0 < n) × (n ≤ s.capacity))
unfolding acquire_n enter
trivial_cases ctx n s = ground arith

look_cases :
    {E : Type 0} (n : ℕ) (waited : Bool) (s : Semaphore)
    → ((s.in_flight + n ≤ s.capacity)
        × ((look {E = E} none n waited s).1 ≡ acquired)
        × ((look {E = E} none n waited s).0.in_flight ≡ s.in_flight + n)
        × ((look {E = E} none n waited s).0.capacity ≡ s.capacity))
      ⊎ ((s.capacity < s.in_flight + n) × (look {E = E} none n waited s ≡ (s, committed)))
unfolding look
look_cases n waited s = ground arith

-- On a semaphore within its capacity, what a call of `AcquireN` comes to before it waits: it is granted its
-- permits, which fit; it asks for more than the capacity; it finds its context cancelled; or it goes to wait
-- for permits that do not fit now but are at most the capacity. Only the first changes the semaphore, and
-- that stays within its capacity.
pub acquire_n_cases :
    {E : Type 0} (ctx : Option E) (n : ℕ) (s : Semaphore)
    → IsWithin s
    → (((acquire_n ctx n s).1 ≡ acquired)
        × (s.in_flight + n ≤ s.capacity)
        × ((acquire_n ctx n s).0.in_flight ≡ s.in_flight + n)
        × IsWithin (acquire_n ctx n s).0)
      ⊎ ((acquire_n ctx n s ≡ (s, over_capacity)) × (s.capacity < n))
      ⊎ ((e : E) × (ctx ≡ some e) × (acquire_n ctx n s ≡ (s, cancelled e)))
      ⊎ ((ctx ≡ none)
          × (acquire_n ctx n s ≡ (s, committed))
          × (s.capacity < s.in_flight + n)
          × (n ≤ s.capacity))
acquire_n_cases {E} ctx n s w = elim (trivial_cases ctx n s) [
  | inl (z, e) ↦ inl (rw e (refl, omega arith, omega arith, w))
  | inr (inl (l, e)) ↦ inr (inl (e, l))
  | inr (inr (p, q)) ↦ elim (positive_cases ctx n s p q) [
    | inl (x, c, e) ↦ inr (inr (inl (x, c, e)))
    | inr (c, e) ↦ elim (look_cases {E = E} n false s) [
      | inl (f, a, i, k) ↦ inl (rw e (a, f, i, omega (arith, i, k, f)))
      | inr (l, b) ↦ inr (inr (inr (c, e ∙ b, l, q)))
    ]
  ]
]

acquire-one :
    {E : Type 0} (s : Semaphore)
    → s.in_flight < s.capacity
    → acquire_n {E = E} none 1 s ≡ (take 1 s, acquired)
unfolding acquire_n enter look
acquire-one s h = ground arith

release-one :
    (s : Semaphore) → release (take 1 s) ≡ some (record (take 1 s) { in_flight = s.in_flight })
unfolding release release_n
release-one s = ground arith

-- `Run` on a semaphore with a permit left, when no other goroutine takes or gives any back meanwhile: the
-- operation runs with one permit more out, its result is returned, and the permit is given back.
pub run_with_lem :
    {E : Type 0} (fn : Semaphore → Semaphore × Option E) (s : Semaphore)
    → s.in_flight < s.capacity
    → (fn (take 1 s)).0 ≡ take 1 s
    → (t : Semaphore) × (run_with none fn s ≡ some (t, returned (fn (take 1 s)).1))
      × (t.in_flight ≡ s.in_flight)
      × (t.capacity ≡ s.capacity)
unfolding run_with
run_with_lem {E} fn s h k = (
  record (take 1 s) { in_flight = s.in_flight },
  ran
      ∙ ap (λ (u : Semaphore). give_back (release u) (fn (take 1 s)).1) k
      ∙ ap (λ (u : Option Semaphore). give_back u (fn (take 1 s)).1) (release-one s),
  refl,
  refl,
)
  where
    ran : run_with none fn s ≡ give_back (release (fn (take 1 s)).0) (fn (take 1 s)).1
    ran = ap (λ (q : Semaphore × Caller E). run_after fn q.0 q.1) (acquire-one {E = E} s h)
