-- ===== src/Limiter/Waiting.antt =====
-- A goroutine inside `AcquireN` beside the others: its watcher, which broadcasts once the context is
-- cancelled, and goroutines that take and give back permits. Each critical section is a step; the watcher
-- broadcasts without the lock, and `ReleaseN` broadcasts when it has dropped it.
use mcpcheck.Prelude.{
  ℕ, ◌+◌, ◌-◌, ◌≤◌, ◌<◌, ◌≡◌, ◌≢◌, refl, subst, Bool-cases, ◌⊎◌, inl, inr, Bool, true, false,
  Option, none, some, ltb, arith,
}
use mcpcheck.Limiter.{
  Semaphore, try_acquire_n, release_n, Caller, ready, committed, asleep, acquired, over_capacity,
  cancelled, look,
}
use mcpcheck.Limiter.Permits.{IsWithin}

pub record System (E : Type 0) : Type 0 where
  pub semaphore : Semaphore
  pub caller : Caller E
  pub ctx : Option E
  pub watched : Bool  -- the watcher has broadcast
  pub owed : ℕ  -- calls of `ReleaseN` that have dropped the lock and not yet broadcast

-- What `cond.Broadcast` does to the goroutine.
abbrev pub wake : {E : Type 0} → Caller E → Caller E
wake asleep = ready true
wake c = c

-- There are no n permits left.
abbrev pub IsFull : ℕ → Semaphore → Type 0
IsFull n s = s.capacity < s.in_flight + n

takes_lem :
    (k : ℕ) (s : Semaphore)
    → IsWithin s
    → IsWithin (try_acquire_n k s).0
      × ((try_acquire_n k s).0.capacity ≡ s.capacity)
      × (s.in_flight ≤ (try_acquire_n k s).0.in_flight)
unfolding try_acquire_n
takes_lem k s w = ground arith

gives_lem :
    (k : ℕ) (s left : Semaphore)
    → release_n k s ≡ some left
    → (left.capacity ≡ s.capacity) × (left.in_flight ≤ s.in_flight)
unfolding release_n
gives_lem k s left e = ground arith

module _ {E : Type 0} (n : ℕ) where
  -- The goroutine, its watcher, and what the others do without giving anything back.
  pub data OwnStep (s : System E) : System E → Type 0 where
    cancels : (e : E) → s.ctx ≡ none → OwnStep s (record s { ctx = some e })
    looks :
        (waited : Bool)
        → s.caller ≡ ready waited
        → OwnStep s (record s {
          semaphore = (look s.ctx n waited s.semaphore).0;
          caller = (look s.ctx n waited s.semaphore).1;
        })
    waits : s.caller ≡ committed → OwnStep s (record s { caller = asleep })
    watches :
        s.ctx ≢ none
        → s.watched ≡ false
        → OwnStep s (record s { caller = wake s.caller; watched = true })
    takes :
        (k : ℕ)
        → s.caller ≢ committed
        → OwnStep s (record s { semaphore = (try_acquire_n k s.semaphore).0 })
    broadcasts : 0 < s.owed → OwnStep s (record s { caller = wake s.caller; owed = s.owed - 1 })

  pub data Step (s : System E) : System E → Type 0 where
    own : {t : System E} → OwnStep s t → Step s t
    gives :
        (k : ℕ) (left : Semaphore)
        → s.caller ≢ committed
        → 0 < k
        → release_n k s.semaphore ≡ some left
        → Step s (record s { semaphore = left; owed = s.owed + 1 })
    -- the watcher of another goroutine
    stray : Step s (record s { caller = wake s.caller })

  pub data Reach (s : System E) : System E → Type 0 where
    begins : Reach s s
    then_step : {t v : System E} → Reach s t → Step t v → Reach s v

  -- A run in which no other goroutine gives back a permit or is cancelled.
  pub data Quiet (s : System E) : System E → Type 0 where
    silence : Quiet s s
    then_own : {t v : System E} → Quiet s t → OwnStep t v → Quiet s v

  -- A goroutine that is about to wait, or waits, has no permits that it could take, unless a broadcast is
  -- still to come.
  abbrev pub Waits : Caller E → Semaphore → ℕ → Type 0
  Waits committed s owed = IsFull n s
  Waits asleep s owed = IsFull n s ⊎ (0 < owed)
  Waits (ready _) s owed = Unit
  Waits acquired s owed = Unit
  Waits over_capacity s owed = Unit
  Waits (cancelled _) s owed = Unit

  pub record WaitInv (s : System E) : Type 0 where
    pub within : IsWithin s.semaphore
    pub waits : Waits s.caller s.semaphore s.owed

  Waits-wake :
      (c : Caller E) (s : Semaphore) (owed later : ℕ) → Waits c s owed → Waits (wake c) s later
  Waits-wake committed s owed later w = w
  Waits-wake asleep s owed later w = tt
  Waits-wake (ready _) s owed later w = tt
  Waits-wake acquired s owed later w = tt
  Waits-wake over_capacity s owed later w = tt
  Waits-wake (cancelled _) s owed later w = tt

  Waits-look :
      (ctx : Option E) (waited : Bool) (s : Semaphore) (owed : ℕ)
      → IsWithin s
      → IsWithin (look ctx n waited s).0
        × Waits (look ctx n waited s).1 (look ctx n waited s).0 owed
  unfolding look
  Waits-look none waited s owed w = elim (Bool-cases (ltb s.capacity (s.in_flight + n))) [
    | inl e ↦ rw e (w, ground arith)
    | inr e ↦ rw e (ground arith, tt)
  ]
  Waits-look (some x) waited s owed w = elim (Bool-cases (ltb s.capacity (s.in_flight + n))) [
    | inl e ↦ rw e (w, tt)
    | inr e ↦ rw e (ground arith, tt)
  ]

  -- More permits out leave a goroutine waiting, and so do fewer where a broadcast will follow.
  Waits-fuller :
      (c : Caller E) (s t : Semaphore) (owed : ℕ)
      → t.capacity ≡ s.capacity
      → s.in_flight ≤ t.in_flight
      → Waits c s owed
      → Waits c t owed
  Waits-fuller committed s t owed e h w = omega (arith, w)
  Waits-fuller asleep s t owed e h (inl w) = inl (omega arith)
  Waits-fuller asleep s t owed e h (inr w) = inr w
  Waits-fuller (ready _) s t owed e h w = tt
  Waits-fuller acquired s t owed e h w = tt
  Waits-fuller over_capacity s t owed e h w = tt
  Waits-fuller (cancelled _) s t owed e h w = tt

  Waits-owed : (c : Caller E) (t : Semaphore) (owed : ℕ) → c ≢ committed → Waits c t (owed + 1)
  Waits-owed committed t owed h = absurd (h refl)
  Waits-owed asleep t owed h = inr (omega arith)
  Waits-owed (ready _) t owed h = tt
  Waits-owed acquired t owed h = tt
  Waits-owed over_capacity t owed h = tt
  Waits-owed (cancelled _) t owed h = tt

  OwnStep-WaitInv : {s t : System E} → OwnStep s t → WaitInv s → WaitInv t
  OwnStep-WaitInv (cancels e h) v = record { within = v.within; waits = v.waits }
  OwnStep-WaitInv {s} (looks waited h) v =
      let (a, b) = Waits-look s.ctx waited s.semaphore s.owed v.within in
      record { within = a; waits = b }
  OwnStep-WaitInv {s} (waits h) v = record {
    within = v.within;
    waits = inl (subst (λ c. Waits c s.semaphore s.owed) h v.waits);
  }
  OwnStep-WaitInv {s} (watches h k) v = record {
    within = v.within;
    waits = Waits-wake s.caller s.semaphore s.owed s.owed v.waits;
  }
  OwnStep-WaitInv {s} (takes k h) v =
      let (a, b, c) = takes_lem k s.semaphore v.within in
      record { within = a; waits = Waits-fuller s.caller s.semaphore _ s.owed b c v.waits }
  OwnStep-WaitInv {s} (broadcasts h) v = record {
    within = v.within;
    waits = Waits-wake s.caller s.semaphore s.owed (s.owed - 1) v.waits;
  }

  Step-WaitInv : {s t : System E} → Step s t → WaitInv s → WaitInv t
  Step-WaitInv (own k) v = OwnStep-WaitInv k v
  Step-WaitInv {s} (gives k left h p e) v =
      let (a, b) = gives_lem k s.semaphore left e in
      record { within = omega (arith, a, b, v.within); waits = Waits-owed s.caller left s.owed h }
  Step-WaitInv {s} stray v = record {
    within = v.within;
    waits = Waits-wake s.caller s.semaphore s.owed s.owed v.waits;
  }

  Reach-WaitInv : {s t : System E} → Reach s t → WaitInv s → WaitInv t
  Reach-WaitInv begins v = v
  Reach-WaitInv (then_step r k) v = Step-WaitInv k (Reach-WaitInv r v)

  asleep_cases :
      (s : System E) → s.caller ≡ asleep → WaitInv s → IsFull n s.semaphore ⊎ (0 < s.owed)
  asleep_cases s e v = subst (λ c. Waits c s.semaphore s.owed) e v.waits

  -- No release is lost. From a goroutine that is about to test for n permits on a semaphore within its
  -- capacity, whatever the others do: the permits out never exceed the capacity, and whenever the goroutine
  -- sleeps although n permits are left, the broadcast that wakes it is still to come.
  pub release_wakes :
      {s t : System E} (waited : Bool)
      → IsWithin s.semaphore
      → s.caller ≡ ready waited
      → Reach s t
      → IsWithin t.semaphore
        × (t.caller ≡ asleep → t.semaphore.in_flight + n ≤ t.semaphore.capacity → 0 < t.owed)
  release_wakes {s} {t} waited w e r =
      let v = Reach-WaitInv r (record { within = w; waits = rw e tt }) in
      (v.within, λ a h. elim (asleep_cases t a v) [ inl f ↦ absurd (omega arith) | inr o ↦ o ])

  -- The goroutine sleeps, its context is cancelled, and its watcher has broadcast already.
  pub record IsLost (s : System E) : Type 0 where
    pub sleeps : s.caller ≡ asleep
    pub over : s.ctx ≢ none
    pub spent : s.watched ≡ true
    pub none_owed : s.owed ≡ 0

  OwnStep-IsLost : {s t : System E} → OwnStep s t → IsLost s → IsLost t
  OwnStep-IsLost (cancels e h) v = absurd (v.over h)
  OwnStep-IsLost (looks waited h) v = let e : _ = v.sleeps in absurd (cc (e, h))
  OwnStep-IsLost (waits h) v = let e : _ = v.sleeps in absurd (cc (e, h))
  OwnStep-IsLost (watches h k) v = let e : _ = v.spent in absurd (cc (e, k))
  OwnStep-IsLost (takes k h) v = record {
    sleeps = v.sleeps;
    over = v.over;
    spent = v.spent;
    none_owed = v.none_owed;
  }
  OwnStep-IsLost (broadcasts h) v = absurd (omega (arith, v.none_owed))

  Quiet-IsLost : {s t : System E} → Quiet s t → IsLost s → IsLost t
  Quiet-IsLost silence v = v
  Quiet-IsLost (then_own r k) v = OwnStep-IsLost k (Quiet-IsLost r v)

  look-full :
      (waited : Bool) (s : Semaphore) → IsFull n s → look {E = E} none n waited s ≡ (s, committed)
  unfolding look
  look-full waited s h = ground arith

  abbrev at : Semaphore → Caller E → Option E → Bool → System E
  at s c ctx watched = record { semaphore = s; caller = c; ctx = ctx; watched = watched; owed = 0 }

  looks-full :
      (waited : Bool) (s : Semaphore)
      → IsFull n s
      → OwnStep (at s (ready waited) none false) (at s committed none false)
  looks-full waited s h =
      subst
        (λ (q : Semaphore × Caller E).
          OwnStep (at s (ready waited) none false) (at q.0 q.1 none false))
        (look-full waited s h) (looks waited refl)

  -- A cancellation can be lost. Where n permits are not left, a goroutine that asks for them can get to sleep
  -- behind the broadcast of its own watcher, since that is made without the lock; and then it sleeps, its
  -- context cancelled, until another goroutine gives back permits or is cancelled itself.
  pub cancellation_missed :
      (s : Semaphore) (waited : Bool) (e : E)
      → IsFull n s
      → (t : System E) × Quiet
          (record { semaphore = s; caller = ready waited; ctx = none; watched = false; owed = 0 })
          t
        × IsLost t
        × ((v : System E) → Quiet t v → IsLost v)
  cancellation_missed s waited e h = (
    at s asleep (some e) true,
    then_own
        (then_own (then_own (then_own silence (looks-full waited s h)) (cancels e refl))
          (watches (λ p. cc) refl))
        (waits refl),
    lost,
    λ v q. Quiet-IsLost q lost,
  )
    where
      lost : IsLost (at s asleep (some e) true)
      lost = record { sleeps = refl; over = λ p. cc; spent = refl; none_owed = refl }
