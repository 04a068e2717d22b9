-- ===== src/Tests/Utilities.antt =====
-- The utility packages on small inputs.
use mcpcheck.Prelude.{
  ℕ, ◌+◌, ◌*◌, ◌^◌, ◌≤◌, ◌<◌, ◌≡◌, refl, ◌⊎◌, inl, true, false, List, [], ◌∷◌, ◌++◌, Option, none,
  some, codes, arith,
}
use mcpcheck.Limiter.{Semaphore, Caller, release_n, ready, asleep, look}
use mcpcheck.Limiter.Permits.{IsWithin}
use mcpcheck.Limiter.Waiting
use mcpcheck.Scheduler
use mcpcheck.Scheduler.Sleep.{overrun_spins}
use mcpcheck.Scheduler.Overlap.{System, begin, then_step, schedules, runs, times, no_overlap}
use mcpcheck.Kv.{new_memory, next_pow2}
use mcpcheck.Kv.Shards.{next_pow2_lem}
use mcpcheck.Kv.Refinement.{Command, gets, sets, sweeps, answers, answers_plain, answers-plain}

-- Two of three permits are out.
abbrev two_out : Semaphore
two_out = record { capacity = 3; in_flight = 2; total_acquired = 5; total_waited = 1 }

abbrev late : Option ℕ
late = some 9

abbrev waiting : Waiting.System ℕ
waiting = record {
  semaphore = two_out;
  caller = ready false;
  ctx = none;
  watched = false;
  owed = 0;
}

-- It sleeps, and another goroutine has given a permit back without having broadcast.
abbrev one_given : Semaphore
one_given = record two_out { in_flight = 1 }

abbrev sleeper : Caller ℕ
sleeper = asleep

abbrev given : Waiting.System ℕ
given = record { semaphore = one_given; caller = asleep; ctx = none; watched = false; owed = 1 }

reaches_given : Waiting.Reach {E = ℕ} 2 waiting given
unfolding look release_n
reaches_given =
    Waiting.then_step
      (Waiting.then_step (Waiting.then_step Waiting.begins (Waiting.own (Waiting.looks false refl)))
        (Waiting.own (Waiting.waits refl)))
      (Waiting.gives 1 one_given (λ p. cc) (omega arith) refl)

release_wakes_example : IsWithin one_given × (sleeper ≡ asleep → 1 + 2 ≤ 3 → 0 < 1)
release_wakes_example = Waiting.release_wakes 2 false (omega arith) refl reaches_given

cancellation_missed_example :
    (t : Waiting.System ℕ) × Waiting.Quiet {E = ℕ} 2 waiting t
    × Waiting.IsLost 2 t
    × ((v : Waiting.System ℕ) → Waiting.Quiet {E = ℕ} 2 t v → Waiting.IsLost 2 v)
cancellation_missed_example = Waiting.cancellation_missed {E = ℕ} 2 two_out false 9 (omega arith)

next_pow2_example :
    (j : ℕ) × (next_pow2 12 ≡ 2 ^ j) × (12 ≤ 2 ^ j) × ((2 ^ j ≡ 1) ⊎ (2 ^ j < 12 * 2))
next_pow2_example = next_pow2_lem 12 (omega arith)

-- A value with a time to live, read before its deadline and behind it.
abbrev calls : List (Command ℕ)
calls =
    sets 1 (codes "a") 7 5
    ∷ gets 2 (codes "a")
    ∷ sweeps 3
    ∷ gets 5 (codes "a")
    ∷ gets 6 (codes "a")
    ∷ []

answers-plain_example : answers (λ k. 11) calls (new_memory 12) ≡ answers_plain calls (λ k. none)
answers-plain_example =
    answers-plain (λ k. 11) 12 0 calls (omega arith)
      (omega arith, (omega arith, (omega arith, (omega arith, (omega arith, tt)))))

abbrev job : Scheduler.Job
job = record { name = codes "sweep"; has_func = true; interval = 10; first_at = 0 }

-- Due at 20, and running since 10.
abbrev overrun : Scheduler.Scheduler
overrun = record {
  jobs = (codes "sweep", record { spec = job; next_due = 20; running = true; number = 0 }) ∷ [];
  is_stopped = false;
  allocated = 1;
}

-- Due at 20, and idle.
abbrev waits_for_twenty : Scheduler.Scheduler
waits_for_twenty = record overrun {
  jobs = (codes "sweep", record { spec = job; next_due = 20; running = false; number = 0 }) ∷ [];
}

overrun_spins_example :
    (Scheduler.run_due 25 overrun ≡ (overrun, []))
    × (Scheduler.next_sleep 25 overrun ≡ Scheduler.short_sleep)
overrun_spins_example =
    overrun_spins 25 overrun (λ n l. refl, tt) (inl (λ p. omega arith, omega arith))

-- The job is scheduled at 5 and launched at 15.
abbrev one_running : System
one_running = record {
  scheduler = (Scheduler.run_due 15 (Scheduler.schedule 5 job Scheduler.new_scheduler).0).0;
  active = (Scheduler.run_due 15 (Scheduler.schedule 5 job Scheduler.new_scheduler).0).1 ++ [];
}

no_overlap_example : times 0 one_running.active ≤ 1
no_overlap_example = no_overlap 0 (then_step (then_step begin (schedules 5 job)) (runs 15))
