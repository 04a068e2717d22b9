-- ===== src/Cacheutil/Leaving.antt =====
-- When a worker leaves the loop of `run`.
use mcpcheck.Prelude.{
  ℕ, zero, suc, ◌+◌, ◌<◌, ◌≡◌, ◌⊎◌, inl, inr, refl, sym, subst, Bool, true, false, List, [], ◌∷◌,
  ◌++◌, Option, none, some, ltb, arith, Bool-cases,
}
use mcpcheck.Cacheutil.{
  AsyncWriter, Outcome, Phase, waiting, running, recorded, counted, exited, at_least_one, submit,
  receive, record_outcome, record_error,
}
use mcpcheck.Cacheutil.Tallies.{gone, each, tally, tally_change, tally-idle_workers}
use mcpcheck.Cacheutil.Outcomes.{submit_accepts, submit_refuses, receive_from_lem}
use mcpcheck.Cacheutil.Workers.{
  System, idle_workers, started, Turn, counts, ends, exits, Step, submits, refuses, queues, closes,
  receives, records, turns, Reach, here, next,
}

module _ {J : Type 0} where
  -- No worker has left, or the channel is closed and empty.
  abbrev pub Stays : List (Phase J) → Bool → List J → Type 0
  Stays ps closed js = (tally gone ps ≡ 0) ⊎ ((closed ≡ true) × (js ≡ []))

  Stays-change :
      (front back : List (Phase J)) {ps : List (Phase J)} (p q : Phase J) {closed : Bool}
      {js : List J}
      → ps ≡ front ++ p ∷ back
      → gone q ≡ gone p
      → Stays ps closed js
      → Stays (front ++ q ∷ back) closed js
  Stays-change front back {ps} p q h g (inl e) =
      inl (omega (arith, e, g, tally_change gone ps front back p q h))
  Stays-change front back p q h g (inr e) = inr e

  each-change :
      (front back ps : List (Phase J)) (p q : Phase J)
      → ps ≡ front ++ p ∷ back
      → 0 < tally each ps
      → 0 < tally each (front ++ q ∷ back)
  each-change front back ps p q h m = omega (arith, m, tally_change each ps front back p q h)

  received-Stays :
      (front back : List (Phase J)) (j : J) {js : List J} {ps : List (Phase J)} {closed : Bool}
      {ks : List J}
      → ps ≡ front ++ waiting ∷ back
      → ks ≡ j ∷ js
      → Stays ps closed ks
      → Stays (front ++ running j ∷ back) closed js
  received-Stays front back j {js} {ps} h p (inl e) =
      inl (omega (arith, e, tally_change gone ps front back waiting (running j) h))
  received-Stays front back j h p (inr (c, e)) = absurd (cc)

each-idle_workers : (J : Type 0) (n : ℕ) → tally (each {J = J}) (idle_workers n) ≡ n
each-idle_workers J zero = refl
each-idle_workers J (suc n) = omega (arith, each-idle_workers J n)

at_least_one_lem : (n : ℕ) → 0 < at_least_one n
at_least_one_lem n = ground arith

module _ {J E : Type 0} where
  pub record IsManned (s : System J E) : Type 0 where
    pub stays : Stays s.workers s.writer.closed s.writer.jobs
    pub manned : 0 < tally each s.workers

  submit_open : (j : J) (w v : AsyncWriter J E) → submit j w ≡ (v, true) → w.closed ≡ false
  unfolding submit
  submit_open j w v e = ground arith

  exits_lem :
      (w : AsyncWriter J E) → receive w ≡ some (w, exited) → (w.closed ≡ true) × (w.jobs ≡ [])
  unfolding receive
  exits_lem w e = (ground (arith, e), ground (arith, e))

  pub record_outcome-queue :
      (o : Outcome E) (w : AsyncWriter J E)
      → ((record_outcome o w).closed ≡ w.closed) × ((record_outcome o w).jobs ≡ w.jobs)
  unfolding record_outcome
  record_outcome-queue o w = elim (Bool-cases (ltb 0 o.written)) [
    | inl a ↦ rw a (same o.error (record w { bytes = w.bytes + o.written }))
    | inr a ↦ rw a (same o.error w)
  ]
    where
      same :
          (m : Option E) (w : AsyncWriter J E)
          → ((record_error m w).closed ≡ w.closed) × ((record_error m w).jobs ≡ w.jobs)
      same none w = (refl, refl)
      same (some e) w = (refl, refl)

  turned-IsManned :
      (front back : List (Phase J)) (s : System J E) {v : AsyncWriter J E} {p q : Phase J}
      → s.workers ≡ front ++ p ∷ back
      → Turn s.writer p v q
      → IsManned s
      → IsManned (record s { writer = v; workers = front ++ q ∷ back })
  turned-IsManned front back s h counts a = record {
    stays = Stays-change front back recorded counted h refl a.stays;
    manned = each-change front back s.workers recorded counted h a.manned;
  }
  turned-IsManned front back s h ends a = record {
    stays = Stays-change front back counted waiting h refl a.stays;
    manned = each-change front back s.workers counted waiting h a.manned;
  }
  turned-IsManned front back s h (exits e) a = record {
    stays = inr (exits_lem s.writer e);
    manned = each-change front back s.workers waiting exited h a.manned;
  }

  pub Step-IsManned : {s t : System J E} → Step s t → IsManned s → IsManned t
  unfolding receive
  Step-IsManned {s} (submits {v} j h e) a =
      let (p, room) = submit_accepts j s.writer v e in
      let not_closed = submit_open j s.writer v e in
      subst
        (λ v.
          IsManned (record s { writer = v; submitting = true; accepted = s.accepted ++ (j ∷ []) }))
        (sym p)
        (record {
          stays = elim a.stays [ inl g ↦ inl g | inr (c, n) ↦ absurd (cc) ];
          manned = a.manned;
        })
  Step-IsManned {s} (refuses {v} j h e) a =
      subst (λ v. IsManned (record s { writer = v })) (sym (submit_refuses j s.writer v e)) a
  Step-IsManned {s} (queues h) a = record { stays = a.stays; manned = a.manned }
  Step-IsManned {s} (closes h) a = record {
    stays = elim a.stays [ inl g ↦ inl g | inr (c, n) ↦ inr (refl, n) ];
    manned = a.manned;
  }
  Step-IsManned {s} (receives {v} front back j h e) a =
      let (js, p, q) = receive_from_lem s.writer.jobs s.writer v j e in
      subst
        (λ v. IsManned (record s {
          writer = v;
          workers = front ++ running j ∷ back;
          received = s.received ++ (j ∷ []);
        }))
        (sym q)
        (record {
          stays = received-Stays front back j h p a.stays;
          manned = each-change front back s.workers waiting (running j) h a.manned;
        })
  Step-IsManned {s} (records front back j o h m) a =
      let (c, d) = record_outcome-queue o s.writer in
      record {
        stays =
            subst (λ b. Stays (front ++ recorded ∷ back) b (record_outcome o s.writer).jobs) (sym c)
              (subst (λ js. Stays (front ++ recorded ∷ back) s.writer.closed js) (sym d)
                (Stays-change front back (running j) recorded h refl a.stays));
        manned = each-change front back s.workers (running j) recorded h a.manned;
      }
  Step-IsManned {s} (turns front back h k) a = turned-IsManned front back s h k a

  started-IsManned : (size n : ℕ) → IsManned (started size n)
  started-IsManned size n = record {
    stays = inl (tally-idle_workers gone (at_least_one n) refl);
    manned = omega (arith, each-idle_workers J (at_least_one n), at_least_one_lem n);
  }

  pub Reach-IsManned : (size n : ℕ) {s : System J E} → Reach (started size n) s → IsManned s
  Reach-IsManned size n here = started-IsManned size n
  Reach-IsManned size n (next r k) = Step-IsManned k (Reach-IsManned size n r)
