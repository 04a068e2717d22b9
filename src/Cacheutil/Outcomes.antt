-- ===== src/Cacheutil/Outcomes.antt =====
-- What one operation of the writer does, and what the outcomes of jobs come to.
use mcpcheck.Prelude.{
  ℕ, ◌+◌, ◌<◌, ◌≡◌, inl, inr, refl, sym, ap, ◌∙◌, Bool, true, false, List, [], ◌∷◌, ◌++◌,
  append-nil, Option, none, some, length, length-append, ltb, if◌then◌else◌, arith, Bool-cases,
  Option-cases,
}
use mcpcheck.Cacheutil.{
  AsyncWriter, Outcome, Phase, running, exited, submit, enqueue, receive_from, record_outcome,
  record_error,
}

module _ {E : Type 0} where
  abbrev pub errors_of : List (Outcome E) → List E
  errors_of [] = []
  errors_of (o ∷ os) = elim o.error [ none ↦ errors_of os | some e ↦ e ∷ errors_of os ]

  abbrev pub written_of : List (Outcome E) → ℕ
  written_of [] = 0
  written_of (o ∷ os) = o.written + written_of os

  written_of-snoc :
      (os : List (Outcome E)) (o : Outcome E)
      → written_of (os ++ (o ∷ [])) ≡ written_of os + o.written
  written_of-snoc [] o = omega arith
  written_of-snoc (x ∷ os) o = omega (arith, written_of-snoc os o)

  pub errors_of-append :
      (os ps : List (Outcome E)) → errors_of (os ++ ps) ≡ errors_of os ++ errors_of ps
  errors_of-append [] ps = refl
  errors_of-append (o ∷ os) ps = elim (Option-cases o.error) [
    | inl q ↦ rw q (errors_of-append os ps)
    | inr (e, q) ↦ rw q (ap (λ z. e ∷ z) (errors_of-append os ps))
  ]

module _ {J E : Type 0} where
  pub submit_accepts :
      (j : J) (w v : AsyncWriter J E)
      → submit j w ≡ (v, true)
      → (v ≡ record w { jobs = w.jobs ++ (j ∷ []); pending = w.pending + 1 })
        × (length w.jobs < w.capacity)
  unfolding submit enqueue
  submit_accepts j w v e = ground arith

  pub submit_refuses : (j : J) (w v : AsyncWriter J E) → submit j w ≡ (v, false) → v ≡ w
  unfolding submit enqueue
  submit_refuses j w v e = ground arith

  pub receive_from_lem :
      (ks : List J) (w v : AsyncWriter J E) (j : J)
      → receive_from ks w ≡ some (v, running j)
      → (js : List J) × (ks ≡ j ∷ js) × (v ≡ record w { jobs = js })
  receive_from_lem [] w v j e = absurd (none_runs w.closed e)
    where
      none_runs :
          (b : Bool)
          → if◌then◌else◌ {A = Option (AsyncWriter J E × Phase J)} b (some (w, exited)) none
            ≡ some (v, running j)
          → ⊥
      none_runs true q = cc
      none_runs false q = cc
  receive_from_lem (k ∷ js) w v j e = (js, ground (arith, e), ground (arith, e))

  add_written :
      (n : ℕ) (w : AsyncWriter J E)
      → (if ltb 0 n then record w { bytes = w.bytes + n } else w) ≡ record w { bytes = w.bytes + n }
  add_written n w = elim (Bool-cases (ltb 0 n)) [
    | inl a ↦ rw a refl
    | inr a ↦ let q : w.bytes ≡ w.bytes + n = ground (arith, a) in rw (a, sym q) refl
  ]

  set_outcomes :
      (w : AsyncWriter J E) {errors : List E} {n k : ℕ}
      → w.first_err ≡ errors
      → w.failed ≡ n
      → w.bytes ≡ k
      → w ≡ record w { first_err = errors; failed = n; bytes = k }
  set_outcomes w a b c = λ i. record w { first_err = a i; failed = b i; bytes = c i }

  record_error_lem :
      (m : Option E) (n : ℕ) (w : AsyncWriter J E) (os : List (Outcome E))
      → w.first_err ≡ errors_of os
      → w.failed ≡ length (errors_of os)
      → w.bytes ≡ written_of os + n
      → record_error m w ≡ record w {
        first_err = errors_of (os ++ (record { written = n; error = m } ∷ []));
        failed = length (errors_of (os ++ (record { written = n; error = m } ∷ [])));
        bytes = written_of (os ++ (record { written = n; error = m } ∷ []));
      }
  record_error_lem none n w os a b c =
      let q : errors_of (os ++ (record { written = n; error = none } ∷ [])) ≡ errors_of os =
        errors_of-append os _ ∙ append-nil (errors_of os) in
      set_outcomes w (a ∙ sym q) (b ∙ sym (ap length q)) (c ∙ sym (written_of-snoc os _))
  record_error_lem (some e) n w os a b c =
      let q : errors_of (os ++ (record { written = n; error = some e } ∷ []))
          ≡ errors_of os ++ (e ∷ []) =
        errors_of-append os _ in
      set_outcomes (record_error (some e) w) (ap (λ z. z ++ (e ∷ [])) a ∙ sym q)
        (omega (arith, b, ap length q, length-append (errors_of os) (e ∷ [])))
        (c ∙ sym (written_of-snoc os _))

  pub record_outcome_lem :
      (o : Outcome E) (w : AsyncWriter J E) (os : List (Outcome E))
      → w.first_err ≡ errors_of os
      → w.failed ≡ length (errors_of os)
      → w.bytes ≡ written_of os
      → record_outcome o w ≡ record w {
        first_err = errors_of (os ++ (o ∷ []));
        failed = length (errors_of (os ++ (o ∷ [])));
        bytes = written_of (os ++ (o ∷ []));
      }
  unfolding record_outcome
  record_outcome_lem o w os a b c =
      ap (record_error o.error) (add_written o.written w)
      ∙ record_error_lem o.error o.written (record w { bytes = w.bytes + o.written }) os a b
          (omega (arith, c))
