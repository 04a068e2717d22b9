-- ===== src/Fsutil/Atomicity.antt =====
-- What a reader can find beside `writeAtomic`, and after a crash in it.
use mcpcheck.Prelude.{
  ℕ, ◌≡◌, refl, sym, ap, ◌∙◌, subst, inl, inr, true, false, List, [], ◌∷◌, Option, none, some, Text,
  ◌=ₜ◌, text_eq_iff, get_key, put_key, delete_key, get_key-put_key, get_key-delete_key, ok,
  if◌then◌else◌, arith, Bool-cases,
}
use mcpcheck.Fsutil.{
  Stored, Files, Calls, WriteError, Run, write_tempfile, sync_tempfile, close_tempfile,
  rename_tempfile, move_found, then_run, give_up, rename_step, close_step, sync_step, payload_step,
  write_steps, chmod_step, create_step, write_atomic,
}

-- What the payload leaves, of a file with some bytes.
abbrev pub last_written : List ℕ → List (List ℕ) → List ℕ
last_written now [] = now
last_written now (w ∷ ws) = last_written w ws

module _ {E : Type 0} (c : Calls E) (path : Text) (perm : ℕ) (tmp : Text) (files : Files) where
  -- Every file but the temporary one is as it was.
  abbrev pub IsOld : Files → Type 0
  IsOld m = (j : Text) → (tmp =ₜ j) ≡ false → get_key j m ≡ get_key j files

  -- The target has the permissions and the bytes, the temporary file is gone, and the others are as they were.
  abbrev pub IsNew : List ℕ → Files → Type 0
  IsNew bytes m =
      (j : Text)
      → get_key j m ≡ (
          if path =ₜ j
          then some (record { mode = perm; content = bytes })
          else if tmp =ₜ j
          then none
          else get_key j files)

  -- The last state is the new one where there is no error, and each other state is an old one.
  abbrev pub IsAtomic : List ℕ → List Files → Option (WriteError E) → Type 0
  IsAtomic bytes [] none = ⊥
  IsAtomic bytes [] (some e) = Unit
  IsAtomic bytes (m ∷ []) none = IsNew bytes m
  IsAtomic bytes (m ∷ []) (some e) = IsOld m × (c.removes ≡ true → get_key tmp m ≡ none)
  IsAtomic bytes (m ∷ n ∷ ms) e = IsOld m × IsAtomic bytes (n ∷ ms) e

  -- A run with such states, one at least.
  abbrev AtomicRun : List ℕ → Run E → Type 0
  AtomicRun bytes r = IsAtomic bytes r.states r.error × (r.states ≡ [] → ⊥)

  IsOld-put_key : (f : Stored) (m : Files) → IsOld m → IsOld (put_key tmp f m)
  IsOld-put_key f m old j h = get_key-put_key tmp j f m ∙ rw h (old j h)

  give_up-IsAtomic :
      (bytes : List ℕ) (m : Files) (e : WriteError E)
      → IsOld m
      → AtomicRun bytes (give_up c path perm tmp m e)
  give_up-IsAtomic bytes m e old = elim (Bool-cases c.removes) [
    | inl r ↦ rw r (
      (
        (λ j h. get_key-delete_key tmp j m ∙ rw h (old j h)),
        λ u. get_key-delete_key tmp tmp m ∙ ground (arith, text_eq_iff tmp tmp),
      ),
      λ u. cc,
    )
    | inr r ↦ rw r ((old, λ u. absurd (cc)), λ u. cc)
  ]

  renamed :
      (bytes : List ℕ) (m : Files)
      → IsOld m
      → IsNew bytes (put_key path (record { mode = perm; content = bytes }) (delete_key tmp m))
  renamed bytes m old j =
      get_key-put_key path j (record { mode = perm; content = bytes }) (delete_key tmp m)
      ∙ ap (λ z. if path =ₜ j then some (record { mode = perm; content = bytes }) else z)
          (get_key-delete_key tmp j m ∙ kept)
    where
      kept : (if tmp =ₜ j then none else get_key j m) ≡ (if tmp =ₜ j then none else get_key j files)
      kept = elim (Bool-cases (tmp =ₜ j)) [ inl e ↦ rw e refl | inr e ↦ rw e (old j e) ]

  rename_step-IsAtomic :
      (bytes : List ℕ) (m : Files) (o : Option E)
      → (tmp =ₜ path) ≡ false
      → get_key tmp m ≡ some (record { mode = perm; content = bytes })
      → IsOld m
      → AtomicRun bytes (rename_step c path perm tmp m o)
  rename_step-IsAtomic bytes m (some e) d g old = give_up-IsAtomic bytes m (rename_tempfile e) old
  rename_step-IsAtomic bytes m none d g old =
      (subst (IsNew bytes) (sym (ap (move_found tmp path m) g)) (renamed bytes m old), λ u. cc)

  put_last-IsAtomic :
      (bytes : List ℕ) (m : Files)
      → (tmp =ₜ path) ≡ false
      → get_key tmp m ≡ some (record { mode = perm; content = bytes })
      → IsOld m
      → AtomicRun bytes (payload_step c path perm tmp m c.payload)
  put_last-IsAtomic bytes m d g old = end c.payload
    where
      end_close : (o : Option E) → AtomicRun bytes (close_step c path perm tmp m o)
      end_close none = rename_step-IsAtomic bytes m c.rename d g old
      end_close (some e) = give_up-IsAtomic bytes m (close_tempfile e) old

      end_sync : (o : Option E) → AtomicRun bytes (sync_step c path perm tmp m o)
      end_sync none = end_close c.close
      end_sync (some e) = give_up-IsAtomic bytes m (sync_tempfile e) old

      end : (o : Option E) → AtomicRun bytes (payload_step c path perm tmp m o)
      end none = end_sync c.sync
      end (some e) = give_up-IsAtomic bytes m (write_tempfile e) old

  then_run-IsAtomic :
      (bytes : List ℕ) (m : Files) (r : Run E)
      → IsOld m
      → AtomicRun bytes r
      → AtomicRun bytes (then_run m r)
  then_run-IsAtomic bytes m r old (a, some_left) = (go_on r.states some_left a, λ u. cc)
    where
      go_on :
          (ms : List Files)
          → (ms ≡ [] → ⊥)
          → IsAtomic bytes ms r.error
          → IsAtomic bytes (m ∷ ms) r.error
      go_on [] h b = absurd (h refl)
      go_on (n ∷ ms) h b = (old, b)

  put_own : (f : Stored) (m : Files) → get_key tmp (put_key tmp f m) ≡ some f
  put_own f m = get_key-put_key tmp tmp f m ∙ ground (arith, text_eq_iff tmp tmp)

  write_steps-IsAtomic :
      (now : List ℕ) (ws : List (List ℕ)) (m : Files)
      → (tmp =ₜ path) ≡ false
      → get_key tmp m ≡ some (record { mode = perm; content = now })
      → IsOld m
      → AtomicRun (last_written now ws) (write_steps c path perm tmp m ws)
  unfolding write_steps
  write_steps-IsAtomic now [] m d g old = put_last-IsAtomic now m d g old
  write_steps-IsAtomic now (w ∷ ws) m d g old =
      let f : Stored = record { mode = perm; content = w } in
      let later = IsOld-put_key f m old in
      then_run-IsAtomic (last_written w ws) (put_key tmp f m)
        (write_steps c path perm tmp (put_key tmp f m) ws) later
        (write_steps-IsAtomic w ws (put_key tmp f m) d (put_own f m) later)

  chmod_step-IsAtomic :
      (m : Files) (o : Option E)
      → (tmp =ₜ path) ≡ false
      → IsOld m
      → AtomicRun (last_written [] c.writes) (chmod_step c path perm tmp m o)
  chmod_step-IsAtomic m (some e) d old =
      give_up-IsAtomic (last_written [] c.writes) m (write_tempfile e) old
  chmod_step-IsAtomic m none d old =
      let f : Stored = record { mode = perm; content = [] } in
      let later = IsOld-put_key f m old in
      then_run-IsAtomic (last_written [] c.writes) (put_key tmp f m) _ later
        (write_steps-IsAtomic [] c.writes (put_key tmp f m) d (put_own f m) later)

  -- Where `CreateTemp` makes a file that is not the target: until the rename has succeeded, every state that
  -- `writeAtomic` goes through has each file but the temporary one as it was. Where it returns no error the last
  -- state has the permissions and what the payload left at the target, no temporary file, and every other file
  -- as it was. Where it returns an error the temporary file is gone in the last state if `os.Remove` succeeds.
  pub write_atomic_lem :
      c.created ≡ ok tmp
      → (tmp =ₜ path) ≡ false
      → IsAtomic
          (last_written [] c.writes)
          (write_atomic c path perm files).states
          (write_atomic c path perm files).error
  write_atomic_lem e d =
      let f : Stored = record { mode = 384; content = [] } in
      let later = IsOld-put_key f files (λ j h. refl) in
      let run =
        then_run-IsAtomic (last_written [] c.writes) (put_key tmp f files)
          (chmod_step c path perm tmp (put_key tmp f files) c.chmod) later
          (chmod_step-IsAtomic (put_key tmp f files) c.chmod d later) in
      subst
        (λ r.
          IsAtomic (last_written [] c.writes) (create_step c path perm files r).states
            (create_step c path perm files r).error)
        (sym e) run.0
