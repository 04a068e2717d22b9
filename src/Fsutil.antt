-- ===== src/Fsutil.antt =====
-- internal/fsutil/atomic.go. `E` is the type of errors. How the calls of the operating system end is a parameter.
pub mod Atomicity
use mcpcheck.Prelude.{
  ℕ, ◌≡◌, Bool, true, false, List, [], ◌∷◌, Option, none, some, Text, get_key, put_key, delete_key,
  Result, ok, err, if◌then◌else◌,
}

-- A file: its permissions and its bytes.
pub record Stored : Type 0 where
  pub mode : ℕ
  pub content : List ℕ

abbrev pub Files : Type 0
Files = List (Text × Stored)

-- How the calls end: what `CreateTemp` returns, and the errors of the others. `writes` is what is in the file
-- after each write that the payload makes, and `removes` whether `os.Remove` succeeds.
pub record Calls (E : Type 0) : Type 0 where
  pub created : Result E Text
  pub chmod : Option E
  pub writes : List (List ℕ)
  pub payload : Option E
  pub sync : Option E
  pub close : Option E
  pub rename : Option E
  pub removes : Bool

-- The texts that are put before an error.
pub data WriteError (E : Type 0) : Type 0 where
  write_tempfile : E → WriteError E
  sync_tempfile : E → WriteError E
  close_tempfile : E → WriteError E
  rename_tempfile : E → WriteError E

-- A run of `writeAtomic`: the files after each call that changes them, in order, and the error.
pub record Run (E : Type 0) : Type 0 where
  pub states : List Files
  pub error : Option (WriteError E)

abbrev pub move_found : Text → Text → Files → Option Stored → Files
move_found tmp path m none = m
move_found tmp path m (some f) = put_key path f (delete_key tmp m)

-- `os.Rename(tmpName, path)` where it succeeds
abbrev pub rename_file : Text → Text → Files → Files
rename_file tmp path m = move_found tmp path m (get_key tmp m)

abbrev pub then_run : {E : Type 0} → Files → Run E → Run E
then_run m r = record { states = m ∷ r.states; error = r.error }

module _ {E : Type 0} (c : Calls E) (path : Text) (perm : ℕ) where
  -- `os.Remove(tmpName)`, with the error that is returned.
  abbrev pub give_up : Text → Files → WriteError E → Run E
  give_up tmp m e = record {
    states = (if c.removes then delete_key tmp m else m) ∷ [];
    error = some e;
  }

  abbrev pub rename_step : Text → Files → Option E → Run E
  rename_step tmp m none = record { states = rename_file tmp path m ∷ []; error = none }
  rename_step tmp m (some e) = give_up tmp m (rename_tempfile e)

  abbrev pub close_step : Text → Files → Option E → Run E
  close_step tmp m none = rename_step tmp m c.rename
  close_step tmp m (some e) = give_up tmp m (close_tempfile e)

  abbrev pub sync_step : Text → Files → Option E → Run E
  sync_step tmp m none = close_step tmp m c.close
  sync_step tmp m (some e) = give_up tmp m (sync_tempfile e)

  abbrev pub payload_step : Text → Files → Option E → Run E
  payload_step tmp m none = sync_step tmp m c.sync
  payload_step tmp m (some e) = give_up tmp m (write_tempfile e)

  unfoldable pub write_steps : Text → Files → List (List ℕ) → Run E
  write_steps tmp m [] = payload_step tmp m c.payload
  write_steps tmp m (w ∷ ws) =
      let n = put_key tmp (record { mode = perm; content = w }) m in
      then_run n (write_steps tmp n ws)

  abbrev pub chmod_step : Text → Files → Option E → Run E
  chmod_step tmp m none =
      let n = put_key tmp (record { mode = perm; content = [] }) m in
      then_run n (write_steps tmp n c.writes)
  chmod_step tmp m (some e) = give_up tmp m (write_tempfile e)

  abbrev pub create_step : Files → Result E Text → Run E
  create_step m (err e) = record { states = []; error = some (write_tempfile e) }
  create_step m (ok tmp) =
      let n = put_key tmp (record { mode = 384; content = [] }) m in
      then_run n (chmod_step tmp n c.chmod)

  -- `writeAtomic`; `CreateTemp` makes a file with the mode 0600.
  abbrev pub write_atomic : Files → Run E
  write_atomic m = create_step m c.created
