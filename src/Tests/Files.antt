-- ===== src/Tests/Files.antt =====
-- A file that is written beside another one, in two writes.
use mcpcheck.Prelude.{◌=ₜ◌, ℕ, ◌≡◌, refl, true, [], ◌∷◌, none, codes, ok}
use mcpcheck.Fsutil.{Files, Calls, write_steps, write_atomic}
use mcpcheck.Fsutil.Atomicity.{IsAtomic, write_atomic_lem}

abbrev two_writes : Calls ℕ
two_writes = record {
  created = ok (codes ".a.tmp-1");
  chmod = none;
  writes = (104 ∷ []) ∷ (104 ∷ 105 ∷ []) ∷ [];
  payload = none;
  sync = none;
  close = none;
  rename = none;
  removes = true;
}

abbrev old_file : Files
old_file = (codes "a", record { mode = 420; content = 120 ∷ [] }) ∷ []

write_atomic_run : (write_atomic two_writes (codes "a") 384 old_file).error ≡ none
unfolding write_steps
write_atomic_run = refl

write_atomic_example :
    IsAtomic two_writes
      (codes "a")
      384
      (codes ".a.tmp-1")
      old_file
      (104 ∷ 105 ∷ [])
      (write_atomic two_writes (codes "a") 384 old_file).states
      (write_atomic two_writes (codes "a") 384 old_file).error
unfolding ◌=ₜ◌
write_atomic_example =
    write_atomic_lem two_writes (codes "a") 384 (codes ".a.tmp-1") old_file refl refl
