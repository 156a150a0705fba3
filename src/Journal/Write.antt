-- ===== src/Journal/Write.antt =====
-- src/lib/journal.c: `journal_write`. The answers of write(2) are a list that the system chooses;
-- `wrote n` is a count of at most what was asked.
use turris_updater.Base.{ℕ, List, [], ◌∷◌, ◌++◌, Bytes, take, drop}
use turris_updater.Journal.Format.{record_bytes}

pub data WriteAnswer : Type 0 where
  wrote : ℕ → WriteAnswer
  interrupted : WriteAnswer
  failed : WriteAnswer

-- `died` is the failed assertion after the loop, `waiting` a loop that still runs when the answers end.
-- Each carries the file as it is then.
pub data Written : Type 0 where
  complete : Bytes → Written
  died : Bytes → Written
  waiting : Bytes → Written

-- The loop `while (!error && written < alloc_size)` over what is left of the buffer. The journal is
-- open with O_APPEND, so each write goes to the end of the file.
unfoldable pub write_loop : List WriteAnswer → Bytes → Bytes → Written
write_loop answers [] file = complete file
write_loop [] (b ∷ buffer) file = waiting file
write_loop (wrote n ∷ answers) (b ∷ buffer) file =
    write_loop answers (drop n (b ∷ buffer)) (file ++ take n (b ∷ buffer))
write_loop (interrupted ∷ answers) (b ∷ buffer) file = write_loop answers (b ∷ buffer) file
write_loop (failed ∷ answers) (b ∷ buffer) file = died file

unfoldable pub journal_write : List WriteAnswer → ℕ → List Bytes → Bytes → Written
unfolding write_loop record_bytes
journal_write answers type params file = write_loop answers (record_bytes type params) file
