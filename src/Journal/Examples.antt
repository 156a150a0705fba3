-- ===== src/Journal/Examples.antt =====
-- Runs of the model of src/lib/journal.c, and its theorems at concrete inputs. The values of Lua are
-- numbers here, dumped as one byte.
use turris_updater.Base.{
  ℕ, zero, suc, ◌≤◌, ◌<◌, ◌≡◌, refl, ◌⊎◌, Bool, true, false, List, [], ◌∷◌, ◌++◌, Option, none,
  some, Bytes, codes, arith,
}
use turris_updater.Base.{bytes_eq}
use turris_updater.Journal.Format.{param_len, record_bytes}
use turris_updater.Journal.Write.{WriteAnswer, wrote, interrupted, failed, complete, journal_write}
use turris_updater.Journal.Read.{
  ReadAnswer, got, do_read, filled, refused, Record, journal_read, recover, recovered, undefined,
  parse_header, magic_tail, read_lens, read_params, finish_params, read_body, read_rest,
  recover_loop,
}
use turris_updater.Journal.Read
use turris_updater.Journal.Loops.{journal_write_completes, do_read_lem}
use turris_updater.Journal.Recovery.{Fits}
use turris_updater.Journal.Sequence.{left_by, log_bytes, recover-journal_write}
use turris_updater.Journal.Calls.{
  World, returns, raises, already_open, ◌>>=◌, lua_fresh, lua_finish, lua_opened, journal_exists,
  lua_recover, update,
}
use turris_updater.Journal.Session.{
  journal_path, Holds, write_all, session-recover, start_record, lua_finish_closes,
  lua_fresh_refuses,
}

abbrev dump : ℕ → Bytes
dump v = v ∷ []

abbrev load : Bytes → Option ℕ
load [] = none
load (v ∷ _) = some v

load-dump : (v : ℕ) → load (dump v) ≡ some v
load-dump v = refl

-- Reads of up to four bytes, with interruptions.
abbrev answers_for : ℕ → List ReadAnswer
answers_for zero = []
answers_for (suc n) = Read.interrupted ∷ got 3 ∷ answers_for n

abbrev reads : ℕ → List ReadAnswer
reads _ = answers_for 80

abbrev moved_two : Record ℕ
moved_two = record { type = 5; params = 7 ∷ 9 ∷ [] }

moved_two-Fits : Fits 5 ((7 ∷ []) ∷ (9 ∷ []) ∷ [])
unfolding param_len
moved_two-Fits = omega arith

-- The magic of the tests' empty record, lowest byte first.
empty_record : record_bytes 0 [] ≡ 0 ∷ 0 ∷ 0x7c ∷ 0x2a ∷ 0 ∷ 0 ∷ 0 ∷ 0 ∷ 0x7c ∷ 0x2a ∷ []
unfolding record_bytes
empty_record = refl

-- Eleven bytes of twenty reach the file before the process dies.
cut_write : List WriteAnswer
cut_write = wrote 4 ∷ interrupted ∷ wrote 7 ∷ failed ∷ []

start_bytes : Bytes
unfolding record_bytes
start_bytes = record_bytes 0 []

torn_run :
    recover load reads (record_bytes 0 [] ++ 5 ∷ 2 ∷ 0x76 ∷ 0x2a ∷ 10 ∷ 0 ∷ 0 ∷ [])
    ≡ recovered (record { type = 0; params = [] } ∷ []) (record_bytes 0 [])
unfolding recover record_bytes journal_read
torn_run = refl

-- A body that is too short for its own count of parameters is read past the end of the buffer.
short_body :
    journal_read load
      (answers_for 20)
      (answers_for 20)
      (0 ∷ 200 ∷ 0x7c ∷ 0x2a ∷ 0 ∷ 0 ∷ 0 ∷ 0 ∷ 0x7c ∷ 0x2a ∷ [])
    ≡ undefined
unfolding journal_read
short_body = refl

recover-journal_write_example :
    (recover load reads (left_by dump cut_write moved_two (start_record load dump load-dump ∷ []))
      ≡ recovered
          (start_record load dump load-dump ∷ [])
          (log_bytes dump (start_record load dump load-dump ∷ [])))
    ⊎ (recover load reads (left_by dump cut_write moved_two (start_record load dump load-dump ∷ []))
        ≡ recovered
            (start_record load dump load-dump ∷ moved_two ∷ [])
            (log_bytes dump (start_record load dump load-dump ∷ moved_two ∷ [])))
unfolding cut_write journal_write
recover-journal_write_example =
    recover-journal_write load dump load-dump reads (start_record load dump load-dump ∷ [])
      cut_write moved_two (unfold param_len in omega arith) moved_two-Fits (λ i. omega arith)

journal_write_completes_example :
    journal_write (wrote 4 ∷ interrupted ∷ wrote 100 ∷ []) 5 ((7 ∷ []) ∷ []) (1 ∷ [])
    ≡ complete (1 ∷ record_bytes 5 ((7 ∷ []) ∷ []))
journal_write_completes_example =
    journal_write_completes (wrote 4 ∷ interrupted ∷ wrote 100 ∷ []) 5 ((7 ∷ []) ∷ []) (1 ∷ [])
      (unfold record_bytes in omega arith)

do_read_lem_run :
    (2 ≤ 3 → do_read (answers_for 9) 2 [] (4 ∷ 5 ∷ 6 ∷ []) ≡ filled (4 ∷ 5 ∷ []) (6 ∷ []))
    × (3 < 2 → (z : Bool) × (do_read (answers_for 9) 2 [] (4 ∷ 5 ∷ 6 ∷ []) ≡ refused z))
do_read_lem_run = do_read_lem (answers_for 9) 2 (4 ∷ 5 ∷ 6 ∷ []) (omega arith)

abbrev empty_world : World
empty_world = record { files = λ _. none; fd = none }

abbrev calls : List (List WriteAnswer × Record ℕ)
calls = (wrote 9 ∷ interrupted ∷ wrote 50 ∷ [], moved_two) ∷ []

session-recover_example :
    (w' : World) × (w'' : World) × ((lua_fresh false (wrote 10 ∷ []) (codes "/mnt") empty_world
        >>= λ _ v. write_all dump calls v)
      ≡ returns tt w')
    × (lua_recover load false reads (codes "/mnt") (record w' { fd = none })
        ≡ returns (some (start_record load dump load-dump ∷ moved_two ∷ [])) w'')
session-recover_example =
    session-recover load dump load-dump (wrote 10 ∷ []) reads (codes "/mnt") empty_world calls
      (unfold journal_exists in refl) (unfold record_bytes in omega arith)
      (omega arith, moved_two-Fits, unfold record_bytes in omega arith, tt)
      (λ i. unfold record_bytes in omega arith)

abbrev open_world : World
open_world = record {
  files = update (λ _. none) (journal_path []) (some (1 ∷ []));
  fd = some (journal_path []);
}

open_world-Holds : Holds (journal_path []) (1 ∷ []) open_world
unfolding bytes_eq
open_world-Holds = record { open_at = refl; content = refl }

lua_finish_closes_run :
    (w' : World) × (lua_finish true (wrote 10 ∷ []) open_world ≡ returns tt w')
    × (lua_opened w' ≡ false)
    × (w'.files (journal_path []) ≡ some (1 ∷ record_bytes 1 []))
    × (journal_exists [] w' ≡ true)
lua_finish_closes_run =
    lua_finish_closes true (wrote 10 ∷ []) [] open_world-Holds (unfold record_bytes in omega arith)

lua_fresh_refuses_run :
    lua_fresh false (wrote 10 ∷ []) [] open_world ≡ raises already_open open_world
unfolding lua_opened
lua_fresh_refuses_run =
    lua_fresh_refuses false (wrote 10 ∷ []) [] open_world (unfold journal_exists in refl)
