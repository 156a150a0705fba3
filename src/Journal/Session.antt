-- ===== src/Journal/Session.antt =====
-- A journal from `fresh` over any number of calls of `write` to a crash, and the `recover` of the next
-- process.
use mathlib.Core.List.{map}
use turris_updater.Base.{
  ℕ, ◌≤◌, ◌<◌, ◌≡◌, refl, Bool, true, false, List, [], ◌∷◌, ◌++◌, Option, none, some, Bytes, length,
  append_assoc, append-nil, bytes_eq_refl, lt→ltb, if◌then◌else◌, arith,
}
use turris_updater.Base.Int.{pos}
use turris_updater.Journal.Format.{rt, rt_invalid, param_len, record_bytes}
use turris_updater.Journal.Write.{WriteAnswer}
use turris_updater.Journal.Read.{ReadAnswer, Record, recovered, recover}
use turris_updater.Journal.Loops.{progress, journal_write_completes, patience}
use turris_updater.Journal.Recovery.{Fits}
use turris_updater.Journal.Sequence.{FitsAll, log_bytes, nothing, recover-log}
use turris_updater.Journal.Calls.{
  World, Outcome, returns, raises, unfinished_exists, already_open, ◌>>=◌, default_journal_path,
  update, open_file, journal_open, after_write, write_fd, lua_fresh, close_journal, lua_finish,
  lua_opened, journal_exists, lua_write, after_recover, recover_fd, lua_recover,
}

abbrev pub journal_path : Bytes → Bytes
journal_path root_dir = root_dir ++ default_journal_path

update_self :
    (files : Bytes → Option Bytes) (path : Bytes) (c : Option Bytes) → update files path c path ≡ c
update_self files path c = rw (bytes_eq_refl path)

-- While a journal is open or an unfinished one exists, `fresh` raises an error and changes nothing.
pub lua_fresh_refuses :
    (other : Bool) (answers : List WriteAnswer) (root_dir : Bytes) (w : World)
    → journal_exists root_dir w ≡ true
    → lua_fresh other answers root_dir w
      ≡ raises (if lua_opened w then already_open else unfinished_exists) w
unfolding journal_exists lua_opened lua_fresh
lua_fresh_refuses other answers root_dir w h = ground arith

-- The journal is open at `path` and holds `file`.
pub record Holds (path file : Bytes) (w : World) : Type 0 where
  pub open_at : w.fd ≡ some path
  pub content : w.files path ≡ some file

abbrev pub HoldsAfter : Bytes → Bytes → Outcome (Unit {0}) → Type 0
HoldsAfter path file o = (w' : World) × (o ≡ returns tt w') × Holds path file w'

write_fd-Holds :
    (answers : List WriteAnswer) (type : ℕ) (params : List Bytes) {path file : Bytes} {w : World}
    → Holds path file w
    → length (record_bytes type params) ≤ progress answers
    → HoldsAfter path (file ++ record_bytes type params) (write_fd answers type params w)
unfolding write_fd after_write
write_fd-Holds answers type params {path} {file} {w} h enough = (
  record w { files = update w.files path (some (file ++ record_bytes type params)) },
  ground (arith, h.open_at, h.content, journal_write_completes answers type params file enough),
  record { open_at = h.open_at; content = update_self w.files path _ },
)

lua_fresh-Holds :
    (answers : List WriteAnswer) (root_dir : Bytes) (w : World)
    → journal_exists root_dir w ≡ false
    → length (record_bytes 0 []) ≤ progress answers
    → HoldsAfter (journal_path root_dir) (record_bytes 0 []) (lua_fresh false answers root_dir w)
unfolding lua_fresh journal_open open_file journal_exists rt
lua_fresh-Holds answers root_dir w h enough =
    let path = journal_path root_dir in
    let w' : World = record { files = update w.files path (some []); fd = some path } in
    let holds : Holds path [] w' = record {
      open_at = refl;
      content = update_self w.files path (some []);
    } in
    let (w'', e, holds') = write_fd-Holds answers 0 [] holds enough in
    (w'', ground (arith, e), holds')

module _ {ℓ} {V : Type ℓ} (dump : V → Bytes) where
  -- The calls of `write` one after another, each with the answers of the system.
  abbrev pub write_all : List (List WriteAnswer × Record V) → World → Outcome (Unit {0})
  write_all [] w = returns tt w
  write_all ((answers, r) ∷ rest) w =
      lua_write dump answers (pos r.type) r.params w >>= λ _ w'. write_all rest w'

  abbrev pub records_of : List (List WriteAnswer × Record V) → List (Record V)
  records_of [] = []
  records_of ((answers, r) ∷ rest) = r ∷ records_of rest

  -- Each call has a known type, fits the format, and the system takes all of its bytes in the end.
  abbrev pub CanWrite : List (List WriteAnswer × Record V) → Type 0
  CanWrite [] = Unit
  CanWrite ((answers, r) ∷ rest) =
      (r.type < rt_invalid)
      × Fits r.type (map dump r.params)
      × (length (record_bytes r.type (map dump r.params)) ≤ progress answers)
      × CanWrite rest

  CanWrite-FitsAll :
      (calls : List (List WriteAnswer × Record V))
      → CanWrite calls
      → FitsAll dump (records_of calls)
  CanWrite-FitsAll [] h = tt
  CanWrite-FitsAll ((answers, r) ∷ rest) h = (h.1, CanWrite-FitsAll rest h.3)

  lua_write-Holds :
      (answers : List WriteAnswer) (type : ℕ) (vs : List V) {path file : Bytes} {w : World}
      → Holds path file w
      → type < rt_invalid
      → length (record_bytes type (map dump vs)) ≤ progress answers
      → HoldsAfter path
          (file ++ record_bytes type (map dump vs))
          (lua_write dump answers (pos type) vs w)
  unfolding lua_write
  lua_write-Holds answers type vs h known enough =
      let (w', e, holds) = write_fd-Holds answers type (map dump vs) h enough in
      (w', rw (lt→ltb type rt_invalid known) e, holds)

module _ {ℓ} {V : Type ℓ} (load : Bytes → Option V) (dump : V → Bytes)
    (load-dump : (v : V) → load (dump v) ≡ some v) where
  write_all-Holds :
      (calls : List (List WriteAnswer × Record V)) {path file : Bytes} {w : World}
      → Holds path file w
      → CanWrite dump calls
      → HoldsAfter path (file ++ log_bytes dump (records_of dump calls)) (write_all dump calls w)
  write_all-Holds [] {path} {file} {w} h c = (w, refl, rw (append-nil file) h)
  write_all-Holds ((answers, r) ∷ rest) {path} {file} {w} h c =
      let bytes = record_bytes r.type (map dump r.params) in
      let (w', e, holds) = lua_write-Holds dump answers r.type r.params h c.0 c.2 in
      let (w'', e', holds') = write_all-Holds rest holds c.3 in
      (w'', rw e e', rw (append_assoc file bytes _) at holds')

  recover-Holds :
      (reads : ℕ → List ReadAnswer) (root_dir : Bytes) (log : List (Record V)) (w : World)
      → w.files (journal_path root_dir) ≡ some (log_bytes dump log)
      → FitsAll dump log
      → ((i : ℕ) → length (log_bytes dump log) < patience (reads i))
      → (w' : World) × (lua_recover load false reads root_dir (record w { fd = none })
          ≡ returns (some log) w')
        × Holds (journal_path root_dir) (log_bytes dump log) w'
  unfolding lua_recover journal_open open_file recover_fd after_recover
  recover-Holds reads root_dir log w content f p =
      let path = journal_path root_dir in
      let bytes = log_bytes dump log in
      let read : recover load reads bytes ≡ recovered log bytes = rw (append-nil bytes) at (
        recover-log load dump load-dump reads log [] f nothing
          (λ i. rw (append-nil bytes) (p i))) in
      (
        record { files = update w.files path (some bytes); fd = some path },
        ground (arith, content, read),
        record { open_at = refl; content = update_self w.files path (some bytes) },
      )

  abbrev pub start_record : Record V
  start_record = record { type = 0; params = [] }

  -- A journal that was started by `fresh` and written by any calls of `write`, each of a known type
  -- and within the format's sizes, is read back by the `recover` of the next process: the start record
  -- and the written ones, in order, with their parameters. It holds for every way in which the system
  -- cuts the reads and writes, if no write fails and no read fails or waits for ever.
  pub session-recover :
      (answers : List WriteAnswer) (reads : ℕ → List ReadAnswer) (root_dir : Bytes) (w : World)
      (calls : List (List WriteAnswer × Record V))
      → journal_exists root_dir w ≡ false
      → length (record_bytes 0 []) ≤ progress answers
      → CanWrite dump calls
      → ((i : ℕ)
          → length (log_bytes dump (start_record ∷ records_of dump calls)) < patience (reads i))
      → (w' : World) × (w'' : World) × ((lua_fresh false answers root_dir w >>= λ _ v.
            write_all dump calls v)
          ≡ returns tt w')
        × (lua_recover load false reads root_dir (record w' { fd = none })
            ≡ returns (some (start_record ∷ records_of dump calls)) w'')
  session-recover answers reads root_dir w calls absent enough can p =
      let (v, e, holds) = lua_fresh-Holds answers root_dir w absent enough in
      let (w', e', holds') = write_all-Holds calls holds can in
      let log = start_record ∷ records_of dump calls in
      let (w'', e'', _) =
        recover-Holds reads root_dir log w' holds'.content
          (start_fits, CanWrite-FitsAll dump calls can) p in
      (w', w'', rw e e', e'')
    where
      start_fits : Fits 0 []
      start_fits = record {
        type_fits = omega arith;
        count_fits = omega arith;
        size_fits = unfold param_len in omega arith;
      }

-- `finish` adds the end record, closes the journal and removes its file, or keeps it if told to; after
-- that a journal exists just if it was kept.
pub lua_finish_closes :
    (keep : Bool) (answers : List WriteAnswer) {file : Bytes} {w : World} (root_dir : Bytes)
    → Holds (journal_path root_dir) file w
    → length (record_bytes 1 []) ≤ progress answers
    → (w' : World) × (lua_finish keep answers w ≡ returns tt w')
      × (lua_opened w' ≡ false)
      × (w'.files (journal_path root_dir)
          ≡ (if keep then some (file ++ record_bytes 1 []) else none))
      × (journal_exists root_dir w' ≡ keep)
unfolding lua_finish close_journal lua_opened journal_exists rt
lua_finish_closes true answers root_dir h enough =
    let (w', e, held) = write_fd-Holds answers 1 [] h enough in
    (
      record w' { fd = none },
      ground (arith, e, held.open_at),
      refl,
      held.content,
      ground (arith, held.content),
    )
lua_finish_closes false answers root_dir h enough =
    let (w', e, held) = write_fd-Holds answers 1 [] h enough in
    let path = journal_path root_dir in
    let gone = update_self w'.files path none in
    (
      record { files = update w'.files path none; fd = none },
      ground (arith, e, held.open_at, held.content),
      refl,
      gone,
      ground (arith, gone),
    )
