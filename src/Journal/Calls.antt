-- ===== src/Journal/Calls.antt =====
-- src/lib/journal.c: the calls of the journal module. The file system is a map from paths to
-- contents; `fd` is the path of the open journal, which the source keeps in `fd` and `journal_path`.
use mathlib.Core.List.{map}
use turris_updater.Base.{
  ℕ, Bool, true, false, List, [], ◌++◌, Option, none, some, Bytes, codes, bytes_eq, ltb,
  if◌then◌else◌,
}
use turris_updater.Base.Int.{ℤ, pos, negsuc}
use turris_updater.Journal.Format.{rt, start, finish, rt_invalid}
use turris_updater.Journal.Write.{WriteAnswer, Written, complete, died, waiting, journal_write}
use turris_updater.Journal.Read.{ReadAnswer, Record, Recovered, recovered, recover}

pub record World : Type 0 where
  pub files : Bytes → Option Bytes
  pub fd : Option Bytes

pub data LuaError : Type 0 where
  already_open : LuaError
  unfinished_exists : LuaError
  open_failed : LuaError
  invalid_type : LuaError

-- How a call ends: it returns, raises a Lua error, stops the process, reads outside of a buffer, or has
-- not ended when the system's answers are used up.
pub data Outcome {ℓ} (A : Type ℓ) : Type ℓ where
  returns : A → World → Outcome A
  raises : LuaError → World → Outcome A
  dies : World → Outcome A
  undefined : Outcome A
  blocked : World → Outcome A

abbrev pub default_journal_path : Bytes
default_journal_path = codes "/usr/share/updater/journal"

abbrev pub update : (Bytes → Option Bytes) → Bytes → Option Bytes → Bytes → Option Bytes
update files path content q = if bytes_eq path q then content else files q

-- `open` with O_CREAT | O_EXCL, or with neither. The flag tells that open(2) failed for another reason
-- than EEXIST and ENOENT.
unfoldable pub open_file : Bool → Bool → Bytes → World → Outcome Bool
open_file true other path w = elim (w.files path) [
  | some content ↦ raises unfinished_exists w
  | none ↦
      if other
      then raises open_failed w
      else returns true (record { files = update w.files path (some []); fd = some path })
]
open_file false other path w = elim (w.files path) [
  | some content ↦
      if other then raises open_failed w else returns true (record w { fd = some path })
  | none ↦ returns false w
]

unfoldable pub journal_open : Bool → Bool → Bytes → World → Outcome Bool
unfolding open_file
journal_open create other root_dir w = elim w.fd [
  | some path ↦ raises already_open w
  | none ↦ open_file create other (root_dir ++ default_journal_path) w
]

-- What the loop of `journal_write` did to the file at `path`.
unfoldable pub after_write : Bytes → World → Written → Outcome (Unit {0})
after_write path w (complete file) =
    returns tt (record w { files = update w.files path (some file) })
after_write path w (died file) = dies (record w { files = update w.files path (some file) })
after_write path w (waiting file) = blocked (record w { files = update w.files path (some file) })

-- write(2) on a closed descriptor fails, and so does the assertion behind the loop.
unfoldable pub write_fd : List WriteAnswer → ℕ → List Bytes → World → Outcome (Unit {0})
unfolding after_write journal_write
write_fd answers type params w = elim w.fd [
  | none ↦ dies w
  | some path ↦ elim (w.files path) [
    | none ↦ after_write path w (journal_write answers type params [])
    | some file ↦ after_write path w (journal_write answers type params file)
  ]
]

infixl 5 ◌>>=◌
abbrev pub ◌>>=◌ {ℓ κ} : {A : Type ℓ} {B : Type κ} → Outcome A → (A → World → Outcome B) → Outcome B
returns a w >>= f = f a w
raises e w >>= f = raises e w
dies w >>= f = dies w
undefined >>= f = undefined
blocked w >>= f = blocked w

-- `journal.fresh()`
unfoldable pub lua_fresh : Bool → List WriteAnswer → Bytes → World → Outcome (Unit {0})
unfolding journal_open write_fd rt
lua_fresh other answers root_dir w =
    journal_open true other root_dir w >>= λ _ w'. write_fd answers (rt start) [] w'

-- The end of `lua_finish`. The file may be gone already: then the assertion on unlink(2) fails.
unfoldable pub close_journal : Bool → World → Outcome (Unit {0})
close_journal keep w = elim w.fd [
  | none ↦ dies w
  | some path ↦ if keep then returns tt (record w { fd = none }) else elim (w.files path) [
    | none ↦ dies (record w { fd = none })
    | some file ↦ returns tt (record { files = update w.files path none; fd = none })
  ]
]

-- `journal.finish(keep)`
unfoldable pub lua_finish : Bool → List WriteAnswer → World → Outcome (Unit {0})
unfolding write_fd close_journal rt
lua_finish keep answers w = write_fd answers (rt finish) [] w >>= λ _ w'. close_journal keep w'

unfoldable pub lua_opened : World → Bool
lua_opened w = elim w.fd [ none ↦ false | some path ↦ true ]

unfoldable pub journal_exists : Bytes → World → Bool
journal_exists root_dir w = elim w.fd [
  | some path ↦ true
  | none ↦ elim (w.files (root_dir ++ default_journal_path)) [ none ↦ false | some file ↦ true ]
]

module _ {ℓ} {V : Type ℓ} (dump : V → Bytes) where
  -- `journal.write(type, ...)`: `dump` is DataDumper, which gives a text for every value.
  unfoldable pub lua_write : List WriteAnswer → ℤ → List V → World → Outcome (Unit {0})
  unfolding write_fd
  lua_write answers (negsuc n) params w = raises invalid_type w
  lua_write answers (pos type) params w =
      if ltb type rt_invalid
      then write_fd answers type (map dump params) w
      else raises invalid_type w

module _ {ℓ} {V : Type ℓ} (load : Bytes → Option V) where
  unfoldable pub after_recover : Bytes → World → Recovered V → Outcome (Option (List (Record V)))
  after_recover path w (recovered records file) =
      returns (some records) (record w { files = update w.files path (some file) })
  after_recover path w Recovered.dies = dies w
  after_recover path w Recovered.undefined = undefined
  after_recover path w Recovered.waiting = blocked w
  after_recover path w Recovered.out_of_fuel = blocked w

  unfoldable pub recover_fd :
      (ℕ → List ReadAnswer) → Bytes → World → Outcome (Option (List (Record V)))
  unfolding after_recover recover
  recover_fd reads path w = elim (w.files path) [
    | none ↦ dies w
    | some file ↦ after_recover path w (recover load reads file)
  ]

  -- `journal.recover()`: nil if there is no journal.
  unfoldable pub lua_recover :
      Bool → (ℕ → List ReadAnswer) → Bytes → World → Outcome (Option (List (Record V)))
  unfolding journal_open recover_fd
  lua_recover other reads root_dir w = journal_open false other root_dir w >>= λ found w'.
      if found then recover_fd reads (root_dir ++ default_journal_path) w' else returns none w'
