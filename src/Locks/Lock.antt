-- ===== src/Locks/Lock.antt =====
-- src/lib/locks.c: the lock object and its functions, with the kernel's answers as arguments. Each
-- gives the calls of the kernel that it makes.
use turris_updater.Base.{
  ℕ, Bool, true, false, List, [], ◌∷◌, ◌++◌, Option, none, some, Bytes, if◌then◌else◌,
}

-- struct lock; no descriptor is -1, and no path is NULL.
pub record Lock : Type 0 where
  pub path : Option Bytes
  pub fd : Option ℕ
  pub locked : Bool

pub data KernelCall : Type 0 where
  creat : Bytes → KernelCall
  set_cloexec : ℕ → KernelCall
  try_lock : ℕ → KernelCall
  unlock : ℕ → KernelCall
  close : ℕ → KernelCall

-- The three errors for Lua, with the path that they name.
pub data LockError : Type 0 where
  not_created : Bytes → LockError
  not_locked : Bytes → LockError
  not_held : Option Bytes → LockError

-- How a call from Lua ends.
pub data Ended : Type 0 where
  returns : Ended
  raises : LockError → Ended
  dies : Ended

pub record Done : Type 0 where
  pub lock : Lock
  pub calls : List KernelCall
  pub ended : Ended

-- What creat gives, and whether fcntl and lockf succeed.
pub record Acquisition : Type 0 where
  pub created : Option ℕ
  pub cloexec : Bool
  pub got_lock : Bool

-- A failed lockf leaves the descriptor open.
unfoldable pub lua_acquire : Acquisition → Bytes → Done
lua_acquire a path = elim a.created [
  | none ↦ record {
    lock = record { path = some path; fd = none; locked = false };
    calls = creat path ∷ [];
    ended = raises (not_created path);
  }
  | some fd ↦
      (if a.cloexec
        then (if a.got_lock
            then record {
              lock = record { path = some path; fd = some fd; locked = true };
              calls = creat path ∷ set_cloexec fd ∷ try_lock fd ∷ [];
              ended = returns;
            }
            else record {
              lock = record { path = some path; fd = some fd; locked = false };
              calls = creat path ∷ set_cloexec fd ∷ try_lock fd ∷ [];
              ended = raises (not_locked path);
            })
        else record {
          lock = record { path = some path; fd = some fd; locked = false };
          calls = creat path ∷ set_cloexec fd ∷ [];
          ended = dies;
        })
]

-- Whether lockf unlocks and close succeeds.
pub record Answers : Type 0 where
  pub unlocked : Bool
  pub closed : Bool

-- `release_fd` is the part for a lock that is held.
unfoldable pub release_fd : Answers → Lock → Option ℕ → Done
release_fd a lock none = record { lock = lock; calls = []; ended = dies }
release_fd a lock (some fd) =
    if a.unlocked
    then (if a.closed
        then record {
          lock = record lock { locked = false; fd = none };
          calls = unlock fd ∷ close fd ∷ [];
          ended = returns;
        }
        else record {
          lock = record lock { locked = false };
          calls = unlock fd ∷ close fd ∷ [];
          ended = dies;
        })
    else record { lock = lock; calls = unlock fd ∷ []; ended = dies }

unfoldable pub lua_lock_release : Answers → Lock → Done
unfolding release_fd
lua_lock_release a lock =
    if lock.locked
    then release_fd a lock lock.fd
    else record { lock = lock; calls = []; ended = raises (not_held lock.path) }

-- The part of `lua_lock_gc` after the release: what is still open is closed, the path is freed.
unfoldable pub close_open : Bool → List KernelCall → Lock → Option ℕ → Done
close_open closed calls lock none = record {
  lock = record lock { path = none };
  calls = calls;
  ended = returns;
}
close_open closed calls lock (some fd) =
    if closed
    then record {
      lock = record lock { fd = none; path = none };
      calls = calls ++ close fd ∷ [];
      ended = returns;
    }
    else record { lock = lock; calls = calls ++ close fd ∷ []; ended = dies }

-- An error or a failed assertion of the release leaves the function.
unfoldable pub after_release : Bool → Done → Done
unfolding close_open
after_release closed d = elim d.ended [
  | returns ↦ close_open closed d.calls d.lock d.lock.fd
  | raises e ↦ d
  | dies ↦ d
]

-- The second argument is the answer of the other close.
unfoldable pub lua_lock_gc : Answers → Bool → Lock → Done
unfolding lua_lock_release after_release close_open
lua_lock_gc a closed lock =
    if lock.locked
    then after_release closed (lua_lock_release a lock)
    else close_open closed [] lock lock.fd
