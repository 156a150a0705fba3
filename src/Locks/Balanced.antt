-- ===== src/Locks/Balanced.antt =====
-- src/lib/locks.c: over the life of a lock object nothing stays open or locked, and nothing is
-- closed twice.
use turris_updater.Base.{
  ℕ, zero, suc, ◌≡◌, refl, ap, Bool, true, false, List, [], ◌∷◌, ◌++◌, Option, none, some, Bytes,
  if◌then◌else◌,
}
use turris_updater.Locks.Lock.{
  Lock, KernelCall, unlock, close, returns, Acquisition, Answers, lua_acquire, release_fd,
  lua_lock_release, close_open, after_release, lua_lock_gc,
}

-- The kernel unlocks and closes what it is asked to.
abbrev pub obeyed : Answers
obeyed = record { unlocked = true; closed = true }

-- A number of calls of `release` from Lua, with their calls of the kernel.
abbrev pub releases : ℕ → Lock → Lock × List KernelCall
releases zero lock = (lock, [])
releases (suc n) lock =
    let d = lua_lock_release obeyed lock in
    let rest = releases n d.lock in (rest.0, d.calls ++ rest.1)

-- The calls after an acquisition that undo it.
abbrev pub undoing : Acquisition → List KernelCall
undoing a = elim a.created [
  | none ↦ []
  | some fd ↦ (if a.got_lock then unlock fd ∷ close fd ∷ [] else close fd ∷ [])
]

-- The releases and then the collection: their calls are the given ones, and the object is empty.
abbrev pub EndsWith : List KernelCall → ℕ → Lock → Type 0
EndsWith calls n lock =
    let r = releases n lock in
    let g = lua_lock_gc obeyed true r.0 in
    (r.1 ++ g.calls ≡ calls)
    × (g.ended ≡ returns)
    × (g.lock ≡ record { path = none; fd = none; locked = false })

closed-EndsWith :
    (path : Option Bytes) (n : ℕ)
    → EndsWith [] n (record { path = path; fd = none; locked = false })
unfolding lua_lock_release lua_lock_gc close_open
closed-EndsWith path zero = (refl, refl, refl)
closed-EndsWith path (suc n) = closed-EndsWith path n

open-EndsWith :
    (path : Option Bytes) (fd n : ℕ)
    → EndsWith (close fd ∷ []) n (record { path = path; fd = some fd; locked = false })
unfolding lua_lock_release lua_lock_gc close_open
open-EndsWith path fd zero = (refl, refl, refl)
open-EndsWith path fd (suc n) = open-EndsWith path fd n

held-EndsWith :
    (path : Option Bytes) (fd n : ℕ)
    → EndsWith (unlock fd ∷ close fd ∷ []) n (record { path = path; fd = some fd; locked = true })
unfolding lua_lock_release lua_lock_gc close_open release_fd after_release
held-EndsWith path fd zero = (refl, refl, refl)
held-EndsWith path fd (suc n) =
    let h = closed-EndsWith path n in (ap (λ calls. unlock fd ∷ close fd ∷ calls) h.0, h.1, h.2)

-- If setting close-on-exec, unlocking and closing succeed: however the acquisition goes and however
-- often Lua releases the lock before it is collected, the descriptor is closed once if there was
-- one, after being unlocked once if it was locked, and the object is empty at the end.
pub lua_acquire-undoing :
    (a : Acquisition) (path : Bytes) (n : ℕ)
    → a.cloexec ≡ true
    → EndsWith (undoing a) n (lua_acquire a path).lock
unfolding lua_acquire
lua_acquire-undoing a path n c = by a.created a.got_lock
  where
    by :
        (o : Option ℕ) (g : Bool)
        → EndsWith
            (undoing (record { created = o; cloexec = a.cloexec; got_lock = g }))
            n
            (lua_acquire (record { created = o; cloexec = a.cloexec; got_lock = g }) path).lock
    by none g = closed-EndsWith (some path) n
    by (some fd) true = rw c (held-EndsWith (some path) fd n)
    by (some fd) false = rw c (open-EndsWith (some path) fd n)
