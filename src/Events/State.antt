-- ===== src/Events/State.antt =====
-- src/lib/events.c: `struct events`, `struct watched_child`, `struct watched_command` and
-- `struct wait_id`. Commands stand at addresses; the arrays are lists, with the places allocated.
use turris_updater.Base.{
  ℕ, suc, Bool, true, false, List, [], ◌∷◌, Option, none, some, Bytes, length, set, take, ◌==◌, ◌≡◌,
  refl, arith, ◌&&◌, if◌then◌else◌,
}

pub data WaitType : Type 0 where
  wt_child : WaitType
  wt_command : WaitType

-- The padding and the field `id` are always zero, so memcmp compares the three other fields.
pub record WaitId : Type 0 where
  pub wait_type : WaitType
  pub pid : ℕ
  -- `pointers.command`, an address or 0
  pub command : ℕ

-- A callback of `watch_child` with its data: the module's own one, or a caller's.
pub data ChildCallback : Type 0 where
  command_terminated : ℕ → ChildCallback
  user_callback : ℕ → ChildCallback

pub record Child : Type 0 where
  pub child_pid : ℕ
  pub callback : ChildCallback
  pub child_status : ℕ

-- `buffers` are the addresses of libevent's buffers, timeouts are in seconds and microseconds.
pub record Command : Type 0 where
  pub user : ℕ
  pub running : Bool
  pub child : WaitId
  pub cmd_pid : ℕ
  pub status : ℕ
  pub signal_sent : ℕ
  pub term_timeout : Option (ℕ × ℕ)
  pub kill_timeout : Option (ℕ × ℕ)
  pub output : Bytes
  pub error : Bytes
  pub output_buffer : Option ℕ
  pub error_buffer : Option ℕ
  pub input_buffer : Option ℕ

pub data KillStatus : Type 0 where
  ck_terminated : KillStatus
  ck_termed : KillStatus
  ck_killed : KillStatus
  ck_signal_other : KillStatus

-- What the module does to the outside.
pub data Effect : Type 0 where
  -- killpg
  kills : ℕ → ℕ → Effect
  -- a byte to the self-pipe
  wakes : Effect
  -- bufferevent_write to the input of a command
  writes_input : ℕ → Bytes → Effect
  -- the callback of a command: status, how it ended, output and error output
  reports : WaitId → ℕ → KillStatus → Bytes → Bytes → Effect

pub record Events : Type 0 where
  pub children : List Child
  pub child_alloc : ℕ
  pub self_chld : Bool
  pub commands : List ℕ
  pub command_alloc : ℕ
  pub pending : List WaitId
  pub pending_alloc : ℕ
  -- what stands at the addresses of commands
  pub memory : ℕ → Option Command
  pub log : List Effect

-- `dies` is DIE or a failed ASSERT, `wild` a use of freed memory, `execs` the other process, `waiting`
-- the loop that no further answer ends.
pub data Outcome {ℓ} (A : Type ℓ) : Type ℓ where
  returns : A → Outcome A
  dies : Outcome A
  wild : Outcome A
  execs : Bytes → List Bytes → Outcome A
  waiting : Outcome A

infixl 2 ◌>>=◌
abbrev pub ◌>>=◌ {ℓ κ} : {A : Type ℓ} {B : Type κ} → Outcome A → (A → Outcome B) → Outcome B
returns a >>= f = f a
dies >>= f = dies
wild >>= f = wild
execs c ps >>= f = execs c ps
waiting >>= f = waiting

abbrev pub same_type : WaitType → WaitType → Bool
same_type wt_child wt_child = true
same_type wt_command wt_command = true
same_type _ _ = false

pub bind-returns :
    {A B : Type 0} (o : Outcome A) (f : A → Outcome B) (b : B)
    → (o >>= f) ≡ returns b
    → (a : A) × (o ≡ returns a) × (f a ≡ returns b)
bind-returns (returns a) f b h = (a, refl, h)
bind-returns dies f b h = ground arith
bind-returns wild f b h = ground arith
bind-returns (execs c ps) f b h = ground arith
bind-returns waiting f b h = ground arith

-- memcmp(&a, &b, sizeof a) == 0
unfoldable pub same_id : WaitId → WaitId → Bool
same_id a b = same_type a.wait_type b.wait_type && a.pid == b.pid && a.command == b.command

abbrev pub child_id : ℕ → WaitId
child_id p = record { wait_type = wt_child; pid = p; command = 0 }

abbrev pub command_id : ℕ → Command → WaitId
command_id a c = record { wait_type = wt_command; pid = c.cmd_pid; command = a }

abbrev pub put_command : ℕ → Option Command → Events → Events
put_command a c ev = record ev { memory = λ b. if a == b then c else ev.memory b }

-- The pointer is dereferenced.
abbrev pub load_command : ℕ → Events → Outcome Command
load_command a ev = elim (ev.memory a) [ none ↦ wild | some c ↦ returns c ]

module _ {ℓ} {A : Type ℓ} where
  -- The first index whose element passes the test.
  unfoldable pub find_index : (A → Bool) → List A → Option ℕ
  find_index test [] = none
  find_index test (x ∷ xs) =
      let rest = find_index test xs in
      if test x then some 0 else elim rest [ none ↦ none | some i ↦ some (suc i) ]

  abbrev pub last_of : A → List A → A
  last_of x [] = x
  last_of x (y ∷ ys) = last_of y ys

  -- `array[i] = array[-- count]`; there is no element before an empty array.
  unfoldable pub replace_with_last : ℕ → List A → List A
  replace_with_last i [] = []
  replace_with_last i (x ∷ xs) = take (length xs) (set (x ∷ xs) i (last_of x xs))
