-- ===== src/Programs/Quiet.antt =====
-- src/pkgupdate/main.c: the parts of the program that do not do certain things.
use turris_updater.Base.{
  ◌≡◌, refl, ap, ◌∙◌, Bool, true, false, List, [], ◌∷◌, ◌++◌, map, Option, none, some, Bytes, codes,
  Bool-cases, inl, inr, if◌then◌else◌,
}
use turris_updater.Util.Hooks.{HookRun, exec_hook}
use turris_updater.Syscnf.Paths.{root_dir}
use turris_updater.Arguments.Update.{Program}
use turris_updater.Interpreter.Call.{CArg, Called, returned, failed, aborted, wild}
use turris_updater.Interpreter.Results.{
  Collection, all_collected, stopped_at, dies, interpreter_collect_results,
}
use turris_updater.Programs.Actions.{
  LuaFunction, perform_queue, queue_install, queue_remove, Action, calls, reports_error, sets_env,
  runs_hook, unlinks, writes_file, asks_user, Part, goes, aborts, after, ◌>>=◌, ◌>>◌, actions, act,
  Outside, Tried, worked, error_text, string_arg, answered, or_aborts, try_call, call, if_collected,
  collect, one_string, collected_bool, report_message, results_interpret, exactly_one,
}
use turris_updater.Programs.Update.{approval_clean, run_hook}

-- The actions that a test takes.
abbrev pub chosen : (Action → Bool) → List Action → List Action
chosen test [] = []
chosen test (a ∷ more) = if test a then a ∷ chosen test more else chosen test more

abbrev pub Quiet {ℓ} : {A : Type ℓ} → (Action → Bool) → Part A → Type 0
Quiet test m = chosen test (actions m) ≡ []

pub chosen-append :
    (test : Action → Bool) (xs ys : List Action)
    → chosen test (xs ++ ys) ≡ chosen test xs ++ chosen test ys
chosen-append test [] ys = refl
chosen-append test (x ∷ xs) ys = elim (Bool-cases (test x)) [
  | inl p ↦ rw (p, chosen-append test xs ys) refl
  | inr p ↦ rw (p, chosen-append test xs ys) refl
]

pub actions-after :
    {A : Type 0} (done : List Action) (m : Part A) → actions (after done m) ≡ done ++ actions m
actions-after done (goes more x) = refl
actions-after done (aborts more) = refl

pub Quiet-bind :
    {A B : Type 0} (test : Action → Bool) (m : Part A) (f : A → Part B)
    → Quiet test m
    → ((x : A) → Quiet test (f x))
    → Quiet test (m >>= f)
Quiet-bind test (aborts done) f h g = h
Quiet-bind test (goes done x) f h g =
    ap (chosen test) (actions-after done (f x))
    ∙ chosen-append test done (actions (f x))
    ∙ rw (h, g x) refl

pub Quiet-then :
    {A B : Type 0} (test : Action → Bool) (m : Part A) (n : Part B)
    → Quiet test m
    → Quiet test n
    → Quiet test (m >> n)
Quiet-then test (aborts done) n h g = h
Quiet-then test (goes done x) n h g =
    ap (chosen test) (actions-after done n) ∙ chosen-append test done (actions n) ∙ rw (h, g) refl

-- The functions that make a transaction.
abbrev pub is_queue : LuaFunction → Bool
is_queue perform_queue = true
is_queue queue_install = true
is_queue queue_remove = true
is_queue _ = false

-- A test that takes none of the common actions.
pub record IsSilent (test : Action → Bool) : Type 0 where
  pub on_call :
      (f : LuaFunction) → is_queue f ≡ false → (a : Option Bytes) → test (calls f a) ≡ false
  pub on_error : (e : Option Bytes) → test (reports_error e) ≡ false
  pub on_root : (v : Bytes) → test (sets_env (codes "ROOT_DIR") v) ≡ false
  pub on_hook : (h : HookRun) → test (runs_hook h) ≡ false
  pub on_unlink : (path : Bytes) → test (unlinks path) ≡ false
  pub on_write : (path content : Bytes) → test (writes_file path content) ≡ false
  pub on_ask : test asks_user ≡ false

pub act-Quiet : (test : Action → Bool) (a : Action) → test a ≡ false → Quiet test (act a)
act-Quiet test a h = rw h refl

pub hooks-Quiet :
    (test : Action → Bool) (hs : List HookRun) → IsSilent test → chosen test (map runs_hook hs) ≡ []
hooks-Quiet test [] s = refl
hooks-Quiet test (h ∷ hs) s = rw (s.on_hook h) (hooks-Quiet test hs s)

module _ {V N : Type 0} (o : Outside V N) (test : Action → Bool) (s : IsSilent test) where
  pub try_call-Quiet :
      (f : LuaFunction) (args : List (CArg N))
      → ((a : Option Bytes) → test (calls f a) ≡ false)
      → Quiet test (try_call o f args)
  unfolding try_call
  try_call-Quiet f args h = by (o.answer f args)
    where
      by : (c : Called V) → Quiet test (answered o f (string_arg o args) c)
      by (returned vs) = rw (h (string_arg o args)) refl
      by (failed e) = rw (h (string_arg o args)) refl
      by aborted = rw (h (string_arg o args)) refl
      by wild = rw (h (string_arg o args)) refl

  or_aborts-Quiet : (t : Tried o) → Quiet test (or_aborts o t)
  or_aborts-Quiet (worked vs) = refl
  or_aborts-Quiet (error_text e) = refl

  pub call-Quiet :
      (f : LuaFunction) (args : List (CArg N))
      → ((a : Option Bytes) → test (calls f a) ≡ false)
      → Quiet test (call o f args)
  unfolding call
  call-Quiet f args h =
      Quiet-bind test (try_call o f args) (or_aborts o) (try_call-Quiet f args h) or_aborts-Quiet

  pub collect-Quiet : (spec : Bytes) (vs : List V) → Quiet test (collect o spec vs)
  unfolding collect
  collect-Quiet spec vs = by (interpreter_collect_results o.lua spec vs o.registry).ended
    where
      by :
          (e : Collection)
          → Quiet test
              (if_collected o (interpreter_collect_results o.lua spec vs o.registry).stored e)
      by all_collected = refl
      by (stopped_at n) = refl
      by dies = refl

  pub exactly_one-Quiet : (vs : List V) → Quiet test (exactly_one o vs)
  exactly_one-Quiet [] = refl
  exactly_one-Quiet (v ∷ []) = refl
  exactly_one-Quiet (v ∷ w ∷ vs) = refl

  collected-Quiet :
      (spec : Bytes) (vs : List V) → Quiet test (collect o spec vs >>= collected_bool o)
  collected-Quiet spec vs =
      Quiet-bind test (collect o spec vs) (collected_bool o) (collect-Quiet spec vs) (λ r. refl)

  pub results_interpret-Quiet : (vs : List V) → Quiet test (results_interpret o vs)
  unfolding results_interpret
  results_interpret-Quiet [] = refl
  results_interpret-Quiet (v ∷ []) = collected-Quiet (codes "b") (v ∷ [])
  results_interpret-Quiet (v ∷ w ∷ vs) =
      Quiet-bind test (collect o (codes "-s") (v ∷ w ∷ vs)) (report_message o (v ∷ w ∷ vs))
        (collect-Quiet (codes "-s") (v ∷ w ∷ vs))
        (λ msg.
          Quiet-then test (act (reports_error (one_string o msg)))
            (collect o (codes "b") (v ∷ w ∷ vs) >>= collected_bool o)
            (act-Quiet test (reports_error (one_string o msg)) (s.on_error (one_string o msg)))
            (collected-Quiet (codes "b") (v ∷ w ∷ vs)))

  pub run_hook-Quiet :
      (p : Program) (hook message : Bytes) (env : List Action)
      → chosen test env ≡ []
      → Quiet test (run_hook o p hook env message)
  unfolding run_hook
  run_hook-Quiet p hook message env h =
      let dir = root_dir p.setup.paths ++ hook in
      let runs = exec_hook o.executable (o.listing dir) dir message in
      rw (s.on_root (root_dir p.setup.paths))
        (chosen-append test env (map runs_hook runs) ∙ rw (h, hooks-Quiet test runs s) refl)

  pub approval_clean-Quiet : (file : Option Bytes) → Quiet test (approval_clean o file)
  unfolding approval_clean
  approval_clean-Quiet none = refl
  approval_clean-Quiet (some file) = act-Quiet test (unlinks file) (s.on_unlink file)
