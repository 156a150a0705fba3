-- ===== src/Arguments/Flags.antt =====
-- src/pkgupdate/arguments.c: what the options of a command line come to.
use turris_updater.Base.{
  ℕ, ◌≡◌, refl, sym, ap, ◌∙◌, subst, Bool, true, false, ◌||◌, List, [], ◌∷◌, ◌++◌, append-nil,
  append_assoc, Bytes, Option-cases, inl, inr,
}
use turris_updater.Arguments.Common.{Setup, Parsed, taken, unknown, usage, dies, ◌>>=◌, parse_opt}
use turris_updater.Arguments.Update.{
  UpdateKey, opt_batch_val, opt_reinstall_all, opt_ask_approval, opt_approve, opt_no_replan,
  opt_no_immediate_reboot, opt_out_of_root, opt_reexec, opt_reboot_finished, argp_key_arg,
  other_key, Program, from_common, or_common, parse_opt_update, parse_update,
}

-- The keys that a flag of the program stands for.
abbrev pub sets_batch : UpdateKey → Bool
sets_batch opt_batch_val = true
sets_batch _ = false

abbrev pub sets_no_replan : UpdateKey → Bool
sets_no_replan opt_no_replan = true
sets_no_replan opt_out_of_root = true
sets_no_replan _ = false

abbrev pub sets_no_immediate_reboot : UpdateKey → Bool
sets_no_immediate_reboot opt_no_immediate_reboot = true
sets_no_immediate_reboot opt_out_of_root = true
sets_no_immediate_reboot _ = false

abbrev pub disables_reboot : UpdateKey → Bool
disables_reboot opt_no_immediate_reboot = true
disables_reboot _ = false

abbrev pub sets_reexec : UpdateKey → Bool
sets_reexec opt_reexec = true
sets_reexec _ = false

abbrev pub sets_reboot_finished : UpdateKey → Bool
sets_reboot_finished opt_reboot_finished = true
sets_reboot_finished _ = false

-- Whether a key is among those of a command line.
abbrev pub given : (UpdateKey → Bool) → List (UpdateKey × Bytes) → Bool
given test [] = false
given test ((key, arg) ∷ keys) = test key || given test keys

abbrev pub approval : UpdateKey → Bytes → List Bytes
approval opt_approve arg = arg ∷ []
approval _ arg = []

-- The arguments of all --approve options.
abbrev pub approvals : List (UpdateKey × Bytes) → List Bytes
approvals [] = []
approvals ((key, arg) ∷ keys) = approval key arg ++ approvals keys

-- The flags after the keys, from those before them.
abbrev pub HasFlags : Program → List (UpdateKey × Bytes) → Program → Type 0
HasFlags p keys q =
    (q.opts.batch ≡ p.opts.batch || given sets_batch keys)
    × (q.opts.no_replan ≡ p.opts.no_replan || given sets_no_replan keys)
    × (q.opts.no_immediate_reboot
        ≡ p.opts.no_immediate_reboot || given sets_no_immediate_reboot keys)
    × (q.reboot_disabled ≡ p.reboot_disabled || given disables_reboot keys)
    × (q.opts.reexec ≡ p.opts.reexec || given sets_reexec keys)
    × (q.opts.reboot_finished ≡ p.opts.reboot_finished || given sets_reboot_finished keys)
    × (q.opts.approve ≡ p.opts.approve ++ approvals keys)

or_true : (b : Bool) → true ≡ b || true
or_true true = refl
or_true false = refl

or_false : (b : Bool) → b ≡ b || false
or_false true = refl
or_false false = refl

or_step : (x t g y z : Bool) → y ≡ x || (t || false) → z ≡ y || g → z ≡ x || (t || g)
or_step true t g y z h k = k ∙ ap (λ b. b || g) h
or_step false true g y z h k = k ∙ ap (λ b. b || g) h
or_step false false g y z h k = k ∙ ap (λ b. b || g) h

-- It holds of the result, if there is one.
abbrev IfTaken : (Program → Type 0) → Parsed Program → Type 0
IfTaken P (taken q) = P q
IfTaken P _ = Unit

HasFlags-none : (p : Program) → HasFlags p [] p
HasFlags-none p = (
  or_false p.opts.batch,
  or_false p.opts.no_replan,
  or_false p.opts.no_immediate_reboot,
  or_false p.reboot_disabled,
  or_false p.opts.reexec,
  or_false p.opts.reboot_finished,
  sym (append-nil p.opts.approve),
)

HasFlags-cons :
    (p q r : Program) (key : UpdateKey) (arg : Bytes) (keys : List (UpdateKey × Bytes))
    → HasFlags p ((key, arg) ∷ []) q
    → HasFlags q keys r
    → HasFlags p ((key, arg) ∷ keys) r
HasFlags-cons p q r key arg keys (b, n, i, d, x, f, a) (b', n', i', d', x', f', a') = (
  or_step p.opts.batch (sets_batch key) (given sets_batch keys) q.opts.batch r.opts.batch b b',
  or_step p.opts.no_replan (sets_no_replan key) (given sets_no_replan keys) q.opts.no_replan
      r.opts.no_replan n n',
  or_step p.opts.no_immediate_reboot (sets_no_immediate_reboot key)
      (given sets_no_immediate_reboot keys) q.opts.no_immediate_reboot r.opts.no_immediate_reboot i
      i',
  or_step p.reboot_disabled (disables_reboot key) (given disables_reboot keys) q.reboot_disabled
      r.reboot_disabled d d',
  or_step p.opts.reexec (sets_reexec key) (given sets_reexec keys) q.opts.reexec r.opts.reexec x x',
  or_step p.opts.reboot_finished (sets_reboot_finished key) (given sets_reboot_finished keys)
      q.opts.reboot_finished r.opts.reboot_finished f f',
  a'
      ∙ ap (λ l. l ++ approvals keys) (a ∙ ap (◌++◌ p.opts.approve) (append-nil (approval key arg)))
      ∙ append_assoc p.opts.approve (approval key arg) (approvals keys),
)

setup-HasFlags :
    (p : Program) (key : ℕ) (arg : Bytes) (s : Parsed Setup)
    → IfTaken (HasFlags p ((other_key key, arg) ∷ [])) (from_common p s)
unfolding from_common
setup-HasFlags p key arg (taken s) = HasFlags-none p
setup-HasFlags p key arg unknown = tt
setup-HasFlags p key arg (usage t) = tt
setup-HasFlags p key arg dies = tt

setup_arg-HasFlags :
    (p : Program) (arg : Bytes) (s : Parsed Setup)
    → IfTaken (HasFlags p ((argp_key_arg, arg) ∷ [])) (from_common p s)
setup_arg-HasFlags p arg s = setup-HasFlags p 0 arg s

one-HasFlags :
    (home cwd : Bytes) (key : UpdateKey) (arg : Bytes) (p : Program)
    → IfTaken
        (HasFlags p ((key, arg) ∷ []))
        (or_common home cwd key arg p (parse_opt_update key arg p))
unfolding or_common parse_opt_update
one-HasFlags home cwd opt_batch_val arg p =
    let h = HasFlags-none p in (or_true p.opts.batch, h.1, h.2, h.3, h.4, h.5, h.6)
one-HasFlags home cwd opt_reinstall_all arg p = HasFlags-none p
one-HasFlags home cwd opt_ask_approval arg p =
    let h = HasFlags-none p in (h.0, h.1, h.2, h.3, h.4, h.5, h.6)
one-HasFlags home cwd opt_approve arg p =
    let h = HasFlags-none p in (h.0, h.1, h.2, h.3, h.4, h.5, refl)
one-HasFlags home cwd opt_no_replan arg p =
    let h = HasFlags-none p in (h.0, or_true p.opts.no_replan, h.2, h.3, h.4, h.5, h.6)
one-HasFlags home cwd opt_no_immediate_reboot arg p =
    let h = HasFlags-none p in
    (h.0, h.1, or_true p.opts.no_immediate_reboot, or_true p.reboot_disabled, h.4, h.5, h.6)
one-HasFlags home cwd opt_out_of_root arg p =
    let h = HasFlags-none p in
    (h.0, or_true p.opts.no_replan, or_true p.opts.no_immediate_reboot, h.3, h.4, h.5, h.6)
one-HasFlags home cwd opt_reexec arg p =
    let h = HasFlags-none p in (h.0, h.1, h.2, h.3, or_true p.opts.reexec, h.5, h.6)
one-HasFlags home cwd opt_reboot_finished arg p =
    let h = HasFlags-none p in (h.0, h.1, h.2, h.3, h.4, or_true p.opts.reboot_finished, h.6)
one-HasFlags home cwd argp_key_arg arg p = elim (Option-cases p.opts.config) [
  | inl e ↦ rw e (HasFlags-none p)
  | inr (c, e) ↦ rw e (setup_arg-HasFlags p arg (parse_opt home cwd 0 arg p.setup))
]
one-HasFlags home cwd (other_key key) arg p =
    setup-HasFlags p key arg (parse_opt home cwd key arg p.setup)

bind-HasFlags :
    (p : Program) (key : UpdateKey) (arg : Bytes) (keys : List (UpdateKey × Bytes))
    (o : Parsed Program) (f : Program → Parsed Program)
    → IfTaken (HasFlags p ((key, arg) ∷ [])) o
    → ((q : Program) → IfTaken (HasFlags q keys) (f q))
    → IfTaken (HasFlags p ((key, arg) ∷ keys)) (o >>= f)
bind-HasFlags p key arg keys unknown f h g = tt
bind-HasFlags p key arg keys (usage t) f h g = tt
bind-HasFlags p key arg keys dies f h g = tt
bind-HasFlags p key arg keys (taken q) f h g = after (f q) (g q)
  where
    after :
        (o : Parsed Program)
        → IfTaken (HasFlags q keys) o
        → IfTaken (HasFlags p ((key, arg) ∷ keys)) o
    after (taken r) k = HasFlags-cons p q r key arg keys h k
    after unknown k = tt
    after (usage t) k = tt
    after dies k = tt

parse_all-HasFlags :
    (home cwd : Bytes) (keys : List (UpdateKey × Bytes)) (p : Program)
    → IfTaken (HasFlags p keys) (parse_update home cwd keys p)
unfolding parse_update
parse_all-HasFlags home cwd [] p = HasFlags-none p
parse_all-HasFlags home cwd ((key, arg) ∷ keys) p =
    bind-HasFlags p key arg keys (or_common home cwd key arg p (parse_opt_update key arg p))
      (parse_update home cwd keys) (one-HasFlags home cwd key arg p)
      (λ q. parse_all-HasFlags home cwd keys q)

-- If a command line of pkgupdate is taken, then whatever the order and the repetition of its options,
-- each flag is set exactly if it was set before or an option for it is given: --out-of-root counts as
-- --no-replan and as --no-immediate-reboot in the options, but only --no-immediate-reboot itself
-- disables the reboot; the approvals are the arguments of --approve in their order.
pub parse_update-HasFlags :
    (home cwd : Bytes) (keys : List (UpdateKey × Bytes)) (p q : Program)
    → parse_update home cwd keys p ≡ taken q
    → HasFlags p keys q
parse_update-HasFlags home cwd keys p q e =
    subst (IfTaken (HasFlags p keys)) e (parse_all-HasFlags home cwd keys p)
