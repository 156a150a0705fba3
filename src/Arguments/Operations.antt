-- ===== src/Arguments/Operations.antt =====
-- src/pkgtransaction/arguments.c and src/lib/arguments.c: the operations that are asked for, and the
-- arguments of a program that calls itself.
use turris_updater.Base.{
  ℕ, zero, suc, ◌+◌, ◌*◌, ◌<◌, ◌≡◌, ap, ◌∙◌, subst, true, false, ◌&&◌, List, [], ◌∷◌, ◌++◌,
  append-nil, append_assoc, none, some, Bytes, codes, length, ◌==◌, Bool-cases, inl, inr,
  if◌then◌else◌, arith,
}
use turris_updater.Arguments.Common.{Parsed, taken, unknown, usage, dies, ◌>>=◌}
use turris_updater.Arguments.Transaction.{
  opt_op_add, opt_op_rem, Operation, TransOpts, new_op, argp_key_end, no_operation, new_opts,
  not_both, parse_opt_transaction, parse_transaction,
}
use turris_updater.Arguments.Reexec.{
  executes, getcwd, getcwd_loop, getcwd_rounds, args_backup, reexec,
}

-- What an option asks for.
abbrev pub operation : ℕ → Bytes → List Operation
operation key arg =
    if key == b'a'
    then record { type = opt_op_add; pkg = arg } ∷ []
    else if key == b'r'
    then record { type = opt_op_rem; pkg = arg } ∷ []
    else []

abbrev pub operations : List (ℕ × Bytes) → List Operation
operations [] = []
operations ((key, arg) ∷ keys) = operation key arg ++ operations keys

abbrev IfTaken : (TransOpts → Type 0) → Parsed TransOpts → Type 0
IfTaken P (taken q) = P q
IfTaken P _ = Unit

-- The operations in the order of the options, not both journal requests, and something to do.
abbrev pub IsAsked : List Operation → TransOpts → Type 0
IsAsked ops q =
    (q.ops ≡ ops) × ((q.journal_abort && q.journal_resume) ≡ false) × (no_operation q ≡ false)

new_opts-ops :
    (key : ℕ) (arg : Bytes) (opts : TransOpts)
    → IfTaken (λ q. q.ops ≡ opts.ops ++ operation key arg) (new_opts key arg opts)
unfolding new_opts new_op
new_opts-ops key arg opts = ground (arith, append-nil opts.ops)

end-IsAsked :
    (opts : TransOpts)
    → IfTaken (IsAsked (opts.ops ++ [])) (parse_opt_transaction argp_key_end [] opts)
unfolding parse_opt_transaction new_opts
end-IsAsked opts = ground (arith, append-nil opts.ops)

more-IsAsked :
    (ops : List Operation) (key : ℕ) (arg : Bytes) (keys : List (ℕ × Bytes)) (q : TransOpts)
    (o : Parsed TransOpts)
    → q.ops ≡ ops ++ operation key arg
    → IfTaken (IsAsked (q.ops ++ operations keys)) o
    → IfTaken (IsAsked (ops ++ operations ((key, arg) ∷ keys))) o
more-IsAsked ops key arg keys q o e h =
    subst (λ l. IfTaken (IsAsked l) o)
      (ap (λ l. l ++ operations keys) e ∙ append_assoc ops (operation key arg) (operations keys)) h

bind-IsAsked :
    (ops : List Operation) (key : ℕ) (arg : Bytes) (keys : List (ℕ × Bytes)) (o : Parsed TransOpts)
    (f : TransOpts → Parsed TransOpts)
    → IfTaken (λ q. q.ops ≡ ops ++ operation key arg) o
    → ((q : TransOpts) → IfTaken (IsAsked (q.ops ++ operations keys)) (f q))
    → IfTaken (IsAsked (ops ++ operations ((key, arg) ∷ keys))) (not_both o >>= f)
unfolding not_both
bind-IsAsked ops key arg keys unknown f h g = tt
bind-IsAsked ops key arg keys (usage t) f h g = tt
bind-IsAsked ops key arg keys dies f h g = tt
bind-IsAsked ops key arg keys (taken q) f h g =
    elim (Bool-cases (q.journal_abort && q.journal_resume)) [
      | inl e ↦ rw e tt
      | inr e ↦ rw e (more-IsAsked ops key arg keys q (f q) h (g q))
    ]

parse_all-IsAsked :
    (keys : List (ℕ × Bytes)) (opts : TransOpts)
    → IfTaken (IsAsked (opts.ops ++ operations keys)) (parse_transaction keys opts)
unfolding parse_transaction parse_opt_transaction
parse_all-IsAsked [] opts = end-IsAsked opts
parse_all-IsAsked ((key, arg) ∷ keys) opts =
    bind-IsAsked opts.ops key arg keys (new_opts key arg opts) (parse_transaction keys)
      (new_opts-ops key arg opts) (parse_all-IsAsked keys)

-- If a command line of pkgtransaction is taken, its operations are those of the options --add and
-- --remove in their order, resuming and aborting the journal are not both asked for, and something is
-- asked for.
pub parse_transaction-IsAsked :
    (keys : List (ℕ × Bytes)) (opts q : TransOpts)
    → parse_transaction keys opts ≡ taken q
    → IsAsked (opts.ops ++ operations keys) q
parse_transaction-IsAsked keys opts q e =
    subst (IfTaken (IsAsked (opts.ops ++ operations keys))) e (parse_all-IsAsked keys opts)

getcwd_loop-finds :
    (cwd : Bytes) (fuel s : ℕ)
    → length cwd < s + 128 * fuel
    → getcwd cwd s ≡ none
    → getcwd_loop fuel s cwd ≡ some cwd
unfolding getcwd_loop getcwd
getcwd_loop-finds cwd zero s h e = absurd (ground arith)
getcwd_loop-finds cwd (suc fuel) s h e =
    ground (arith, getcwd_loop-finds cwd fuel (s + 128) (omega arith))

no_room : (cwd : Bytes) → getcwd cwd 0 ≡ none
unfolding getcwd
no_room cwd = ground arith

-- The loop that saves the working directory ends with the whole path, and a program that saves its
-- arguments and then calls itself runs there with the same arguments, the further ones and --reexec.
pub reexec-args_backup :
    (program : Bytes) (argv args : List Bytes) (cwd : Bytes)
    → (getcwd_loop (getcwd_rounds cwd) 0 cwd ≡ some cwd)
      × (reexec true args (args_backup (program ∷ argv) cwd)
          ≡ executes (some cwd) program (program ∷ argv ++ (args ++ codes "--reexec" ∷ [])))
unfolding reexec args_backup
reexec-args_backup program argv args cwd =
    let found = getcwd_loop-finds cwd (getcwd_rounds cwd) 0 (omega arith) (no_room cwd) in
    (
      found,
      ap (λ wd. executes wd program (program ∷ argv ++ (args ++ codes "--reexec" ∷ []))) found,
    )
