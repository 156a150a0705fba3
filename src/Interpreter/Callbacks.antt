-- ===== src/Interpreter/Callbacks.antt =====
-- src/lib/interpreter.c: the callbacks of a command that Lua runs are called and let go.
use turris_updater.Base.{
  ℕ, suc, ◌^◌, ◌<◌, ◌≡◌, ap, ◌∙◌, subst, Bool, true, false, List, none, some, Bytes, bytes_eq,
  if◌then◌else◌, arith,
}
use turris_updater.Events.State.{KillStatus}
use turris_updater.Interpreter.Lua.{LuaApi}
use turris_updater.Interpreter.Registry.{Registry, or_nil, register_value, extract_registry_value}
use turris_updater.Interpreter.Registered.{IsFresh, register_value-extract}
use turris_updater.Interpreter.Commands.{
  LuaCall, returns, raises, ◌>>=◌, Callback, command_terminated, value_at, RunRequest, Checked,
  checked_params, made_request, lua_run_generic,
}

abbrev IfReturns : {A : Type 0} → (A → Type 0) → LuaCall A → Type 0
IfReturns P (returns x) = P x
IfReturns P raises = Unit

IfReturns-bind :
    {A B : Type 0} (P : B → Type 0) (o : LuaCall A) (f : A → LuaCall B)
    → ((x : A) → IfReturns P (f x))
    → IfReturns P (o >>= f)
IfReturns-bind P (returns x) f h = h x
IfReturns-bind P raises f h = tt

module _ {V N : Type 0} (lua : LuaApi V N) where
  abbrev Same : Registry lua → Registry lua → Type 0
  Same r r' = (n : Bytes) → r'.values n ≡ r.values n

  -- Extracting depends on the table at the name only, and keeps tables the same that are.
  extract-Same :
      (name : Bytes) (r r' : Registry lua)
      → Same r r'
      → ((extract_registry_value lua name r').1 ≡ (extract_registry_value lua name r).1)
        × Same (extract_registry_value lua name r).0 (extract_registry_value lua name r').0
  unfolding extract_registry_value
  extract-Same name r r' h =
      (ap (or_nil lua) (h name), (λ n. ap (λ v. if bytes_eq name n then none else v) (h n)))

  -- The callback of the end, and the registry as it was before the command.
  abbrev pub IsReleased : V → Registry lua → Callback lua → Type 0
  IsReleased f r cb = (cb.function ≡ f) × Same r cb.registry

  one-IsReleased :
      (v : V) (r : Registry lua) (status : ℕ) (ks : KillStatus) (out err : Bytes)
      → IsFresh lua r
      → suc r.id < 2 ^ 64
      → let kept = register_value lua v r in
        IsReleased v r (
          command_terminated lua
            (record { terminated_callback = kept.1; postfork_callback = none })
            status
            ks
            out
            err
            kept.0)
  unfolding command_terminated
  one-IsReleased v r status ks out err f w =
      let h = register_value-extract lua v r f w in (h.3, h.4)

  next_id :
      (v : V) (r : Registry lua)
      → suc (suc r.id) < 2 ^ 64
      → suc (register_value lua v r).0.id < 2 ^ 64
  unfolding register_value
  next_id v r w = omega arith

  two-IsReleased :
      (v p : V) (r : Registry lua) (status : ℕ) (ks : KillStatus) (out err : Bytes)
      → IsFresh lua r
      → suc (suc r.id) < 2 ^ 64
      → let kept = register_value lua v r in
        let kept' = register_value lua p kept.0 in
        IsReleased v r (
          command_terminated lua
            (record { terminated_callback = kept.1; postfork_callback = some kept'.1 })
            status
            ks
            out
            err
            kept'.0)
  unfolding command_terminated
  two-IsReleased v p r status ks out err f w =
      let h = register_value-extract lua v r f (omega arith) in
      let kept = register_value lua v r in
      let h' = register_value-extract lua p kept.0 h.2 (next_id v r w) in
      let same =
        extract-Same kept.1 kept.0
          (extract_registry_value lua (register_value lua p kept.0).1
            (register_value lua p kept.0).0).0
          h'.4 in
      (same.0 ∙ h.3, (λ n. same.1 n ∙ h.4 n))

  -- What holds of a request when its command ends.
  abbrev pub WhenEnded : V → Registry lua → RunRequest lua → Type 0
  WhenEnded f r req =
      (status : ℕ) (ks : KillStatus) (out err : Bytes)
      → IsReleased f r (command_terminated lua req.data_ status ks out err req.registry)

  made-WhenEnded :
      (no_postfork utils : Bool) (stack : List V) (r : Registry lua) (c : Checked lua)
      → IsFresh lua r
      → suc (suc r.id) < 2 ^ 64
      → WhenEnded (value_at lua stack 1) r (made_request lua no_postfork utils stack r c)
  unfolding made_request
  made-WhenEnded true utils stack r c f w =
      λ status ks out err. one-IsReleased (value_at lua stack 1) r status ks out err f (omega arith)
  made-WhenEnded false utils stack r c f w = λ status ks out err.
      two-IsReleased (value_at lua stack 1) (value_at lua stack 2) r status ks out err f w

  requested :
      (utils : Bool) (stack : List V) (r : Registry lua)
      → IsFresh lua r
      → suc (suc r.id) < 2 ^ 64
      → IfReturns (WhenEnded (value_at lua stack 1) r) (lua_run_generic lua utils stack r)
  unfolding lua_run_generic
  requested utils stack r f w =
      let no_postfork = lua.is_nil (value_at lua stack 2) in
      IfReturns-bind (WhenEnded (value_at lua stack 1) r) (checked_params lua stack)
        (λ c. returns (made_request lua no_postfork utils stack r c))
        (λ c. made-WhenEnded no_postfork utils stack r c f w)

  -- If the counter of the registry does not wrap around: when a command that Lua has started ends, with
  -- whatever status and output, the function that is called is the first argument of the start, and
  -- none of its callbacks is in the registry any more, the one for the child included.
  pub command_terminated-IsReleased :
      (utils : Bool) (stack : List V) (r : Registry lua) (req : RunRequest lua) (status : ℕ)
      (ks : KillStatus) (out err : Bytes)
      → IsFresh lua r
      → suc (suc r.id) < 2 ^ 64
      → lua_run_generic lua utils stack r ≡ returns req
      → IsReleased
          (value_at lua stack 1)
          r
          (command_terminated lua req.data_ status ks out err req.registry)
  command_terminated-IsReleased utils stack r req status ks out err f w e =
      subst (IfReturns (WhenEnded (value_at lua stack 1) r)) e (requested utils stack r f w) status
        ks out err
