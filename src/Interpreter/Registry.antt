-- ===== src/Interpreter/Registry.antt =====
-- src/lib/interpreter.c: values that are kept for C code, under names that are made for them.
use turris_updater.Base.{
  ℕ, zero, suc, ◌+◌, ◌/◌, ◌%◌, ◌^◌, [], ◌∷◌, ◌++◌, Option, none, some, Bytes, bytes_eq, codes, ltb,
  if◌then◌else◌,
}
use turris_updater.Interpreter.Lua.{LuaApi}

-- The digits of a number, as snprintf prints it; the fuel is more than the number.
unfoldable pub digits : ℕ → ℕ → Bytes
digits zero n = []
digits (suc fuel) n =
    let rest = digits fuel (n / 10) in
    if ltb n 10 then (48 + n) ∷ [] else rest ++ (48 + n % 10) ∷ []

-- snprintf(result, max_len, "val-%" PRIu64, id)
unfoldable pub value_name : ℕ → Bytes
unfolding digits
value_name id = codes "val-" ++ digits (suc id) id

module _ {V N : Type 0} (lua : LuaApi V N) where
  -- The counter and the table; a field that is nil is not there.
  pub record Registry : Type 0 where
    pub id : ℕ
    pub values : Bytes → Option V

  abbrev pub put_value : Bytes → Option V → Registry → Registry
  put_value name v r = record r { values = λ n. if bytes_eq name n then v else r.values n }

  abbrev pub unless_nil : V → Option V
  unless_nil v = if lua.is_nil v then none else some v

  -- The name under which the value is now. The counter has 64 bits.
  unfoldable pub register_value : V → Registry → Registry × Bytes
  unfolding value_name
  register_value v r =
      let name = value_name r.id in
      (record (put_value name (unless_nil v) r) { id = (r.id + 1) % 2 ^ 64 }, name)

  abbrev pub or_nil : Option V → V
  or_nil none = lua.nil
  or_nil (some v) = v

  -- The value, which is then not in the table any more.
  unfoldable pub extract_registry_value : Bytes → Registry → Registry × V
  extract_registry_value name r = (put_value name none r, or_nil (r.values name))

  unfoldable pub interpreter_registry_release : Bytes → Registry → Registry
  unfolding extract_registry_value
  interpreter_registry_release name r = (extract_registry_value name r).0
