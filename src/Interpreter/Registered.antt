-- ===== src/Interpreter/Registered.antt =====
-- src/lib/interpreter.c: the names of the registry are all different, and a value comes back.
use turris_updater.Base.{
  ℕ, zero, suc, ◌+◌, ◌-◌, ◌*◌, ◌/◌, ◌%◌, ◌^◌, ◌≤◌, ◌<◌, ◌≡◌, ◌≢◌, refl, sym, ap, ◌∙◌, [], ◌∷◌, ◌++◌,
  Option, none, Bytes, bytes_eq, bytes_eq_iff, bytes_eq_refl, codes, ltb, Bool-cases, inl, inr,
  arith,
}
use turris_updater.Interpreter.Lua.{LuaApi}
use turris_updater.Interpreter.Registry.{
  digits, value_name, Registry, put_value, unless_nil, register_value, or_nil,
  extract_registry_value,
}

-- The number that digits stand for.
abbrev number : ℕ → Bytes → ℕ
number acc [] = acc
number acc (c ∷ cs) = number (10 * acc + (c - 48)) cs

number-append :
    (acc : ℕ) (cs : Bytes) (c : ℕ) → number acc (cs ++ c ∷ []) ≡ 10 * number acc cs + (c - 48)
number-append acc [] c = refl
number-append acc (d ∷ ds) c = number-append (10 * acc + (d - 48)) ds c

number-digits : (fuel n : ℕ) → n < fuel → number 0 (digits fuel n) ≡ n
unfolding digits
number-digits zero n h = absurd (omega arith)
number-digits (suc fuel) n h = elim (Bool-cases (ltb n 10)) [
  | inl p ↦ ground arith
  | inr p ↦
      ground
        (arith, number-digits fuel (n / 10), number-append 0 (digits fuel (n / 10)) (48 + n % 10))
]

after_dash : (cs ds : Bytes) → codes "val-" ++ cs ≡ codes "val-" ++ ds → cs ≡ ds
after_dash cs ds e = ground (arith, e)

value_name-injective : (m n : ℕ) → value_name m ≡ value_name n → m ≡ n
unfolding value_name
value_name-injective m n e =
    sym (number-digits (suc m) m (omega arith))
    ∙ ap (number 0) (after_dash (digits (suc m) m) (digits (suc n) n) e)
    ∙ number-digits (suc n) n (omega arith)

module _ {V N : Type 0} (lua : LuaApi V N) where
  -- The names that are still to come are not in use.
  abbrev pub IsFresh : Registry lua → Type 0
  IsFresh r = (r.id < 2 ^ 64) × ((k : ℕ) → r.id ≤ k → k < 2 ^ 64 → r.values (value_name k) ≡ none)

  put-same :
      (name : Bytes) (v : Option V) (r : Registry lua) → (put_value lua name v r).values name ≡ v
  put-same name v r = rw (bytes_eq_refl name)

  put-other :
      (name other : Bytes) (v : Option V) (r : Registry lua)
      → name ≢ other
      → (put_value lua name v r).values other ≡ r.values other
  put-other name other v r h = elim (Bool-cases (bytes_eq name other)) [
    | inl p ↦ absurd (h ((bytes_eq_iff name other).0 p))
    | inr p ↦ rw p
  ]

  stored-back : (v : V) → or_nil lua (unless_nil lua v) ≡ v
  stored-back v = elim (Bool-cases (lua.is_nil v)) [
    | inl p ↦ rw p (sym (lua.nil_only v p))
    | inr p ↦ rw p
  ]

  -- After a value was put under a name that was free and taken out, the table is what it was.
  put-put :
      (name n : Bytes) (v : Option V) (r : Registry lua)
      → r.values name ≡ none
      → (put_value lua name none (put_value lua name v r)).values n ≡ r.values n
  put-put name n v r free = elim (Bool-cases (bytes_eq name n)) [
    | inl p ↦ rw p (sym free ∙ ap r.values ((bytes_eq_iff name n).0 p))
    | inr p ↦ rw p
  ]

  -- As long as the counter does not wrap around: a value is registered under a name that was free and
  -- nothing else changes; extracting the name gives the value and leaves the table as it was; and the
  -- names to come stay free.
  pub register_value-extract :
      (v : V) (r : Registry lua)
      → IsFresh r
      → suc r.id < 2 ^ 64
      → let kept = register_value lua v r in
        let back = extract_registry_value lua kept.1 kept.0 in
        (r.values kept.1 ≡ none)
        × ((n : Bytes) → kept.1 ≢ n → kept.0.values n ≡ r.values n)
        × IsFresh kept.0
        × (back.1 ≡ v)
        × ((n : Bytes) → back.0.values n ≡ r.values n)
  unfolding register_value extract_registry_value
  register_value-extract v r (b, free) w =
      let name = value_name r.id in
      (
        free r.id (omega arith) b,
        (λ n h. put-other name n (unless_nil lua v) r h),
        (
          omega arith,
          (λ k l u.
              put-other name (value_name k) (unless_nil lua v) r
                (λ e. absurd (omega (arith, value_name-injective r.id k e)))
              ∙ free k (omega arith) u),
        ),
        ap (or_nil lua) (put-same name (unless_nil lua v) r) ∙ stored-back v,
        (λ n. put-put name n (unless_nil lua v) r (free r.id (omega arith) b)),
      )
