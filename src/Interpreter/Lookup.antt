-- ===== src/Interpreter/Lookup.antt =====
-- src/lib/interpreter.c: a path of names finds what the names find one after the other.
use turris_updater.Base.{
  ℕ, zero, suc, ◌≤◌, ◌≡◌, refl, ap, ◌∙◌, false, List, [], ◌∷◌, ◌++◌, none, some, Bytes, All, length,
  length-append, ◌==◌, ==_refl, arith,
}
use mathlib.Core.Path.{fun_ext}
use turris_updater.Interpreter.Lua.{LuaApi}
use turris_updater.Interpreter.Call.{
  split_at, Found, with_table, with_function, lookup_method, lookup_function,
}

-- A separator is not among the bytes.
abbrev pub Lacks : ℕ → Bytes → Type 0
Lacks sep name = All (λ c. (c == sep) ≡ false) name

-- Names before the last one, each with its dot.
abbrev pub dotted : List Bytes → Bytes → Bytes
dotted [] last = last
dotted (name ∷ names) last = name ++ b'.' ∷ dotted names last

split_at-first :
    (sep : ℕ) (name rest : Bytes)
    → Lacks sep name
    → split_at sep (name ++ sep ∷ rest) ≡ some (name, rest)
unfolding split_at
split_at-first sep [] rest h = rw (==_refl sep) refl
split_at-first sep (c ∷ cs) rest h = rw (h.0, split_at-first sep cs rest h.1) refl

split_at-none : (sep : ℕ) (name : Bytes) → Lacks sep name → split_at sep name ≡ none
unfolding split_at
split_at-none sep [] h = refl
split_at-none sep (c ∷ cs) h = rw (h.0, split_at-none sep cs h.1) refl

Lacks-append : (sep : ℕ) (xs ys : Bytes) → Lacks sep xs → Lacks sep ys → Lacks sep (xs ++ ys)
Lacks-append sep [] ys h k = k
Lacks-append sep (x ∷ xs) ys h k = (h.0, Lacks-append sep xs ys h.1 k)

module _ {V N : Type 0} (lua : LuaApi V N) where
  -- The table that the names lead to.
  abbrev pub walk : List Bytes → V → (V → Found V) → Found V
  walk [] table f = f table
  walk (name ∷ names) table f = with_table (lua.field table name) (λ t. walk names t f)

  lookup-dotted :
      (names : List Bytes) (last : Bytes) (fuel : ℕ) (table : V)
      → All (Lacks b'.') names
      → Lacks b'.' last
      → length (dotted names last) ≤ fuel
      → lookup_function lua fuel table (dotted names last)
        ≡ walk names table (λ t. lookup_method lua t last (split_at b':' last))
  unfolding lookup_function
  lookup-dotted [] last zero table h k l = refl
  lookup-dotted [] last (suc fuel) table h k l =
      rw (lookup_function, split_at-none b'.' last k) refl
  lookup-dotted (name ∷ names) last zero table h k l =
      absurd (omega (arith, length-append name (b'.' ∷ dotted names last)))
  lookup-dotted (name ∷ names) last (suc fuel) table h k l =
      rw (lookup_function, split_at-first b'.' name (dotted names last) h.0)
        (ap (with_table (lua.field table name)) (
          fun_ext (λ t.
            lookup-dotted names last fuel t h.1 k
              (omega (arith, length-append name (b'.' ∷ dotted names last))))))

  -- A function is found under names with dots between them by looking up each in the table that the
  -- one before it gives, however many there are, and under a method's name in the last table, which
  -- is then its first parameter.
  pub lookup_function-walk :
      (names : List Bytes) (last method : Bytes) (globals : V)
      → All (Lacks b'.') names
      → Lacks b'.' last
      → Lacks b':' last
      → Lacks b'.' method
      → (let f = dotted names last in
          lookup_function lua (length f) globals f
          ≡ walk names globals (λ t. with_function [] (lua.field t last)))
        × (let f = dotted names (last ++ b':' ∷ method) in
            lookup_function lua (length f) globals f
            ≡ walk names globals (λ t.
              with_table
                (lua.field t last)
                (λ self. with_function (self ∷ []) (lua.field self method))))
  unfolding lookup_method
  lookup_function-walk names last method globals h k l m = (
    lookup-dotted names last (length (dotted names last)) globals h k (omega arith)
        ∙ ap (walk names globals)
            (fun_ext (λ t. ap (lookup_method lua t last) (split_at-none b':' last l))),
    lookup-dotted names (last ++ b':' ∷ method) (length (dotted names (last ++ b':' ∷ method)))
          globals h (Lacks-append b'.' last (b':' ∷ method) k (refl, m)) (omega arith)
        ∙ ap (walk names globals) (
            fun_ext (λ t.
              ap (lookup_method lua t (last ++ b':' ∷ method))
                (split_at-first b':' last method l))),
  )
