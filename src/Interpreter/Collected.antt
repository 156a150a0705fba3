-- ===== src/Interpreter/Collected.antt =====
-- src/lib/interpreter.c: which results are collected and what is stored of them, against a description of
-- the letters.
use turris_updater.Base.{
  ℕ, ◌+◌, ◌≡◌, Bool, true, false, ◌⊎◌, List, [], ◌∷◌, Option, none, some, Bytes, codes, take, drop,
  ◌==◌, ◌||◌,
}
use turris_updater.Interpreter.Lua.{LuaApi}
use turris_updater.Interpreter.Registry.{Registry}
use turris_updater.Interpreter.Results.{
  Stored, as_bool, as_int, as_string, as_bytes, as_double, as_name, Collection, all_collected,
  stopped_at, dies, Reading, misfit, skip, store, keep, no_letter, Results,
}

-- The letters that stand for a type.
abbrev pub among : ℕ → Bytes → Bool
among c [] = false
among c (b ∷ bs) = (c == b) || among c bs

abbrev pub is_type_letter : ℕ → Bool
is_type_letter c = among c (codes "bin-sSfr")

abbrev pub also : {N : Type 0} → Option (Stored N) → List (Stored N) → List (Stored N)
also none rest = rest
also (some s) rest = s ∷ rest

module _ {V N : Type 0} (lua : LuaApi V N) where
  -- The letter takes the value, and stores this of it, or nothing.
  abbrev pub Takes : ℕ → V → Option (Stored N) → Type 0
  Takes c v none = ((c ≡ b'n') × (lua.is_nil v ≡ true)) ⊎ (c ≡ b'-')
  Takes c v (some (as_bool b)) = (c ≡ b'b') × (b ≡ lua.to_boolean v)
  Takes c v (some (as_int i)) = (c ≡ b'i') × (lua.is_number v ≡ true) × (i ≡ lua.to_integer v)
  Takes c v (some (as_string t)) =
      (c ≡ b's')
      × (((lua.is_string v ≡ true) × (t ≡ lua.to_text v))
          ⊎ ((lua.is_string v ≡ false) × (lua.is_nil v ≡ true) × (t ≡ none)))
  Takes c v (some (as_bytes t)) = (c ≡ b'S') × (lua.is_string v ≡ true) × (t ≡ lua.to_text v)
  Takes c v (some (as_double d)) = (c ≡ b'f') × (lua.is_number v ≡ true) × (d ≡ lua.to_number v)
  Takes c v (some (as_name n)) = c ≡ b'r'

  abbrev pub Refuses : ℕ → V → Type 0
  Refuses c v = (o : Option (Stored N)) → ¬ Takes c v o

  -- There is a value for each letter, the letter takes it, and this is what they store.
  abbrev pub Fits : Bytes → List V → List (Stored N) → Type 0
  Fits [] vs ss = ss ≡ []
  Fits (c ∷ spec) [] ss = ⊥
  Fits (c ∷ spec) (v ∷ vs) ss =
      (o : Option (Stored N)) × (rest : List (Stored N)) × Takes c v o
      × (ss ≡ also o rest)
      × Fits spec vs rest

  -- The first letter has no value, or it is one of the letters and refuses its value.
  abbrev pub Stops : Bytes → List V → Type 0
  Stops [] vs = ⊥
  Stops (c ∷ spec) [] = Unit
  Stops (c ∷ spec) (v ∷ vs) = (is_type_letter c ≡ true) × Refuses c v

  -- The first letter has a value but is none of the letters.
  abbrev pub IsUnknown : Bytes → List V → Type 0
  IsUnknown [] vs = ⊥
  IsUnknown (c ∷ spec) [] = ⊥
  IsUnknown (c ∷ spec) (v ∷ vs) = is_type_letter c ≡ false

  -- What the result says of all the letters, and what is stored.
  abbrev pub TellsAll : Bytes → List V → List (Stored N) → Collection → Type 0
  TellsAll spec vs ss all_collected = Fits spec vs ss
  TellsAll spec vs ss (stopped_at n) = Fits (take n spec) vs ss × Stops (drop n spec) (drop n vs)
  TellsAll spec vs ss dies =
      (n : ℕ) × Fits (take n spec) vs ss × IsUnknown (drop n spec) (drop n vs)

  -- What a reading says of a letter and a value.
  abbrev Says : ℕ → V → Reading lua → Type 0
  Says c v misfit = (is_type_letter c ≡ true) × Refuses c v
  Says c v skip = Takes c v none
  Says c v (store s) = Takes c v (some s)
  Says c v keep = c ≡ b'r'
  Says c v no_letter = is_type_letter c ≡ false

  -- A letter whose test fails.
  abbrev Fails : ℕ → V → Type 0
  Fails c v =
      ((c ≡ b'n') × (lua.is_nil v ≡ false))
      ⊎ ((c ≡ b'i') × (lua.is_number v ≡ false))
      ⊎ ((c ≡ b's') × (lua.is_string v ≡ false) × (lua.is_nil v ≡ false))
      ⊎ ((c ≡ b'S') × (lua.is_string v ≡ false))
      ⊎ ((c ≡ b'f') × (lua.is_number v ≡ false))

  -- The same as `TellsAll` when the loop began at a position.
  abbrev Tells : Bytes → List V → ℕ → List (Stored N) → Collection → Type 0
  Tells spec vs pos ss all_collected = Fits spec vs ss
  Tells spec vs pos ss (stopped_at n) =
      (k : ℕ) × (n ≡ pos + k) × Fits (take k spec) vs ss × Stops (drop k spec) (drop k vs)
  Tells spec vs pos ss dies =
      (k : ℕ) × Fits (take k spec) vs ss × IsUnknown (drop k spec) (drop k vs)
