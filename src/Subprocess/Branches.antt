-- ===== src/Subprocess/Branches.antt =====
-- src/lib/subprocess.c: the branches of a round of the loop.
use turris_updater.Base.{◌≡◌, refl, Bool, true, false, if◌then◌else◌}
use turris_updater.Subprocess.Poll.{Loop, dies}

module _ {C : Type 0} where
  pub tests :
      (sound dead : Bool) (now next result : Loop)
      → (if sound then if dead then now else next else dies) ≡ result
      → (dies ≡ result → C)
      → (now ≡ result → C)
      → (next ≡ result → C)
      → C
  tests true true now next result h d k l = k h
  tests true false now next result h d k l = l h
  tests false dead now next result h d k l = d h

  -- The same with what the second test says.
  pub tests_dead :
      (sound dead : Bool) (now next result : Loop)
      → (if sound then if dead then now else next else dies) ≡ result
      → (dies ≡ result → C)
      → (dead ≡ true → now ≡ result → C)
      → (dead ≡ false → next ≡ result → C)
      → C
  tests_dead true true now next result h d k l = k refl h
  tests_dead true false now next result h d k l = l refl h
  tests_dead false dead now next result h d k l = d h

  pub either :
      (late : Bool) (x y result : Loop)
      → (if late then x else y) ≡ result
      → ((late ≡ true) → x ≡ result → C)
      → ((late ≡ false) → y ≡ result → C)
      → C
  either true x y result h f g = f refl h
  either false x y result h f g = g refl h
