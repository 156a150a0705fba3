-- ===== src/Opmode/Examples.antt =====
-- Runs of src/lib/opmode.c.
use turris_updater.Base.{◌≡◌, refl, Bool, false, [], ◌∷◌, Bytes, codes}
use turris_updater.Opmode.Modes.{
  Modes, returns, raises, boolean, lua_str2opmode, lua_opmode_set, lua_opmode_unset,
  lua_opmode_index,
}
use turris_updater.Opmode.Independent.{then_index, lua_opmode_set-index}

abbrev initial : Modes
initial = false ∷ false ∷ false ∷ []

abbrev no_fields : Bytes → Bool
no_fields name = false

lua_opmode_set-index_run :
    (then_index no_fields (codes "reinstall_all") (lua_opmode_set (codes "no_removal") initial)
      ≡ returns (boolean false))
    × (then_index no_fields (codes "reinstall_all") (lua_opmode_unset (codes "no_removal") initial)
        ≡ returns (boolean false))
unfolding lua_str2opmode lua_opmode_index
lua_opmode_set-index_run =
    lua_opmode_set-index no_fields (codes "no_removal") (codes "reinstall_all") initial refl refl

unknown_raises : lua_opmode_set (codes "x") initial ≡ raises (codes "Setting unknown mode: x")
unfolding lua_opmode_set
unknown_raises = refl
