-- ===== src/Logging/Named.antt =====
-- src/lib/logging.c: names of levels, and what a message's level decides.
use turris_updater.Base.{
  ◌≡◌, ◌≢◌, refl, sym, ap, ◌∙◌, true, List, [], ◌∷◌, map, Bytes, bytes_eq, bytes_eq_iff, inl, inr,
  Bool-cases, arith,
}
use turris_updater.Logging.Levels.{
  LogLevel, ll_disable, ll_die, ll_error, ll_warn, ll_info, ll_dbg, ll_trace, ll_unknown, levels,
  all_levels, lower, same_nocase, level_named, log_level_get,
}

named_found :
    (s : Bytes) (ls : List LogLevel)
    → level_named s ls ≢ ll_unknown
    → same_nocase s (levels (level_named s ls)).name ≡ true
unfolding level_named
named_found s [] h = absurd (h refl)
named_found s (l ∷ ls) h = elim (Bool-cases (same_nocase s (levels l).name)) [
  | inl p ↦ ground (arith, p)
  | inr p ↦ ground (arith, p, named_found s ls)
]

lowered : (s t : Bytes) → same_nocase s t ≡ true → map lower s ≡ map lower t
unfolding same_nocase
lowered s t h = (bytes_eq_iff (map lower s) (map lower t)).0 h

-- The look-up reads a name only in lower case.
level_named_cong :
    (s t : Bytes) (ls : List LogLevel)
    → map lower s ≡ map lower t
    → level_named s ls ≡ level_named t ls
unfolding level_named same_nocase
level_named_cong s t [] e = refl
level_named_cong s t (l ∷ ls) e = rw (e, level_named_cong s t ls e)

own_name : (l : LogLevel) → log_level_get (levels l).name ≡ l
unfolding log_level_get level_named same_nocase bytes_eq
own_name ll_disable = refl
own_name ll_die = refl
own_name ll_error = refl
own_name ll_warn = refl
own_name ll_info = refl
own_name ll_dbg = refl
own_name ll_trace = refl
own_name ll_unknown = refl

-- The look-up of a string gives a level exactly when the string is the level's name in some mix of
-- cases, or, for LL_UNKNOWN, when it is the name of no other level.
pub log_level_get-name :
    (s : Bytes) (l : LogLevel)
    → ((same_nocase s (levels l).name ≡ true) → log_level_get s ≡ l)
      × ((log_level_get s ≡ l) → l ≢ ll_unknown → same_nocase s (levels l).name ≡ true)
unfolding log_level_get
log_level_get-name s l = (
  (λ h. level_named_cong s (levels l).name all_levels (lowered s (levels l).name h) ∙ own_name l),
  (λ e u.
      ap (λ k. same_nocase s (levels k).name) (sym e)
      ∙ named_found s all_levels (λ n. u (sym e ∙ n))),
)
