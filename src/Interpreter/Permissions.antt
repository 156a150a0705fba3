-- ===== src/Interpreter/Permissions.antt =====
-- src/lib/interpreter.c: the permissions as text, against those of ls.
use turris_updater.Base.{
  ℕ, zero, suc, ◌≡◌, refl, ap, ◌∙◌, Bool, true, false, ◌&&◌, List, [], ◌∷◌, Bytes, codes, set,
  if◌then◌else◌, arith,
}
use turris_updater.Interpreter.Stat.{bit, has_bits, PermDef, perm_defs, apply_defs, perm2str}

abbrev pub flag : Bool → ℕ → ℕ
flag b letter = if b then letter else b'-'

-- The place of the x, with a bit that changes its letter.
abbrev pub execution : Bool → Bool → ℕ → ℕ → ℕ
execution special x both alone = if special then (if x then both else alone) else flag x b'x'

-- What ls -l prints, with the letters for a sticky bit as parameters: `t` is with the right of others
-- to execute in ls, and `T` without.
abbrev pub permissions : ℕ → ℕ → ℕ → Bytes
permissions sticky_both sticky_alone mode =
    flag (bit mode 8) b'r'
    ∷ flag (bit mode 7) b'w'
    ∷ execution (bit mode 11) (bit mode 6) b's' b'S'
    ∷ flag (bit mode 5) b'r'
    ∷ flag (bit mode 4) b'w'
    ∷ execution (bit mode 10) (bit mode 3) b's' b'S'
    ∷ flag (bit mode 2) b'r'
    ∷ flag (bit mode 1) b'w'
    ∷ execution (bit mode 9) (bit mode 0) sticky_both sticky_alone
    ∷ []

abbrev changed : Bytes → ℕ → (ℕ → ℕ) → Bytes
changed [] pos f = []
changed (c ∷ cs) zero f = f c ∷ cs
changed (c ∷ cs) (suc pos) f = c ∷ changed cs pos f

set-changed :
    (b : Bool) (perm : Bytes) (pos letter : ℕ)
    → (if b then set perm pos letter else perm)
      ≡ changed perm pos (λ old. if b then letter else old)
set-changed b [] pos letter = ground arith
set-changed true (c ∷ cs) zero letter = refl
set-changed false (c ∷ cs) zero letter = refl
set-changed true (c ∷ cs) (suc pos) letter = ap (◌∷◌ c) (set-changed true cs pos letter)
set-changed false (c ∷ cs) (suc pos) letter = ap (◌∷◌ c) (set-changed false cs pos letter)

abbrev change_all : ℕ → List PermDef → Bytes → Bytes
change_all mode [] perm = perm
change_all mode (d ∷ ds) perm =
    change_all mode ds (changed perm d.pos (λ old. if has_bits mode d.mask then d.letter else old))

apply-change_all :
    (mode : ℕ) (ds : List PermDef) (perm : Bytes)
    → apply_defs mode ds perm ≡ change_all mode ds perm
unfolding apply_defs
apply-change_all mode [] perm = refl
apply-change_all mode (d ∷ ds) perm =
    ap (apply_defs mode ds) (set-changed (has_bits mode d.mask) perm d.pos d.letter)
    ∙ apply-change_all mode ds
        (changed perm d.pos (λ old. if has_bits mode d.mask then d.letter else old))

flag-change : (b : Bool) (letter : ℕ) → (if b && true then letter else b'-') ≡ flag b letter
flag-change true letter = refl
flag-change false letter = refl

execution-change :
    (special x : Bool) (both alone : ℕ)
    → (if special && (x && true)
        then both
        else if special && true
        then alone
        else if x && true
        then b'x'
        else b'-')
      ≡ execution special x both alone
execution-change true true both alone = refl
execution-change true false both alone = refl
execution-change false true both alone = refl
execution-change false false both alone = refl

-- The permissions are those that ls prints, for every mode, but with the letters `t` and `T` of the
-- sticky bit exchanged: `T` is with the right of others to execute, and `t` without.
pub perm2str-permissions : (mode : ℕ) → perm2str mode ≡ permissions b'T' b't' mode
unfolding perm2str
perm2str-permissions mode =
    apply-change_all mode perm_defs (codes "---------")
    ∙ rw
        (
          flag-change (bit mode 8) b'r',
          flag-change (bit mode 7) b'w',
          execution-change (bit mode 11) (bit mode 6) b's' b'S',
          flag-change (bit mode 5) b'r',
          flag-change (bit mode 4) b'w',
          execution-change (bit mode 10) (bit mode 3) b's' b'S',
          flag-change (bit mode 2) b'r',
          flag-change (bit mode 1) b'w',
          execution-change (bit mode 9) (bit mode 0) b'T' b't',
        )
        refl
