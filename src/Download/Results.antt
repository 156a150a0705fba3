-- ===== src/Download/Results.antt =====
-- src/lib/download.c: which instances count as successful and which one is reported as failed.
use turris_updater.Base.{
  ℕ, ◌≡◌, Bool, true, false, ◌&&◌, ◌||◌, List, [], ◌∷◌, Option, none, some, ◌==◌, ==_iff, ==_refl,
  Option-cases, Bool-cases, ◌⊎◌, inl, inr, arith,
}
use turris_updater.Download.State.{Inst, Downloader, returns}
use turris_updater.Download.Transfer.{
  Message, finished, other_message, finish_inst, download_check_info,
}

-- Whether curl reports that the transfer of an instance has ended well, or badly.
abbrev pub reported : ℕ → Bool → List Message → Bool
reported p good [] = false
reported p good (other_message ∷ ms) = reported p good ms
reported p true (finished a true ∷ ms) = a == p || reported p true ms
reported p true (finished a false ∷ ms) = reported p true ms
reported p false (finished a true ∷ ms) = reported p false ms
reported p false (finished a false ∷ ms) = a == p || reported p false ms

-- An instance that counts as successful.
abbrev pub succeeded : Option Inst → Bool
succeeded none = false
succeeded (some i) = i.done && i.success

good_step :
    (a p : ℕ) (i : Inst) (d : Downloader) (ms : List Message)
    → d.memory a ≡ some i
    → succeeded ((finish_inst a true i d).memory p) ≡ true
    → (reported p true (finished a true ∷ ms) ≡ true) ⊎ (succeeded (d.memory p) ≡ true)
unfolding finish_inst
good_step a p i d ms e o = elim (Bool-cases (a == p)) [
  | inl y ↦ inl (ground arith)
  | inr n ↦ inr (ground arith)
]

-- Only what curl reports counts: after the messages are read, an instance counts as successful only if
-- curl reported that it ended well, or it counted so before; and the instance that failed is one
-- that curl reported to have ended badly, or the one from before.
pub check_info-reported :
    (ms : List Message) (d d' : Downloader)
    → download_check_info ms d ≡ returns d'
    → ((p : ℕ)
        → succeeded (d'.memory p) ≡ true
        → (reported p true ms ≡ true) ⊎ (succeeded (d.memory p) ≡ true))
      × ((p : ℕ) → d'.failed ≡ some p → (reported p false ms ≡ true) ⊎ (d.failed ≡ some p))
unfolding download_check_info finish_inst
check_info-reported [] d d' h = (λ p s. inr (ground arith), λ p f. inr (ground arith))
check_info-reported (other_message ∷ ms) d d' h = check_info-reported ms d d' h
check_info-reported (finished a true ∷ ms) d d' h = elim (Option-cases (d.memory a)) [
  | inl n ↦ ground arith
  | inr (i, e) ↦
      let more = check_info-reported ms (finish_inst a true i d) d' (ground arith) in
      (
        λ p s. elim (more.0 p s) [
          | inl r ↦ inl (ground (arith, r))
          | inr o ↦ good_step a p i d ms e o
        ],
        λ p f. elim (more.1 p f) [ inl r ↦ inl r | inr o ↦ inr (ground arith) ],
      )
]
check_info-reported (finished a false ∷ ms) d d' h = elim (Option-cases (d.memory a)) [
  | inl n ↦ ground arith
  | inr (i, e) ↦
      let more = check_info-reported ms (finish_inst a false i d) d' (ground arith) in
      (
        λ p s. elim (more.0 p s) [ inl r ↦ inl r | inr o ↦ inr (ground (arith, ==_iff a p)) ],
        λ p f. elim (more.1 p f) [
          | inl r ↦ inl (ground (arith, r))
          | inr o ↦ inl (ground (arith, ==_refl a))
        ],
      )
]
