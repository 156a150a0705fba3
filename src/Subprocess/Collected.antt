-- ===== src/Subprocess/Collected.antt =====
-- src/lib/subprocess.c: what the loop collects, and that it ends.
use turris_updater.Base.{
  ℕ, ◌+◌, ◌≡◌, refl, ap, sym, ◌∙◌, Bool, true, false, All, ◌⊎◌, inl, inr, List, [], ◌∷◌, ◌++◌,
  append_assoc, append-nil, Option, none, some, Bytes, leb, if◌then◌else◌, arith,
}
use turris_updater.Subprocess.Branches.{tests_dead, either}
use turris_updater.Subprocess.Poll.{
  Round, Progress, finished, sigkill, piped, count_dead, is_sound, is_late, collect, send,
  poll_loop,
}

-- Everything that the rounds read from the two pipes.
abbrev pub all_out : List Round → Bytes
all_out [] = []
all_out (r ∷ rs) = piped r.out_pipe ++ all_out rs

abbrev pub all_err : List Round → Bytes
all_err [] = []
all_err (r ∷ rs) = piped r.err_pipe ++ all_err rs

-- In a round both pipes are at their end, or the process has ended.
abbrev pub is_over : Round → Bool
is_over r = leb 2 (count_dead r)

-- The loop went through some rounds that were not the end, and a last one that was, or after which
-- SIGKILL was sent; all that these rounds read has been written, in order.
abbrev pub HasCollected : List Round → Progress → Progress → Type 0
HasCollected rounds p q =
    (earlier : List Round) × (last : Round) × (rest : List Round) × (rounds
      ≡ earlier ++ last ∷ rest)
    × (q.out ≡ p.out ++ all_out (earlier ++ last ∷ []))
    × (q.err ≡ p.err ++ all_err (earlier ++ last ∷ []))
    × All (λ r. is_over r ≡ false) earlier
    × ((is_over last ≡ true) ⊎ ((sent : List ℕ) × (q.sent ≡ sent ++ sigkill ∷ [])))

collected_now :
    (r : Round) (rs : List Round) (p q : Progress)
    → q.out ≡ p.out ++ piped r.out_pipe
    → q.err ≡ p.err ++ piped r.err_pipe
    → (is_over r ≡ true) ⊎ ((sent : List ℕ) × (q.sent ≡ sent ++ sigkill ∷ []))
    → HasCollected (r ∷ rs) p q
collected_now r rs p q o e over = (
  [],
  r,
  rs,
  refl,
  o ∙ ap (λ b. p.out ++ b) (sym (append-nil (piped r.out_pipe))),
  e ∙ ap (λ b. p.err ++ b) (sym (append-nil (piped r.err_pipe))),
  tt,
  over,
)

collected_more :
    (r : Round) (rs : List Round) (p p1 q : Progress)
    → p1.out ≡ p.out ++ piped r.out_pipe
    → p1.err ≡ p.err ++ piped r.err_pipe
    → is_over r ≡ false
    → HasCollected rs p1 q
    → HasCollected (r ∷ rs) p q
collected_more r rs p p1 q o e n (earlier, last, rest, s, o1, e1, all, over) =
    let outs = all_out (earlier ++ last ∷ []) in
    let errs = all_err (earlier ++ last ∷ []) in
    (
      r ∷ earlier,
      last,
      rest,
      ap (◌∷◌ r) s,
      o1 ∙ ap (λ b. b ++ outs) o ∙ append_assoc p.out (piped r.out_pipe) outs,
      e1 ∙ ap (λ b. b ++ errs) e ∙ append_assoc p.err (piped r.err_pipe) errs,
      (n, all),
      over,
    )

-- When the loop finishes, it has gone through some rounds in which the process had not ended and a pipe
-- was open, and one last round in which that was not so or after which SIGKILL was sent; and what it has
-- written to each of the two files is what all these rounds read from the pipe, in their order.
pub poll_loop-HasCollected :
    (kill start : ℕ) (rounds : List Round) (limit : Option ℕ) (term_sent : Bool) (p q : Progress)
    → poll_loop kill start rounds limit term_sent p ≡ finished q
    → HasCollected rounds p q
unfolding poll_loop
poll_loop-HasCollected kill start [] limit term p q h = ground arith
poll_loop-HasCollected kill start (r ∷ rs) none term p q h =
    tests_dead (is_sound r) (leb 2 (count_dead r)) (finished (collect r p))
      (poll_loop kill start rs none term (collect r p)) (finished q) h (λ e. ground arith)
      (λ y e. collected_now r rs p q (ground arith) (ground arith) (inl y))
      (λ n e.
        collected_more r rs p (collect r p) q refl refl n
          (poll_loop-HasCollected kill start rs none term (collect r p) q e))
poll_loop-HasCollected kill start (r ∷ rs) (some t) true p q h =
    tests_dead (is_sound r) (leb 2 (count_dead r)) (finished (collect r p))
      (if is_late start t r
        then finished (send 9 (collect r p))
        else poll_loop kill start rs (some t) true (collect r p))
      (finished q) h (λ e. ground arith)
      (λ y e. collected_now r rs p q (ground arith) (ground arith) (inl y))
      (λ n e.
        either (is_late start t r) (finished (send 9 (collect r p)))
          (poll_loop kill start rs (some t) true (collect r p)) (finished q) e
          (λ l f. collected_now r rs p q (ground arith) (ground arith) (inr (p.sent, ground arith)))
          (λ l f.
            collected_more r rs p (collect r p) q refl refl n
              (poll_loop-HasCollected kill start rs (some t) true (collect r p) q f)))
poll_loop-HasCollected kill start (r ∷ rs) (some t) false p q h =
    tests_dead (is_sound r) (leb 2 (count_dead r)) (finished (collect r p))
      (if is_late start t r
        then poll_loop kill start rs (some (t + kill)) true (send 15 (collect r p))
        else poll_loop kill start rs (some t) false (collect r p))
      (finished q) h (λ e. ground arith)
      (λ y e. collected_now r rs p q (ground arith) (ground arith) (inl y))
      (λ n e.
        either (is_late start t r)
          (poll_loop kill start rs (some (t + kill)) true (send 15 (collect r p)))
          (poll_loop kill start rs (some t) false (collect r p)) (finished q) e
          (λ l f. collected_more r rs p (send 15 (collect r p)) q refl refl n (
            poll_loop-HasCollected kill start rs (some (t + kill)) true (send 15 (collect r p)) q
              f))
          (λ l f.
            collected_more r rs p (collect r p) q refl refl n
              (poll_loop-HasCollected kill start rs (some t) false (collect r p) q f)))
