-- ===== src/Subprocess/Signals.antt =====
-- src/lib/subprocess.c: the signals of the time limit, and that it bounds the loop.
use turris_updater.Base.{
  ℕ, ◌+◌, ◌≡◌, ◌∙◌, true, false, List, [], ◌∷◌, ◌++◌, append_assoc, append-nil, some, leb,
  if◌then◌else◌, inl, inr, ◌⊎◌, arith,
}
use turris_updater.Subprocess.Branches.{tests, either}
use turris_updater.Subprocess.Poll.{
  Round, Progress, finished, polling, count_dead, is_sound, is_late, collect, send, poll_loop,
  sigterm, sigkill,
}

-- A round whose clock has reached a limit.
abbrev pub Reaches : ℕ → ℕ → List Round → Type 0
Reaches start limit [] = ⊥
Reaches start limit (r ∷ rs) = (is_late start limit r ≡ true) ⊎ Reaches start limit rs

-- What is sent within a limit: nothing; SIGTERM, once the limit is reached; or SIGTERM and then SIGKILL,
-- once the extended limit is reached after that.
pub data Sends (kill start limit : ℕ) : List Round → List ℕ → Type 0 where
  nothing : (rounds : List Round) → Sends kill start limit rounds []
  term_only :
      (rounds : List Round)
      → Reaches start limit rounds
      → Sends kill start limit rounds (sigterm ∷ [])
  term_and_kill :
      (before after : List Round)
      → Reaches start limit before
      → Reaches start (limit + kill) after
      → Sends kill start limit (before ++ after) (sigterm ∷ sigkill ∷ [])

after_term :
    (kill start limit : ℕ) (rounds : List Round) (p q : Progress)
    → poll_loop kill start rounds (some limit) true p ≡ finished q
    → (q.sent ≡ p.sent) ⊎ ((q.sent ≡ p.sent ++ sigkill ∷ []) × Reaches start limit rounds)
unfolding poll_loop
after_term kill start limit [] p q h = ground arith
after_term kill start limit (r ∷ rs) p q h =
    let more = after_term kill start limit rs (collect r p) q in
    tests (is_sound r) (leb 2 (count_dead r)) (finished (collect r p))
      (if is_late start limit r
        then finished (send sigkill (collect r p))
        else poll_loop kill start rs (some limit) true (collect r p))
      (finished q) h (λ e. ground arith) (λ e. inl (ground arith))
      (λ e.
        either (is_late start limit r) (finished (send sigkill (collect r p)))
          (poll_loop kill start rs (some limit) true (collect r p)) (finished q) e
          (λ l f. inr (ground arith, inl l))
          (λ l f. elim (more f) [ inl s ↦ inl s | inr (s, a) ↦ inr (s, inr a) ]))

Sends-cons :
    (kill start limit : ℕ) (r : Round) (rs : List Round) (s : List ℕ)
    → Sends kill start limit rs s
    → Sends kill start limit (r ∷ rs) s
Sends-cons kill start limit r _ _ (nothing rs) = nothing (r ∷ rs)
Sends-cons kill start limit r _ _ (term_only rs a) = term_only (r ∷ rs) (inr a)
Sends-cons kill start limit r _ _ (term_and_kill before after a b) =
    term_and_kill (r ∷ before) after (inr a) b

-- What was sent since.
abbrev pub HasSent : ℕ → ℕ → ℕ → List Round → Progress → Progress → Type 0
HasSent kill start limit rounds p q =
    (s : List ℕ) × (q.sent ≡ p.sent ++ s) × Sends kill start limit rounds s

sent_late :
    (kill start limit : ℕ) (r : Round) (rs : List Round) (p q : Progress)
    → is_late start limit r ≡ true
    → (q.sent ≡ p.sent ++ sigterm ∷ [])
      ⊎ ((q.sent ≡ (p.sent ++ sigterm ∷ []) ++ sigkill ∷ []) × Reaches start (limit + kill) rs)
    → HasSent kill start limit (r ∷ rs) p q
sent_late kill start limit r rs p q l (inl s) = (sigterm ∷ [], s, term_only (r ∷ rs) (inl l))
sent_late kill start limit r rs p q l (inr (s, a)) = (
  sigterm ∷ sigkill ∷ [],
  s ∙ append_assoc p.sent (sigterm ∷ []) (sigkill ∷ []),
  term_and_kill (r ∷ []) rs (inl l) a,
)

-- The signals of a finished loop with a limit: none, or SIGTERM once the clock has reached the limit, or
-- SIGTERM and then SIGKILL once the clock, in a later round, has also reached the limit extended by
-- the kill timeout. There is never another one.
pub poll_loop-HasSent :
    (kill start limit : ℕ) (rounds : List Round) (p q : Progress)
    → poll_loop kill start rounds (some limit) false p ≡ finished q
    → HasSent kill start limit rounds p q
unfolding poll_loop
poll_loop-HasSent kill start limit [] p q h = ground arith
poll_loop-HasSent kill start limit (r ∷ rs) p q h =
    let more = poll_loop-HasSent kill start limit rs (collect r p) q in
    tests (is_sound r) (leb 2 (count_dead r)) (finished (collect r p))
      (if is_late start limit r
        then poll_loop kill start rs (some (limit + kill)) true (send sigterm (collect r p))
        else poll_loop kill start rs (some limit) false (collect r p))
      (finished q) h (λ e. ground arith)
      (λ e. ([], ground (arith, append-nil p.sent), nothing (r ∷ rs)))
      (λ e.
        either (is_late start limit r)
          (poll_loop kill start rs (some (limit + kill)) true (send sigterm (collect r p)))
          (poll_loop kill start rs (some limit) false (collect r p)) (finished q) e
          (λ l f.
            sent_late kill start limit r rs p q l
              (after_term kill start (limit + kill) rs (send sigterm (collect r p)) q f))
          (λ l f. let (s, t, u) = more f in (s, t, Sends-cons kill start limit r rs s u)))

Reaches-append :
    (start limit : ℕ) (rs ss : List Round) → Reaches start limit ss → Reaches start limit (rs ++ ss)
Reaches-append start limit [] ss h = h
Reaches-append start limit (r ∷ rs) ss h = inr (Reaches-append start limit rs ss h)

ends_after_term :
    (kill start limit : ℕ) (rounds : List Round) (p : Progress)
    → Reaches start limit rounds
    → ¬ (poll_loop kill start rounds (some limit) true p ≡ polling)
unfolding poll_loop
ends_after_term kill start limit [] p a h = a
ends_after_term kill start limit (r ∷ rs) p a h =
    tests (is_sound r) (leb 2 (count_dead r)) (finished (collect r p))
      (if is_late start limit r
        then finished (send sigkill (collect r p))
        else poll_loop kill start rs (some limit) true (collect r p))
      polling h (λ e. ground arith) (λ e. ground arith)
      (λ e.
        either (is_late start limit r) (finished (send sigkill (collect r p)))
          (poll_loop kill start rs (some limit) true (collect r p)) polling e (λ l f. ground arith)
          (λ l f. elim a [
            | inl late ↦ ground arith
            | inr b ↦ ends_after_term kill start limit rs (collect r p) b f
          ]))

-- A time limit bounds the loop: once the clock has reached the limit in one round and the limit
-- extended by the kill timeout in a later one, the loop is over, whatever the process does.
pub poll_loop-ends :
    (kill start limit : ℕ) (before after : List Round) (p : Progress)
    → Reaches start limit before
    → Reaches start (limit + kill) after
    → ¬ (poll_loop kill start (before ++ after) (some limit) false p ≡ polling)
unfolding poll_loop
poll_loop-ends kill start limit [] after p a b h = a
poll_loop-ends kill start limit (r ∷ rs) after p a b h =
    tests (is_sound r) (leb 2 (count_dead r)) (finished (collect r p))
      (if is_late start limit r
        then poll_loop kill start (rs ++ after) (some (limit + kill)) true
            (send sigterm (collect r p))
        else poll_loop kill start (rs ++ after) (some limit) false (collect r p))
      polling h (λ e. ground arith) (λ e. ground arith)
      (λ e.
        either (is_late start limit r)
          (poll_loop kill start (rs ++ after) (some (limit + kill)) true
            (send sigterm (collect r p)))
          (poll_loop kill start (rs ++ after) (some limit) false (collect r p)) polling e
          (λ l f.
            ends_after_term kill start (limit + kill) (rs ++ after) (send sigterm (collect r p))
              (Reaches-append start (limit + kill) rs after b) f)
          (λ l f. elim a [
            | inl late ↦ ground arith
            | inr c ↦ poll_loop-ends kill start limit rs after (collect r p) c b f
          ]))
