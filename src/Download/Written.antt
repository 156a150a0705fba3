-- ===== src/Download/Written.antt =====
-- src/lib/download.c: what the write callback of curl writes.
use Prim.Native.Nat.{min}
use turris_updater.Base.{
  ℕ, zero, suc, ◌+◌, ◌-◌, ◌<◌, ◌≤◌, ◌≡◌, refl, ap, sym, ◌∙◌, List, [], ◌∷◌, ◌++◌, Bytes, take,
  length, length-append, length-take, append-nil, arith,
}
use turris_updater.Download.State.{returns, writing}
use turris_updater.Download.Transfer.{write_loop}

pub take-all : {A : Type 0} (xs : List A) (n : ℕ) → length xs ≤ n → take n xs ≡ xs
take-all [] zero h = refl
take-all [] (suc n) h = refl
take-all (x ∷ xs) zero h = absurd (omega arith)
take-all (x ∷ xs) (suc n) h = ap (◌∷◌ x) (take-all xs n (omega arith))

-- As many bytes as curl gave are written in the end, whatever fwrite takes at once, if the writing
-- ends.
pub write_loop-size :
    (answers : List ℕ) (ptr : Bytes) (remb : ℕ) (output output' : Bytes)
    → remb ≤ length ptr
    → write_loop answers ptr remb output ≡ returns output'
    → length output' ≡ length output + remb
unfolding write_loop
write_loop-size answers ptr zero output output' l h = ground arith
write_loop-size [] ptr (suc remb) output output' l h = ground arith
write_loop-size (n ∷ answers) ptr (suc remb) output output' l h = ground (
  arith,
  write_loop-size answers ptr (suc remb - min n (suc remb)) (output ++ take (min n (suc remb)) ptr)
      output',
  length-append output (take (min n (suc remb)) ptr),
  length-take (min n (suc remb)) ptr,
)

-- fwrite fails again and again.
abbrev pub zeros : ℕ → List ℕ
zeros zero = []
zeros (suc k) = 0 ∷ zeros k

write_once :
    (ptr output : Bytes) (remb m : ℕ)
    → remb ≤ m
    → remb ≤ length ptr
    → write_loop (m ∷ []) ptr remb output ≡ returns (output ++ take remb ptr)
unfolding write_loop
write_once ptr output zero m h l = ap returns (sym (append-nil output))
write_once ptr output (suc r) m h l = ground arith

write_part :
    (ptr output : Bytes) (remb n : ℕ) (more : List ℕ)
    → n < remb
    → write_loop (n ∷ more) ptr remb output ≡ write_loop more ptr (remb - n) (output ++ take n ptr)
unfolding write_loop
write_part ptr output zero n more h = absurd (omega arith)
write_part ptr output (suc r) n more h = ground arith

write_nothing :
    (ptr output : Bytes) (remb k : ℕ) → 0 < remb → write_loop (zeros k) ptr remb output ≡ writing
unfolding write_loop
write_nothing ptr output zero k h = absurd (omega arith)
write_nothing ptr output (suc r) zero h = refl
write_nothing ptr output (suc r) (suc k) h =
    write_part ptr output (suc r) 0 (zeros k) (omega arith)
    ∙ write_nothing ptr (output ++ take 0 ptr) (suc r - 0) k (omega arith)

-- A write that fwrite takes whole adds the data. One that it takes only a part of, and then the rest,
-- adds the part and then the first bytes of the data again, in place of the rest. One that it takes
-- nothing of is tried again without an end.
pub write_loop-restarts :
    (ptr output : Bytes) (n m k : ℕ)
    → n < length ptr
    → length ptr ≤ m
    → (write_loop (m ∷ []) ptr (length ptr) output ≡ returns (output ++ ptr))
      × (write_loop (n ∷ m ∷ []) ptr (length ptr) output
          ≡ returns ((output ++ take n ptr) ++ take (length ptr - n) ptr))
      × (write_loop (zeros k) ptr (length ptr) output ≡ writing)
write_loop-restarts ptr output n m k h l = (
  write_once ptr output (length ptr) m l (omega arith)
      ∙ ap (λ b. returns (output ++ b)) (take-all ptr (length ptr) (omega arith)),
  write_part ptr output (length ptr) n (m ∷ []) h
      ∙ write_once ptr (output ++ take n ptr) (length ptr - n) m (omega arith) (omega arith),
  write_nothing ptr output (length ptr) k (omega arith),
)
