-- ===== src/Journal/Loops.antt =====
-- The loops around write(2) and read(2) of src/lib/journal.c.
use Prim.Native.Nat.{min}
use turris_updater.Base.{
  ℕ, zero, suc, ◌+◌, ◌-◌, ◌≤◌, ◌<◌, ◌≡◌, refl, ◌∙◌, sym, ap, List, [], ◌∷◌, ◌++◌, Bytes, length,
  take, drop, append_assoc, append-nil, take-append-drop, length-drop, arith, ◌==◌, Bool,
}
use turris_updater.Journal.Format.{record_bytes}
use turris_updater.Journal.Write.{
  WriteAnswer, wrote, interrupted, failed, Written, complete, died, waiting, write_loop,
  journal_write,
}
use turris_updater.Journal.Read.{ReadAnswer, got, io_error, bad_call, do_read, filled, refused}
use turris_updater.Journal.Read

abbrev pub file_of : Written → Bytes
file_of (complete f) = f
file_of (died f) = f
file_of (waiting f) = f

-- The file is `file` with the first part of `buffer` behind it, all of it if the loop completed.
abbrev pub Appends : Bytes → Bytes → Written → Type 0
Appends file buffer w =
    (front : Bytes) × (back : Bytes) × (buffer ≡ front ++ back)
    × (file_of w ≡ file ++ front)
    × (w ≡ complete (file_of w) → back ≡ [])

Appends-cut :
    (n : ℕ) (file buffer : Bytes) {w : Written}
    → Appends (file ++ take n buffer) (drop n buffer) w
    → Appends file buffer w
Appends-cut n file buffer (front, back, e, f, c) = (
  take n buffer ++ front,
  back,
  sym (take-append-drop n buffer)
      ∙ ap (◌++◌ (take n buffer)) e
      ∙ sym (append_assoc (take n buffer) front back),
  f ∙ append_assoc file (take n buffer) front,
  c,
)

write_loop-Appends :
    (answers : List WriteAnswer) (buffer file : Bytes)
    → Appends file buffer (write_loop answers buffer file)
unfolding write_loop
write_loop-Appends [] [] file = ([], [], refl, sym (append-nil file), λ _. refl)
write_loop-Appends (a ∷ more) [] file = ([], [], refl, sym (append-nil file), λ _. refl)
write_loop-Appends [] (b ∷ bs) file = ([], b ∷ bs, refl, sym (append-nil file), λ e. cc)
write_loop-Appends (wrote n ∷ more) (b ∷ bs) file =
    Appends-cut n file (b ∷ bs)
      (write_loop-Appends more (drop n (b ∷ bs)) (file ++ take n (b ∷ bs)))
write_loop-Appends (interrupted ∷ more) (b ∷ bs) file = write_loop-Appends more (b ∷ bs) file
write_loop-Appends (failed ∷ more) (b ∷ bs) file =
    ([], b ∷ bs, refl, sym (append-nil file), λ e. cc)

-- Whatever write(2) answers, `journal_write` adds a first part of the record to the file and nothing
-- else, and the whole record if it returns.
pub journal_write-Appends :
    (answers : List WriteAnswer) (type : ℕ) (params : List Bytes) (file : Bytes)
    → Appends file (record_bytes type params) (journal_write answers type params file)
unfolding journal_write
journal_write-Appends answers type params file =
    write_loop-Appends answers (record_bytes type params) file

-- The bytes that the answers allow before the first failure.
abbrev pub progress : List WriteAnswer → ℕ
progress [] = 0
progress (wrote n ∷ more) = n + progress more
progress (interrupted ∷ more) = progress more
progress (failed ∷ more) = 0

write_loop_completes :
    (answers : List WriteAnswer) (buffer file : Bytes)
    → length buffer ≤ progress answers
    → write_loop answers buffer file ≡ complete (file ++ buffer)
unfolding write_loop
write_loop_completes [] [] file h = ap complete (sym (append-nil file))
write_loop_completes (a ∷ more) [] file h = ap complete (sym (append-nil file))
write_loop_completes [] (b ∷ bs) file h = absurd (omega arith)
write_loop_completes (wrote n ∷ more) (b ∷ bs) file h =
    write_loop_completes more (drop n (b ∷ bs)) (file ++ take n (b ∷ bs))
      (omega (arith, length-drop n (b ∷ bs)))
    ∙ ap complete (
        append_assoc file (take n (b ∷ bs)) (drop n (b ∷ bs))
        ∙ ap (◌++◌ file) (take-append-drop n (b ∷ bs)))
write_loop_completes (interrupted ∷ more) (b ∷ bs) file h =
    write_loop_completes more (b ∷ bs) file h
write_loop_completes (failed ∷ more) (b ∷ bs) file h = absurd (omega arith)

-- Once write(2) has taken more many bytes more the record has, before any failure, in parts of any size
-- and with any number of interruptions, `journal_write` returns and the file ends with the record.
pub journal_write_completes :
    (answers : List WriteAnswer) (type : ℕ) (params : List Bytes) (file : Bytes)
    → length (record_bytes type params) ≤ progress answers
    → journal_write answers type params file ≡ complete (file ++ record_bytes type params)
unfolding journal_write
journal_write_completes answers type params file h =
    write_loop_completes answers (record_bytes type params) file h

-- How many reads are answered before the first failure.
abbrev pub patience : List ReadAnswer → ℕ
patience [] = 0
patience (got k ∷ more) = suc (patience more)
patience (Read.interrupted ∷ more) = patience more
patience (io_error ∷ more) = 0
patience (bad_call ∷ more) = 0

module _ {ℓ} {A : Type ℓ} where
  take_nil : (n : ℕ) → take {A = A} n [] ≡ []
  take_nil zero = refl
  take_nil (suc n) = refl

  drop_nil : (n : ℕ) → drop {A = A} n [] ≡ []
  drop_nil zero = refl
  drop_nil (suc n) = refl

  take_split : (c s : ℕ) (xs : List A) → c ≤ s → take c xs ++ take (s - c) (drop c xs) ≡ take s xs
  take_split zero s xs h = let e : s - 0 ≡ s = omega arith in rw e
  take_split (suc c) zero xs h = elim h [ ]
  take_split (suc c) (suc s) [] h =
      let e : suc s - suc c ≡ s - c = omega arith in rw e (take_nil (s - c))
  take_split (suc c) (suc s) (x ∷ xs) h =
      let e : suc s - suc c ≡ s - c = omega arith in
      rw e (ap (◌∷◌ x) (take_split c s xs (omega arith)))

  drop_split : (c s : ℕ) (xs : List A) → c ≤ s → drop (s - c) (drop c xs) ≡ drop s xs
  drop_split zero s xs h = let e : s - 0 ≡ s = omega arith in rw e
  drop_split (suc c) zero xs h = elim h [ ]
  drop_split (suc c) (suc s) [] h =
      let e : suc s - suc c ≡ s - c = omega arith in rw e (drop_nil (s - c))
  drop_split (suc c) (suc s) (x ∷ xs) h =
      let e : suc s - suc c ≡ s - c = omega arith in rw e (drop_split c s xs (omega arith))

do_read_fills :
    (answers : List ReadAnswer) (size : ℕ) (dst rest : Bytes)
    → length rest < patience answers
    → size ≤ length rest
    → do_read answers size dst rest ≡ filled (dst ++ take size rest) (drop size rest)
unfolding do_read
do_read_fills answers zero dst rest p h = rw append-nil
do_read_fills [] (suc size) dst rest p h = absurd (omega arith)
do_read_fills (got n ∷ more) (suc size) dst [] p h = absurd (omega arith)
do_read_fills (got n ∷ more) (suc size) dst (b ∷ rest) p h =
    let count = min n (min size (length rest)) in
    let fits : count ≤ size = omega arith in
    do_read_fills more (size - count) (dst ++ b ∷ take count rest) (drop count rest)
      (omega (arith, length-drop count rest)) (omega (arith, length-drop count rest))
    ∙ rw (append_assoc, take_split count size rest fits, drop_split count size rest fits)
do_read_fills (Read.interrupted ∷ more) (suc size) dst rest p h =
    do_read_fills more (suc size) dst rest p h
do_read_fills (io_error ∷ more) (suc size) dst rest p h = absurd (omega arith)
do_read_fills (bad_call ∷ more) (suc size) dst rest p h = absurd (omega arith)

do_read_short :
    (answers : List ReadAnswer) (size : ℕ) (dst rest : Bytes)
    → length rest < patience answers
    → length rest < size
    → (z : Bool) × (do_read answers size dst rest ≡ refused z)
unfolding do_read
do_read_short answers zero dst rest p h = absurd (omega arith)
do_read_short [] (suc size) dst rest p h = absurd (omega arith)
do_read_short (got n ∷ more) (suc size) dst [] p h = (length dst == 0, refl)
do_read_short (got n ∷ more) (suc size) dst (b ∷ rest) p h =
    let count = min n (min size (length rest)) in
    let fits : count ≤ size = omega arith in
    do_read_short more (size - count) (dst ++ b ∷ take count rest) (drop count rest)
      (omega (arith, length-drop count rest)) (omega (arith, length-drop count rest))
do_read_short (Read.interrupted ∷ more) (suc size) dst rest p h =
    do_read_short more (suc size) dst rest p h
do_read_short (io_error ∷ more) (suc size) dst rest p h = absurd (omega arith)
do_read_short (bad_call ∷ more) (suc size) dst rest p h = absurd (omega arith)

-- Where read(2) answers often enough, in parts of any size and with any number of interruptions,
-- `do_read` gives the wanted bytes if the file has them, and refuses if it does not.
pub do_read_lem :
    (answers : List ReadAnswer) (size : ℕ) (rest : Bytes)
    → length rest < patience answers
    → (size ≤ length rest → do_read answers size [] rest ≡ filled (take size rest) (drop size rest))
      × (length rest < size → (z : Bool) × (do_read answers size [] rest ≡ refused z))
do_read_lem answers size rest p =
    (do_read_fills answers size [] rest p, do_read_short answers size [] rest p)
