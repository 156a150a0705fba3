-- ===== src/Journal/Sequence.antt =====
-- `lua_recover` on a journal that was written record by record and may have been cut by a crash.
use mathlib.Core.List.{map}
use turris_updater.Base.{
  ℕ, zero, suc, ◌+◌, ◌-◌, ◌≤◌, ◌<◌, ◌≡◌, refl, ◌∙◌, sym, ap, ◌⊎◌, inl, inr, List, [], ◌∷◌, ◌++◌,
  Option, some, Bytes, length, take, append_assoc, append-nil, length-append, take-append_self,
  arith,
}
use turris_updater.Journal.Format.{record_bytes}
use turris_updater.Journal.Write.{WriteAnswer, journal_write}
use turris_updater.Journal.Read.{
  ReadAnswer, Record, journal_read, one, broken, recovered, recover_loop, recover,
}
use turris_updater.Journal.Loops.{file_of, Appends, journal_write-Appends, patience}
use turris_updater.Journal.Recovery.{Fits}
use turris_updater.Journal.Torn.{
  length-record_bytes, journal_read-record, journal_read-torn, journal_read-short,
}

-- Nothing, or a record without its end.
pub data IsTorn : Bytes → Type 0 where
  nothing : IsTorn []
  cut :
      {front : Bytes} (type : ℕ) (params : List Bytes) (b : ℕ) (back : Bytes)
      → Fits type params
      → record_bytes type params ≡ front ++ b ∷ back
      → IsTorn front

module _ {ℓ} {V : Type ℓ} (dump : V → Bytes) where
  -- The bytes of a sequence of records.
  abbrev pub log_bytes : List (Record V) → Bytes
  log_bytes [] = []
  log_bytes (r ∷ rs) = record_bytes r.type (map dump r.params) ++ log_bytes rs

  abbrev pub FitsAll : List (Record V) → Type 0
  FitsAll [] = Unit
  FitsAll (r ∷ rs) = Fits r.type (map dump r.params) × FitsAll rs

  -- The file when the call of `journal_write` that adds `r` has ended or died.
  abbrev pub left_by : List WriteAnswer → Record V → List (Record V) → Bytes
  left_by answers r log = file_of (journal_write answers r.type (map dump r.params) (log_bytes log))

  log_bytes-append :
      (rs : List (Record V)) (r : Record V)
      → log_bytes (rs ++ r ∷ []) ≡ log_bytes rs ++ record_bytes r.type (map dump r.params)
  log_bytes-append [] r = append-nil _
  log_bytes-append (s ∷ rs) r =
      let bytes = record_bytes s.type (map dump s.params) in
      ap (◌++◌ bytes) (log_bytes-append rs r) ∙ sym (append_assoc bytes (log_bytes rs) _)

  FitsAll-append :
      (rs : List (Record V)) (r : Record V)
      → FitsAll rs
      → Fits r.type (map dump r.params)
      → FitsAll (rs ++ r ∷ [])
  FitsAll-append [] r h f = (f, tt)
  FitsAll-append (s ∷ rs) r h f = (h.0, FitsAll-append rs r h.1 f)

  length-log_bytes : (rs : List (Record V)) → length rs ≤ length (log_bytes rs)
  length-log_bytes [] = omega arith
  length-log_bytes (r ∷ rs) =
      let bytes = record_bytes r.type (map dump r.params) in
      omega (
        arith,
        length-append bytes (log_bytes rs),
        length-record_bytes r.type (map dump r.params),
        length-log_bytes rs,
      )

module _ {ℓ} {V : Type ℓ} (load : Bytes → Option V) (dump : V → Bytes)
    (load-dump : (v : V) → load (dump v) ≡ some v) where
  journal_read-IsTorn :
      (first second : List ReadAnswer) {front : Bytes}
      → IsTorn front
      → length front < patience first
      → length front < patience second
      → journal_read load first second front ≡ broken
  journal_read-IsTorn first second nothing p q =
      journal_read-short load dump load-dump first second [] p (omega arith)
  journal_read-IsTorn first second {front} (cut type params b back f e) p q =
      journal_read-torn load dump load-dump first second type params front b back f e p q

  module _ (reads : ℕ → List ReadAnswer) where
    recover_loop-one :
        (fuel k : ℕ) (file rest rest' : Bytes) (offset : ℕ) (done : List (Record V)) (r : Record V)
        → journal_read load (reads k) (reads (suc k)) rest ≡ one r rest'
        → recover_loop load reads (suc fuel) k file rest offset done
          ≡ recover_loop load reads fuel
              (k + 2)
              file
              rest'
              (length file - length rest')
              (done ++ r ∷ [])
    unfolding recover_loop
    recover_loop-one fuel k file rest rest' offset done r e = rw (e, recover_loop)

    recover_loop_broken :
        (fuel k : ℕ) (file rest : Bytes) (offset : ℕ) (done : List (Record V))
        → journal_read load (reads k) (reads (suc k)) rest ≡ broken
        → recover_loop load reads (suc fuel) k file rest offset done
          ≡ recovered done (take offset file)
    unfolding recover_loop
    recover_loop_broken fuel k file rest offset done e = rw (e, recover_loop)

    -- `before` are the bytes of the records that were read.
    recover_loop-log :
        (log : List (Record V)) (fuel k : ℕ) (file before front : Bytes) (offset : ℕ)
        (done : List (Record V))
        → FitsAll dump log
        → IsTorn front
        → length log < fuel
        → file ≡ before ++ (log_bytes dump log ++ front)
        → offset ≡ length before
        → ((i : ℕ) → length file < patience (reads i))
        → recover_loop load reads fuel k file (log_bytes dump log ++ front) offset done
          ≡ recovered (done ++ log) (before ++ log_bytes dump log)
    recover_loop-log log zero k file before front offset done f t n e o p = elim n [ ]
    recover_loop-log [] (suc fuel) k file before front offset done f t n e o p =
        recover_loop_broken fuel k file front offset done (
          journal_read-IsTorn (reads k) (reads (suc k)) t
            (omega (arith, p k, ap length e, length-append before front))
            (omega (arith, p (suc k), ap length e, length-append before front)))
        ∙ rw (o, e, take-append_self before front, append-nil done, append-nil before)
    recover_loop-log (r ∷ rs) (suc fuel) k file before front offset done f t n e o p =
        let bytes = record_bytes r.type (map dump r.params) in
        let rest = log_bytes dump rs ++ front in
        let e' : file ≡ before ++ (bytes ++ rest) =
          e ∙ ap (◌++◌ before) (append_assoc bytes (log_bytes dump rs) front) in
        let e'' : file ≡ (before ++ bytes) ++ rest = e' ∙ sym (append_assoc before bytes rest) in
        let long : length file ≡ length before + length (bytes ++ rest) =
          ap length e' ∙ length-append before (bytes ++ rest) in
        let long' : length file ≡ length (before ++ bytes) + length rest =
          ap length e'' ∙ length-append (before ++ bytes) rest in
        recover_loop-one fuel k file (bytes ++ log_bytes dump rs ++ front) rest offset done r (
          rw (append_assoc bytes (log_bytes dump rs) front) (
            journal_read-record load dump load-dump (reads k) (reads (suc k)) r.type r.params rest
              f.0 (omega (arith, p k, long)) (omega (arith, p (suc k), long))))
        ∙ recover_loop-log rs fuel (k + 2) file (before ++ bytes) front (length file - length rest)
            (done ++ r ∷ []) f.1 t (omega arith) e'' (omega (arith, long')) p
        ∙ rw (append_assoc done (r ∷ []) rs, append_assoc before bytes (log_bytes dump rs))

    -- A journal of whole records with a torn one behind them: `lua_recover` returns the whole records
    -- in order, and truncates the file to their bytes.
    pub recover-log :
        (log : List (Record V)) (front : Bytes)
        → FitsAll dump log
        → IsTorn front
        → ((i : ℕ) → length (log_bytes dump log ++ front) < patience (reads i))
        → recover load reads (log_bytes dump log ++ front) ≡ recovered log (log_bytes dump log)
    unfolding recover
    recover-log log front f t p =
        recover_loop-log log (suc (length (log_bytes dump log ++ front))) 0
          (log_bytes dump log ++ front) [] front 0 [] f t
          (omega (arith, length-log_bytes dump log, length-append (log_bytes dump log) front)) refl
          refl p

    -- A write to the journal is atomic: whatever write(2) answers and wherever the writer dies, a later
    -- `lua_recover` finds the earlier records, and the new one either whole or not at all, and leaves
    -- a file that holds just what it found.
    pub recover-journal_write :
        (log : List (Record V)) (answers : List WriteAnswer) (r : Record V)
        → FitsAll dump log
        → Fits r.type (map dump r.params)
        → ((i : ℕ) → length (left_by dump answers r log) < patience (reads i))
        → (recover load reads (left_by dump answers r log) ≡ recovered log (log_bytes dump log))
          ⊎ (recover load reads (left_by dump answers r log)
              ≡ recovered (log ++ r ∷ []) (log_bytes dump (log ++ r ∷ [])))
    recover-journal_write log answers r f g p =
        torn_or_whole
          (journal_write-Appends answers r.type (map dump r.params) (log_bytes dump log))
      where
        torn_or_whole :
            Appends
              (log_bytes dump log)
              (record_bytes r.type (map dump r.params))
              (journal_write answers r.type (map dump r.params) (log_bytes dump log))
            → (recover load reads (left_by dump answers r log) ≡ recovered log (log_bytes dump log))
              ⊎ (recover load reads (left_by dump answers r log)
                  ≡ recovered (log ++ r ∷ []) (log_bytes dump (log ++ r ∷ [])))
        torn_or_whole (front, [], e, w, c) =
            let whole : left_by dump answers r log ≡ log_bytes dump (log ++ r ∷ []) ++ [] =
              w
              ∙ ap (◌++◌ (log_bytes dump log)) (sym (e ∙ append-nil front))
              ∙ sym (log_bytes-append dump log r)
              ∙ sym (append-nil _) in
            inr (
              rw whole (
                recover-log (log ++ r ∷ []) [] (FitsAll-append dump log r f g) nothing
                  (λ i. rw whole at (p i))))
        torn_or_whole (front, b ∷ back, e, w, c) = inl (
            rw w (
              recover-log log front f (cut r.type (map dump r.params) b back g e)
                (λ i. rw w at (p i))))
