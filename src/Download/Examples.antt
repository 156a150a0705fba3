-- ===== src/Download/Examples.antt =====
-- Runs of the downloader of src/lib/download.c.
use turris_updater.Base.{
  ℕ, suc, ◌≤◌, ◌≡◌, refl, true, false, [], ◌∷◌, none, some, codes, length, ◌==◌, if◌then◌else◌, ◌⊎◌,
  arith,
}
use turris_updater.Download.State.{
  Inst, Downloader, Outcome, returns, writing, download_opts_def, download, download_i_free,
  downloader_flush,
}
use turris_updater.Download.Transfer.{finished, download_check_info, write_loop}
use turris_updater.Download.Owned.{
  IsOwned, download_i_free-IsOwned, downloader_flush-frees, download-IsOwned,
}
use turris_updater.Download.Results.{reported, succeeded, check_info-reported}
use turris_updater.Download.Written.{zeros, write_loop-size, write_loop-restarts}

abbrev fresh : Inst
fresh = record { done = false; success = false; output = []; told = [] }

-- Two instances, at 5 and 6.
abbrev both : Downloader
both = record {
  instances = 5 ∷ 6 ∷ [];
  i_allocated = 2;
  failed = none;
  memory = λ a. if 5 == a then some fresh else if 6 == a then some fresh else none;
}

both-IsOwned : IsOwned both
both-IsOwned = (λ p. ground arith, refl)

download_i_free-IsOwned_run :
    (d' : Downloader) × (download_i_free 5 both ≡ returns d')
    × IsOwned d'
    × (d'.memory 5 ≡ none)
    × (suc (length d'.instances) ≡ 2)
download_i_free-IsOwned_run = download_i_free-IsOwned 5 fresh both both-IsOwned refl

downloader_flush-frees_example :
    (d' : Downloader) × (downloader_flush both ≡ returns d')
    × (d'.instances ≡ [])
    × ((p : ℕ) → d'.memory p ≡ none)
downloader_flush-frees_example = downloader_flush-frees both both-IsOwned

download-IsOwned_run :
    IsOwned (download 7 (codes "http://x") (codes "agent") download_opts_def both)
    × (length (download 7 (codes "http://x") (codes "agent") download_opts_def both).instances
        ≤ (download 7 (codes "http://x") (codes "agent") download_opts_def both).i_allocated)
download-IsOwned_run =
    download-IsOwned 7 (codes "http://x") (codes "agent") download_opts_def both both-IsOwned refl
      (omega arith) (omega arith) (omega arith)

abbrev after : Outcome Downloader → Downloader
after (returns d) = d
after _ = both

abbrev checked : Downloader
checked = after (download_check_info (finished 5 true ∷ finished 6 false ∷ []) both)

both-checked : download_check_info (finished 5 true ∷ finished 6 false ∷ []) both ≡ returns checked
unfolding download_check_info
both-checked = refl

check_info-reported_example :
    ((p : ℕ)
      → succeeded (checked.memory p) ≡ true
      → (reported p true (finished 5 true ∷ finished 6 false ∷ []) ≡ true)
        ⊎ (succeeded (both.memory p) ≡ true))
    × ((p : ℕ)
        → checked.failed ≡ some p
        → (reported p false (finished 5 true ∷ finished 6 false ∷ []) ≡ true)
          ⊎ (both.failed ≡ some p))
check_info-reported_example =
    check_info-reported (finished 5 true ∷ finished 6 false ∷ []) both checked both-checked

check_results : (succeeded (checked.memory 5) ≡ true) × (checked.failed ≡ some 6)
unfolding download_check_info
check_results = (refl, refl)

twice_written : write_loop (2 ∷ 9 ∷ []) (codes "abcd") 4 [] ≡ returns (codes "abab")
unfolding write_loop
twice_written = refl

write_loop-size_run : length (codes "abab") ≡ 4
write_loop-size_run =
    write_loop-size (2 ∷ 9 ∷ []) (codes "abcd") 4 [] (codes "abab") (omega arith) twice_written

write_loop-restarts_example :
    (write_loop (4 ∷ []) (codes "abcd") 4 [] ≡ returns (codes "abcd"))
    × (write_loop (2 ∷ 4 ∷ []) (codes "abcd") 4 [] ≡ returns (codes "abab"))
    × (write_loop (zeros 9) (codes "abcd") 4 [] ≡ writing)
write_loop-restarts_example =
    write_loop-restarts (codes "abcd") [] 2 4 9 (omega arith) (omega arith)
