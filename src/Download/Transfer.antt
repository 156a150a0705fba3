-- ===== src/Download/Transfer.antt =====
-- src/lib/download.c: what curl's messages and curl's data do to an instance.
use Prim.Native.Nat.{min}
use turris_updater.Base.{
  ℕ, zero, suc, ◌-◌, Bool, true, false, List, [], ◌∷◌, ◌++◌, Option, none, some, Bytes, take,
  length,
}
use turris_updater.Download.State.{
  Inst, Downloader, Outcome, returns, writing, ◌>>=◌, put_inst, load_inst,
}

-- curl_multi_info_read: the private pointer of a finished transfer, and whether its result is CURLE_OK.
pub data Message : Type 0 where
  finished : ℕ → Bool → Message
  other_message : Message

unfoldable pub finish_inst : ℕ → Bool → Inst → Downloader → Downloader
finish_inst a true i d = put_inst a (some (record i { done = true; success = true })) d
finish_inst a false i d = record (put_inst a (some (record i { done = true; success = false })) d) {
  failed = some a;
}

-- The loop ends with the messages.
unfoldable pub download_check_info : List Message → Downloader → Outcome Downloader
unfolding finish_inst
download_check_info [] d = returns d
download_check_info (other_message ∷ ms) d = download_check_info ms d
download_check_info (finished a good ∷ ms) d =
    load_inst a d >>= λ i. download_check_info ms (finish_inst a good i d)

-- `downloader_run` behind libevent's dispatch: the latest failed instance is taken.
abbrev pub take_failed : Downloader → Downloader × Option ℕ
take_failed d = elim d.failed [ none ↦ (d, none) | some a ↦ (record d { failed = none }, some a) ]

unfoldable pub downloader_run :
    (Downloader → Outcome Downloader) → Downloader → Outcome (Downloader × Option ℕ)
downloader_run dispatch d = dispatch d >>= λ d'. returns (take_failed d')

-- `while (remb > 0)`: fwrite takes at most what it is given, and less only on an error. It never
-- returns -1, so only these answers are possible, and `ptr` stays where it is.
unfoldable pub write_loop : List ℕ → Bytes → ℕ → Bytes → Outcome Bytes
write_loop answers ptr zero output = returns output
write_loop [] ptr (suc remb) output = writing
write_loop (n ∷ answers) ptr (suc remb) output =
    let ds = min n (suc remb) in write_loop answers ptr (suc remb - ds) (output ++ take ds ptr)

-- `rsize` is all of `ptr`; it comes back.
unfoldable pub download_write_callback : List ℕ → Bytes → ℕ → Downloader → Outcome (Downloader × ℕ)
unfolding write_loop
download_write_callback answers ptr a d = load_inst a d >>= λ i.
    write_loop answers ptr (length ptr) i.output >>= λ output.
    returns (put_inst a (some (record i { output = output })) d, length ptr)

-- `download_is_done` and `download_is_success`
abbrev pub download_is_done : ℕ → Downloader → Outcome Bool
download_is_done a d = load_inst a d >>= λ i. returns i.done

abbrev pub download_is_success : ℕ → Downloader → Outcome Bool
download_is_success a d = load_inst a d >>= λ i. returns i.success
