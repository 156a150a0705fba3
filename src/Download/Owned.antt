-- ===== src/Download/Owned.antt =====
-- src/lib/download.c: the array of instances and their memory.
use turris_updater.Base.{
  ℕ, zero, suc, ◌<◌, ◌≤◌, ◌≡◌, refl, List, [], ◌∷◌, Option, none, some, Bytes, get_elem?, ==_iff,
  ==_refl, Option-cases, inl, inr, arith, length, length-append,
}
use turris_updater.Download.State.{
  Opts, Inst, Downloader, returns, put_inst, download, last_index, remove_inst, unlist,
  download_i_free, flush_from, downloader_flush,
}
use turris_updater.Download.Counts.{
  times, times-append, last_index-none, times-removed, length-removed,
}

abbrev pub is_live : Option Inst → ℕ
is_live none = 0
is_live (some i) = 1

-- Every instance that is allocated stands once in the array and no other pointer does; none is NULL.
abbrev pub IsOwned : Downloader → Type 0
IsOwned d = ((p : ℕ) → times p d.instances ≡ is_live (d.memory p)) × (d.memory 0 ≡ none)

freed :
    (a i : ℕ) (inst : Inst) (d : Downloader)
    → d.memory a ≡ some inst
    → last_index a d.instances ≡ some i
    → download_i_free a d
      ≡ returns (put_inst a none (record d { instances = remove_inst i d.instances }))
unfolding download_i_free unlist
freed a i inst d m l = ground arith

-- Freeing a live instance succeeds, it is gone afterwards, the array has one place less, and still
-- exactly the allocated instances stand in the array, once each.
pub download_i_free-IsOwned :
    (a : ℕ) (inst : Inst) (d : Downloader)
    → IsOwned d
    → d.memory a ≡ some inst
    → (d' : Downloader) × (download_i_free a d ≡ returns d')
      × IsOwned d'
      × (d'.memory a ≡ none)
      × (suc (length d'.instances) ≡ length d.instances)
download_i_free-IsOwned a inst d (t, z) m = elim (Option-cases (last_index a d.instances)) [
  | inl n ↦ absurd (ground (arith, last_index-none a d.instances n, t a))
  | inr (i, e) ↦ (
    put_inst a none (record d { instances = remove_inst i d.instances }),
    freed a i inst d m e,
    (λ p. ground (arith, t p, times-removed p a i d.instances e, ==_iff a p), ground arith),
    ground (arith, ==_refl a),
    length-removed a i d.instances e,
  )
]

get-some :
    (i : ℕ) (xs : List ℕ) → i < length xs → (a : ℕ) × (get_elem? xs i ≡ some a) × (0 < times a xs)
get-some i [] h = elim h [ ]
get-some zero (x ∷ xs) h = (x, refl, ground (arith, ==_refl x))
get-some (suc i) (x ∷ xs) h =
    let (a, g, c) = get-some i xs (omega arith) in (a, g, omega (arith, c))

no_elements : (xs : List ℕ) → length xs ≡ 0 → xs ≡ []
no_elements [] h = refl
no_elements (x ∷ xs) h = absurd (omega arith)

not_null :
    (a : ℕ) (inst : Inst) (d : Downloader) → d.memory 0 ≡ none → d.memory a ≡ some inst → 0 < a
not_null zero inst d z e = ground arith
not_null (suc a) inst d z e = omega arith

flush_one :
    (a n : ℕ) (d d1 d2 : Downloader)
    → get_elem? d.instances n ≡ some a
    → 0 < a
    → download_i_free a d ≡ returns d1
    → flush_from n d1 ≡ returns d2
    → flush_from (suc n) d ≡ returns d2
unfolding flush_from
flush_one zero n d d1 d2 g h f f2 = absurd (omega arith)
flush_one (suc a) n d d1 d2 g h f f2 = ground arith

-- The loop frees one instance in each round.
flush_from-IsOwned :
    (n : ℕ) (d : Downloader)
    → IsOwned d
    → length d.instances ≡ n
    → (d' : Downloader) × (flush_from n d ≡ returns d') × (d'.instances ≡ []) × IsOwned d'
unfolding flush_from
flush_from-IsOwned zero d w l = (d, refl, no_elements d.instances l, w)
flush_from-IsOwned (suc n) d w l =
    let (a, g, c) = get-some n d.instances (omega arith) in
    elim (Option-cases (d.memory a)) [
      | inl e ↦ absurd (ground (arith, w.0 a))
      | inr (inst, e) ↦
          let (d1, f, w1, gone, short) = download_i_free-IsOwned a inst d w e in
          let (d2, f2, e2, w2) = flush_from-IsOwned n d1 w1 (omega (arith, short, l)) in
          (d2, flush_one a n d d1 d2 g (not_null a inst d w.1 e) f f2, e2, w2)
    ]

not_live : (o : Option Inst) → is_live o ≡ 0 → o ≡ none
not_live none h = refl
not_live (some i) h = absurd (omega arith)

-- A flush succeeds, leaves no instance in the array and none allocated, when exactly the allocated
-- instances stood in the array, once each.
pub downloader_flush-frees :
    (d : Downloader)
    → IsOwned d
    → (d' : Downloader) × (downloader_flush d ≡ returns d')
      × (d'.instances ≡ [])
      × ((p : ℕ) → d'.memory p ≡ none)
unfolding downloader_flush
downloader_flush-frees d w =
    let (d', f, e, t) = flush_from-IsOwned (length d.instances) d w refl in
    (d', f, e, λ p. not_live (d'.memory p) (ground (arith, t.0 p)))

-- A new instance at a free address other than NULL joins the array; exactly the allocated ones stand in
-- it, once each, and if the places were enough before, there is one for it.
pub download-IsOwned :
    (a : ℕ) (url user_agent : Bytes) (o : Opts) (d : Downloader)
    → IsOwned d
    → d.memory a ≡ none
    → 0 < a
    → 0 < d.i_allocated
    → length d.instances ≤ d.i_allocated
    → IsOwned (download a url user_agent o d)
      × (length (download a url user_agent o d).instances
          ≤ (download a url user_agent o d).i_allocated)
unfolding download
download-IsOwned a url user_agent o d (t, z) m n k l = (
  (
    λ p. ground (arith, t p, t a, times-append p d.instances (a ∷ []), ==_iff a p),
    ground (arith, ==_iff a 0),
  ),
  ground (arith, length-append d.instances (a ∷ [])),
)
