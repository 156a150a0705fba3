-- ===== src/Uri/Counting.antt =====
-- The reference counters of the lists of src/lib/uri.c are exact.
use turris_updater.Base.{
  ℕ, ◌+◌, ◌-◌, ◌<◌, ◌≡◌, List, [], ◌∷◌, Option, none, some, ◌==◌, if◌then◌else◌, arith,
}
use turris_updater.Uri.State.{Node, put}
use turris_updater.Uri.Lists.{Nodes, refup_one, list_refup, list_add, deref_one, list_dealloc}

abbrev pub count : ℕ → List ℕ → ℕ
count p [] = 0
count p (q ∷ qs) = (if p == q then 1 else 0) + count p qs

abbrev pub total : ℕ → List (List ℕ) → ℕ
total p [] = 0
total p (l ∷ ls) = count p l + total p ls

module _ {K : Type 0} where
  -- The counter of a node; 0 where there is none.
  abbrev pub refs : Option (Node K) → ℕ
  refs none = 0
  refs (some n) = n.ref_count

  -- `lists` are the lists that objects hold: each counter is the number of them that hold the node, and
  -- a node that no list holds is gone.
  pub record Counted (nodes : Nodes K) (lists : List (List ℕ)) : Type 0 where
    pub exact : (p : ℕ) → refs (nodes p) ≡ total p lists
    pub live : (p : ℕ) (n : Node K) → nodes p ≡ some n → 0 < n.ref_count

  refs-deref : (n : Option (Node K)) → refs (deref_one n) ≡ refs n - 1
  refs-deref none = omega arith
  refs-deref (some n) = ground arith

  list_dealloc-refs :
      (l : List ℕ) (nodes : Nodes K) (p : ℕ)
      → refs (list_dealloc l nodes p) ≡ refs (nodes p) - count p l
  unfolding list_dealloc
  list_dealloc-refs [] nodes p = omega arith
  list_dealloc-refs (q ∷ qs) nodes p =
      ground
        (arith, list_dealloc-refs qs (put nodes q (deref_one (nodes q))) p, refs-deref (nodes q))

  abbrev IsLive : Nodes K → Type 0
  IsLive nodes = (p : ℕ) (n : Node K) → nodes p ≡ some n → 0 < n.ref_count

  deref-IsLive :
      (q : ℕ) (nodes : Nodes K) → IsLive nodes → IsLive (put nodes q (deref_one (nodes q)))
  deref-IsLive q nodes h p n e = ground (arith, h p n)

  refs-refup : (n : Option (Node K)) → 0 < refs n → refs (refup_one n) ≡ refs n + 1
  refs-refup none h = absurd (omega arith)
  refs-refup (some n) h = omega arith

  refup_refs :
      (l : List ℕ) (nodes : Nodes K) (p : ℕ)
      → ((q : ℕ) → 0 < count q l → 0 < refs (nodes q))
      → refs (list_refup l nodes p) ≡ refs (nodes p) + count p l
  unfolding list_refup
  refup_refs [] nodes p h = omega arith
  refup_refs (q ∷ qs) nodes p h = ground (
    arith,
    h q,
    refs-refup (nodes q),
    refup_refs qs (put nodes q (refup_one (nodes q))) p
        (λ r c. ground (arith, h r, refs-refup (nodes q))),
  )

  refup-IsLive :
      (q : ℕ) (nodes : Nodes K) → IsLive nodes → IsLive (put nodes q (refup_one (nodes q)))
  refup-IsLive q nodes h p n e = ground (arith, h p n)

  list_dealloc-IsLive :
      (l : List ℕ) (nodes : Nodes K) → IsLive nodes → IsLive (list_dealloc l nodes)
  unfolding list_dealloc
  list_dealloc-IsLive [] nodes h = h
  list_dealloc-IsLive (q ∷ qs) nodes h = list_dealloc-IsLive qs _ (deref-IsLive q nodes h)

  list_refup-IsLive : (l : List ℕ) (nodes : Nodes K) → IsLive nodes → IsLive (list_refup l nodes)
  unfolding list_refup
  list_refup-IsLive [] nodes h = h
  list_refup-IsLive (q ∷ qs) nodes h = list_refup-IsLive qs _ (refup-IsLive q nodes h)

  pub list_refup-Counted :
      (nodes : Nodes K) (l : List ℕ) (ls : List (List ℕ))
      → Counted nodes (l ∷ ls)
      → Counted (list_refup l nodes) (l ∷ l ∷ ls)
  list_refup-Counted nodes l ls c = record {
    exact = λ q. omega (arith, c.exact q, refup_refs l nodes q (λ r h. omega (arith, c.exact r)));
    live = list_refup-IsLive l nodes c.live;
  }

  -- Two lists are shared at once.
  pub shared-Counted :
      (nodes : Nodes K) (l k : List ℕ) (ls : List (List ℕ))
      → Counted nodes (l ∷ k ∷ ls)
      → Counted (list_refup k (list_refup l nodes)) (l ∷ k ∷ l ∷ k ∷ ls)
  shared-Counted nodes l k ls c =
      let c1 = list_refup-Counted nodes l (k ∷ ls) c in
      let swapped : Counted (list_refup l nodes) (k ∷ l ∷ l ∷ ls) = record {
        exact = λ q. omega (arith, c1.exact q);
        live = c1.live;
      } in
      let c2 = list_refup-Counted (list_refup l nodes) k (l ∷ l ∷ ls) swapped in
      record { exact = λ q. omega (arith, c2.exact q); live = c2.live }

  -- Counters stay exact when a new object takes over the list of its parent, when a node is added in
  -- front of a list, and when an object drops its list. So a node is freed with the last list that
  -- holds it, and not before.
  pub lists-Counted :
      (nodes : Nodes K) (l : List ℕ) (ls : List (List ℕ)) (p : ℕ)
      → Counted nodes (l ∷ ls)
      → nodes p ≡ none
      → Counted (list_refup l nodes) (l ∷ l ∷ ls)
        × Counted (list_add p nodes) ((p ∷ l) ∷ ls)
        × Counted (list_dealloc l nodes) ls
  unfolding list_add
  lists-Counted nodes l ls p c e = (
    list_refup-Counted nodes l ls c,
    record {
      exact = λ q. ground (arith, c.exact q, e);
      live = λ q n h. ground (arith, c.live q n);
    },
    record {
      exact = λ q. omega (arith, c.exact q, list_dealloc-refs l nodes q);
      live = list_dealloc-IsLive l nodes c.live;
    },
  )
