-- ===== src/Uri/Lists.antt =====
-- src/lib/uri.c: the lists of local URIs, which objects share and count references to.
use turris_updater.Base.{ℕ, suc, ◌-◌, List, [], ◌∷◌, ◌++◌, Option, none, some, ◌==◌, if◌then◌else◌}
use turris_updater.Uri.State.{Node, put}

abbrev pub Nodes : Type 0 → Type 0
Nodes K = ℕ → Option (Node K)

module _ {K : Type 0} where
  abbrev pub refup_one : Option (Node K) → Option (Node K)
  refup_one none = none
  refup_one (some n) = some (record n { ref_count = suc n.ref_count })

  unfoldable pub list_refup : List ℕ → Nodes K → Nodes K
  list_refup [] nodes = nodes
  list_refup (p ∷ ps) nodes = list_refup ps (put nodes p (refup_one (nodes p)))

  -- The new node gets the name `p`, which no node has; its other fields are zero.
  unfoldable pub list_add : ℕ → Nodes K → Nodes K
  list_add p nodes = put nodes p (some (record { ref_count = 1; uri = none; loaded = none }))

  abbrev pub deref_one : Option (Node K) → Option (Node K)
  deref_one none = none
  deref_one (some n) =
      if n.ref_count - 1 == 0 then none else some (record n { ref_count = n.ref_count - 1 })

  -- The node goes with its last reference.
  unfoldable pub list_dealloc : List ℕ → Nodes K → Nodes K
  list_dealloc [] nodes = nodes
  list_dealloc (p ∷ ps) nodes = list_dealloc ps (put nodes p (deref_one (nodes p)))

  abbrev pub owned_uri : Option (Node K) → List ℕ
  owned_uri none = []
  owned_uri (some n) =
      if n.ref_count - 1 == 0 then elim n.uri [ none ↦ [] | some u ↦ u ∷ [] ] else []

  -- The URI objects of the nodes that `list_dealloc` frees: `list_free` frees them.
  unfoldable pub freed_uris : List ℕ → Nodes K → List ℕ
  freed_uris [] nodes = []
  freed_uris (p ∷ ps) nodes =
      owned_uri (nodes p) ++ freed_uris ps (put nodes p (deref_one (nodes p)))
