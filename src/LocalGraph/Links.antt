-- ===== src/LocalGraph/Links.antt =====
-- The links between the slots of the local graph and the `node_data_t` objects that own them.
use rmw_cyclonedds_c.Common.{
  ℕ, zero, suc, ◌+◌, ◌<◌, ◌≡◌, refl, ◌∙◌, false, List, [], ◌∷◌, ◌++◌, arith, ◌==◌, length, drop,
  get_or, erase_at,
}
use mathlib.Core.Path.{subst}
use rmw_cyclonedds_c.Common.Keys.{has_key, Distinct}
use rmw_cyclonedds_c.LocalGraph.{Address, NodeData, update}

abbrev pub self_key : Address → ℕ
self_key a = a

-- The owners in order: none is null, and each points back to the context and to its own place,
-- counted from `k`.
abbrev pub Linked : (Address → NodeData) → Address → ℕ → List Address → Type 0
Linked heap self k [] = Unit
Linked heap self k (a ∷ owners) =
    ((a == 0) ≡ false)
    × ((heap a).context ≡ self)
    × ((heap a).graph_index ≡ k)
    × Linked heap self (suc k) owners

-- The owners learn that they now stand from `k` on.
unfoldable pub reindex : ℕ → List Address → (Address → NodeData) → Address → NodeData
reindex k [] heap = heap
reindex k (a ∷ owners) heap =
    reindex (suc k) owners (update heap a (record (heap a) { graph_index = k }))

module _ (self : Address) where
  -- An object that owns no slot may change.
  pub Linked-update :
      (heap : Address → NodeData) (k : ℕ) (owners : List Address) (a : Address) (d : NodeData)
      → has_key self_key a owners ≡ false
      → Linked heap self k owners
      → Linked (update heap a d) self k owners
  Linked-update heap k [] a d h l = tt
  Linked-update heap k (b ∷ owners) a d h l = ground (arith, Linked-update heap (suc k) owners a d)

  pub Linked-append :
      (heap : Address → NodeData) (k : ℕ) (owners : List Address) (a : Address)
      → Linked heap self k owners
      → Linked heap self (k + length owners) (a ∷ [])
      → Linked heap self k (owners ++ (a ∷ []))
  Linked-append heap k [] a l m = ground arith
  Linked-append heap k (b ∷ owners) a l m =
      (l.0, l.1, l.2, Linked-append heap (suc k) owners a l.3 (ground arith))

  -- An object that is not among those that move is left alone.
  reindex_other :
      (heap : Address → NodeData) (k : ℕ) (owners : List Address) (a : Address)
      → has_key self_key a owners ≡ false
      → reindex k owners heap a ≡ heap a
  unfolding reindex
  reindex_other heap k [] a h = refl
  reindex_other heap k (b ∷ owners) a h =
      reindex_other (update heap b (record (heap b) { graph_index = k })) (suc k) owners a
        (ground arith)
      ∙ ground arith

  -- Owners that stood from `j` on are linked from `k` on once they are told so.
  reindex-Linked :
      (heap : Address → NodeData) (j k : ℕ) (owners : List Address)
      → Distinct self_key owners
      → Linked heap self j owners
      → Linked (reindex k owners heap) self k owners
  unfolding reindex
  reindex-Linked heap j k [] d l = tt
  reindex-Linked heap j k (a ∷ owners) d l = (
    l.0,
    rw (reindex_other moved (suc k) owners a d.0) (ground arith),
    rw (reindex_other moved (suc k) owners a d.0) (ground arith),
    reindex-Linked moved (suc j) (suc k) owners d.1 (Linked-update heap (suc j) owners a _ d.0 l.3),
  )
    where
      moved : Address → NodeData
      moved = update heap a (record (heap a) { graph_index = k })

  has_key-drop :
      (a : Address) (n : ℕ) (owners : List Address)
      → has_key self_key a owners ≡ false
      → has_key self_key a (drop n owners) ≡ false
  has_key-drop a zero owners h = h
  has_key-drop a (suc n) [] h = refl
  has_key-drop a (suc n) (b ∷ owners) h = has_key-drop a n owners (ground arith)

  -- One owner goes, and those behind it are told their new places, from `m` on.
  pub Linked-erase_at :
      (heap : Address → NodeData) (k i m : ℕ) (owners : List Address)
      → m ≡ k + i
      → Distinct self_key owners
      → Linked heap self k owners
      → Linked (reindex m (drop (suc i) owners) heap) self k (erase_at i owners)
  Linked-erase_at heap k i m [] e d l = tt
  Linked-erase_at heap k zero m (a ∷ owners) e d l =
      let at_start : k ≡ m = omega arith in
      subst (λ n. Linked (reindex n owners heap) self k owners) at_start
        (reindex-Linked heap (suc k) k owners d.1 l.3)
  Linked-erase_at heap k (suc i) m (a ∷ owners) e d l =
      let same = reindex_other heap m (drop (suc i) owners) a (has_key-drop a (suc i) owners d.0) in
      (l.0, rw same l.1, rw same l.2, Linked-erase_at heap (suc k) i m owners (omega arith) d.1 l.3)

  -- The owner at a place points back to that place.
  pub Linked-get_or :
      (heap : Address → NodeData) (k i : ℕ) (owners : List Address)
      → Linked heap self k owners
      → i < length owners
      → ((heap (get_or owners i 0)).context ≡ self)
        × ((heap (get_or owners i 0)).graph_index ≡ k + i)
        × ((get_or owners i 0 == 0) ≡ false)
  Linked-get_or heap k i [] l h = absurd (omega arith)
  Linked-get_or heap k zero (a ∷ owners) l h = (l.1, omega arith, l.0)
  Linked-get_or heap k (suc i) (a ∷ owners) l h =
      let (c, x, z) = Linked-get_or heap (suc k) i owners l.3 (omega arith) in (c, omega arith, z)
