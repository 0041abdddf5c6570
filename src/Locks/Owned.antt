-- ===== src/Locks/Owned.antt =====
-- Who holds the locks.
use mathlib.Core.Path.{subst}
use rmw_cyclonedds_c.Common.{
  ℕ, ◌≡◌, refl, ap, ◌∙◌, sym, Bool, true, false, List, [], ◌∷◌, arith, ◌==◌, if◌then◌else◌,
  Bool-cases, ==→eq, ==_refl, inl, inr,
}
use rmw_cyclonedds_c.Locks.{
  Op, lock_graph, unlock_graph, lock_cache, unlock_cache, Flags, Move, call, try_graph, try_cache,
  clear_graph, clear_cache, Threads, moved, Step, runs, Reach, start, next,
}
use rmw_cyclonedds_c.Locks.Disciplined.{
  holds_graph, holds_cache, is_disciplined, Call-Disciplined, behind_lock_graph,
  behind_unlock_graph, behind_lock_cache, behind_unlock_cache,
}

abbrev pub Owner : (List Op → Bool) → (ℕ → List Op) → Type 0
Owner holds place = (i : ℕ) × (holds (place i) ≡ true)

-- A flag is set exactly while one thread holds the lock.
pub record Exclusive (holds : List Op → Bool) (flag : Bool) (place : ℕ → List Op) : Type 0 where
  pub set : (i : ℕ) → holds (place i) ≡ true → flag ≡ true
  pub unique : (i j : ℕ) → holds (place i) ≡ true → holds (place j) ≡ true → i ≡ j
  pub owner : flag ≡ true → Owner holds place

record Inv (s : Threads) : Type 0 where
  graph : Exclusive holds_graph s.flags.graph s.place
  cache : Exclusive holds_cache s.flags.cache s.place
  disciplined : (i : ℕ) → is_disciplined (s.place i) ≡ true

module _ (holds : List Op → Bool) (flag : Bool) (place : ℕ → List Op) (i : ℕ) (p : List Op)
    (v : Exclusive holds flag place) where
  holds-moved : (j : ℕ) → holds (moved place i p j) ≡ (if i == j then holds p else holds (place j))
  holds-moved j = elim (Bool-cases (i == j)) [ inl e ↦ rw e refl | inr e ↦ rw e refl ]

  -- A thread that holds the lock after its step exactly if it did before changes nothing.
  kept : holds p ≡ holds (place i) → Exclusive holds flag (moved place i p)
  kept e = record {
    set = λ j h. ground (arith, holds-moved j, v.set j, v.set i);
    unique = λ a b h k.
        ground (arith, holds-moved a, holds-moved b, v.unique a b, v.unique i b, v.unique a i);
    owner = λ h. let (j, o) = v.owner h in (j, ground (arith, holds-moved j, ==→eq i j));
  }

  -- Where the flag was clear, the thread is the only one.
  taken : flag ≡ false → holds p ≡ true → Exclusive holds true (moved place i p)
  taken e h = record {
    set = λ j k. refl;
    unique = λ a b k l. ground (arith, holds-moved a, holds-moved b, v.set a, v.set b);
    owner = λ k. (i, ground (arith, holds-moved i, ==_refl i));
  }

  -- The thread that held the lock was the only one.
  cleared : holds (place i) ≡ true → holds p ≡ false → Exclusive holds false (moved place i p)
  cleared e h = record {
    set = λ j k. ground (arith, holds-moved j, v.unique i j, ==_refl i);
    unique = λ a b k l. ground (arith, holds-moved a, holds-moved b, v.unique i a, v.unique i b);
    owner = λ k. cc k;
  }

module _ {f : Flags} {place : ℕ → List Op} (i : ℕ) where
  Move-graph :
      {p p' : List Op} {f' : Flags}
      → Exclusive holds_graph f.graph place
      → is_disciplined p ≡ true
      → Move f p f' p'
      → place i ≡ p
      → Exclusive holds_graph f'.graph (moved place i p')
  Move-graph v d (call k) e =
      kept holds_graph f.graph place i _ v ((Call-Disciplined k).1 ∙ sym (ap holds_graph e))
  Move-graph v d (try_graph {rest = rest}) e = elim (Bool-cases f.graph) [
    | inl g ↦ rw g (
        kept holds_graph true place i _ (subst (λ b. Exclusive holds_graph b place) g v)
          (sym (ap holds_graph e)))
    | inr g ↦ rw g (taken holds_graph f.graph place i rest v g (behind_lock_graph rest d).0)
  ]
  Move-graph v d try_cache e = elim (Bool-cases f.cache) [
    | inl g ↦ rw g (kept holds_graph f.graph place i _ v (sym (ap holds_graph e)))
    | inr g ↦ rw g (kept holds_graph f.graph place i _ v (sym (ap holds_graph e)))
  ]
  Move-graph v d (clear_graph {rest = rest}) e =
      cleared holds_graph f.graph place i _ v (ap holds_graph e) (behind_unlock_graph rest d).0
  Move-graph v d clear_cache e = kept holds_graph f.graph place i _ v (sym (ap holds_graph e))

  Move-cache :
      {p p' : List Op} {f' : Flags}
      → Exclusive holds_cache f.cache place
      → is_disciplined p ≡ true
      → Move f p f' p'
      → place i ≡ p
      → Exclusive holds_cache f'.cache (moved place i p')
  Move-cache v d (call k) e =
      kept holds_cache f.cache place i _ v ((Call-Disciplined k).2 ∙ sym (ap holds_cache e))
  Move-cache v d try_graph e = elim (Bool-cases f.graph) [
    | inl g ↦ rw g (kept holds_cache f.cache place i _ v (sym (ap holds_cache e)))
    | inr g ↦ rw g (kept holds_cache f.cache place i _ v (sym (ap holds_cache e)))
  ]
  Move-cache v d (try_cache {rest = rest}) e = elim (Bool-cases f.cache) [
    | inl g ↦ rw g (
        kept holds_cache true place i _ (subst (λ b. Exclusive holds_cache b place) g v)
          (sym (ap holds_cache e)))
    | inr g ↦ rw g (taken holds_cache f.cache place i rest v g (behind_lock_cache rest d).0)
  ]
  Move-cache v d clear_graph e = kept holds_cache f.cache place i _ v (sym (ap holds_cache e))
  Move-cache v d (clear_cache {rest = rest}) e =
      cleared holds_cache f.cache place i _ v (ap holds_cache e) (behind_unlock_cache rest d).0

Move-disciplined :
    {f f' : Flags} {p p' : List Op}
    → is_disciplined p ≡ true
    → Move f p f' p'
    → is_disciplined p' ≡ true
Move-disciplined d (call k) = (Call-Disciplined k).0
Move-disciplined {f = f} d (try_graph {rest = rest}) = elim (Bool-cases f.graph) [
  | inl g ↦ rw g d
  | inr g ↦ rw g (behind_lock_graph rest d).2
]
Move-disciplined {f = f} d (try_cache {rest = rest}) = elim (Bool-cases f.cache) [
  | inl g ↦ rw g d
  | inr g ↦ rw g (behind_lock_cache rest d).1
]
Move-disciplined d (clear_graph {rest = rest}) = (behind_unlock_graph rest d).1
Move-disciplined d (clear_cache {rest = rest}) = (behind_unlock_cache rest d).1

Step-Inv : {s t : Threads} → Inv s → Step s t → Inv t
Step-Inv {s} v (runs i {f} {p} mv) = record {
  graph = Move-graph i v.graph (v.disciplined i) mv refl;
  cache = Move-cache i v.cache (v.disciplined i) mv refl;
  disciplined = λ j. elim (Bool-cases (i == j)) [
    | inl e ↦ rw e (Move-disciplined (v.disciplined i) mv)
    | inr e ↦ rw e (v.disciplined j)
  ];
}

Reach-Inv : {s : Threads} → Reach s → Inv s
Reach-Inv start = record {
  graph = record {
    set = λ i h. cc h;
    unique = λ i j h k. cc h;
    owner = λ h. absurd (ground (arith, h));
  };
  cache = record {
    set = λ i h. cc h;
    unique = λ i j h k. cc h;
    owner = λ h. absurd (ground (arith, h));
  };
  disciplined = λ i. refl;
}
Reach-Inv (next r st) = Step-Inv (Reach-Inv r) st

-- A thread that is in a function and completes the operation before it, so does not go round a loop.
abbrev pub Proceeds : Flags → List Op → Type 0
Proceeds f p = (op : Op) × (rest : List Op) × (p ≡ op ∷ rest) × (f' : Flags) × Move f p f' rest

abbrev pub is_idle : List Op → Bool
is_idle [] = true
is_idle (op ∷ rest) = false

gets_graph : (f : Flags) (rest : List Op) → f.graph ≡ false → Proceeds f (lock_graph ∷ rest)
gets_graph f rest g = (
  lock_graph,
  rest,
  refl,
  record f { graph = true },
  subst
      (λ b.
        Move f (lock_graph ∷ rest) (record f { graph = true })
          (if b then lock_graph ∷ rest else rest))
      g try_graph,
)

gets_cache : (f : Flags) (rest : List Op) → f.cache ≡ false → Proceeds f (lock_cache ∷ rest)
gets_cache f rest g = (
  lock_cache,
  rest,
  refl,
  record f { cache = true },
  subst
      (λ b.
        Move f (lock_cache ∷ rest) (record f { cache = true })
          (if b then lock_cache ∷ rest else rest))
      g try_cache,
)

-- The holder of the cache's lock waits for nothing.
cache_holder :
    (f : Flags) (p : List Op) → is_disciplined p ≡ true → holds_cache p ≡ true → Proceeds f p
cache_holder f [] d h = cc h
cache_holder f (lock_cache ∷ rest) d h = cc h
cache_holder f (unlock_cache ∷ rest) d h = (unlock_cache, rest, refl, _, clear_cache)
cache_holder f (unlock_graph ∷ rest) d h = (unlock_graph, rest, refl, _, clear_graph)
cache_holder f (lock_graph ∷ rest) d h = absurd (ground (arith, h, (behind_lock_graph rest d).1))

module _ {s : Threads} (v : Inv s) where
  abbrev Someone : Type 0
  Someone = (j : ℕ) × Proceeds s.flags (s.place j)

  itself : (i : ℕ) (p : List Op) → s.place i ≡ p → Proceeds s.flags p → Someone
  itself i p e m = (i, subst (Proceeds s.flags) (sym e) m)

  -- Whoever waits for the cache's lock, or its holder, gets on.
  waits_for_cache : (i : ℕ) (rest : List Op) → s.place i ≡ lock_cache ∷ rest → Someone
  waits_for_cache i rest e = elim (Bool-cases s.flags.cache) [
    | inl g ↦
        let (j, h) = v.cache.owner g in (j, cache_holder s.flags (s.place j) (v.disciplined j) h)
    | inr g ↦ itself i _ e (gets_cache s.flags rest g)
  ]

  graph_holder : (i : ℕ) (p : List Op) → s.place i ≡ p → holds_graph p ≡ true → Someone
  graph_holder i [] e h = cc h
  graph_holder i (lock_graph ∷ rest) e h = cc h
  graph_holder i (unlock_graph ∷ rest) e h = itself i _ e (unlock_graph, rest, refl, _, clear_graph)
  graph_holder i (lock_cache ∷ rest) e h = waits_for_cache i rest e
  graph_holder i (unlock_cache ∷ rest) e h = itself i _ e (unlock_cache, rest, refl, _, clear_cache)

  gets_on : (i : ℕ) (p : List Op) → s.place i ≡ p → is_idle p ≡ false → Someone
  gets_on i [] e h = cc h
  gets_on i (lock_graph ∷ rest) e h = elim (Bool-cases s.flags.graph) [
    | inl g ↦ let (j, k) = v.graph.owner g in graph_holder j (s.place j) refl k
    | inr g ↦ itself i _ e (gets_graph s.flags rest g)
  ]
  gets_on i (unlock_graph ∷ rest) e h = itself i _ e (unlock_graph, rest, refl, _, clear_graph)
  gets_on i (lock_cache ∷ rest) e h = waits_for_cache i rest e
  gets_on i (unlock_cache ∷ rest) e h = itself i _ e (unlock_cache, rest, refl, _, clear_cache)

-- However any number of threads interleave that call the functions on the two sides of the graph, on
-- any of their paths: no two hold the lock of the local graph, no two hold that of the cache, and each
-- flag is set exactly while some thread holds its lock, so a thread that has left a function holds
-- none. There is no deadlock, although `graph_publish_locked` takes the cache's lock inside the
-- graph's: while some thread is in a function, some thread that is in a function completes the
-- operation on a lock that it stands at.
pub Reach-Exclusive :
    {s : Threads}
    → Reach s
    → Exclusive holds_graph s.flags.graph s.place
      × Exclusive holds_cache s.flags.cache s.place
      × ((i : ℕ) → is_idle (s.place i) ≡ false → (j : ℕ) × Proceeds s.flags (s.place j))
Reach-Exclusive {s} r =
    ((Reach-Inv r).graph, (Reach-Inv r).cache, λ i h. gets_on (Reach-Inv r) i (s.place i) refl h)
