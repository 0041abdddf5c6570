-- ===== src/NodeHandles/Outcome.antt =====
-- What `rmw_create_node` and `rmw_destroy_node` leave of the memory and of the local graph.
use rmw_cyclonedds_c.Common.{
  ◌≡◌, refl, ◌∙◌, sym, Bool, true, false, ◌||◌, not, List, [], ◌∷◌, ◌++◌, Option, none, some,
  CString, arith, ◌==◌, if_elim, Bool-cases, Option-cases, inl, inr,
}
use mathlib.Core.Option
use mathlib.Core.Path.{subst}
use rmw_cyclonedds_c.Common.Keys.{has_key}
use rmw_cyclonedds_c.Rmw.{is_ok}
use rmw_cyclonedds_c.LocalGraph.{Local, Address, add_node}
use rmw_cyclonedds_c.LocalGraph.Links.{self_key, Linked-update}
use rmw_cyclonedds_c.LocalGraph.Consistent.{IsConsistent, owners, infos}
use rmw_cyclonedds_c.LocalGraph.Nodes.Added.{add_node-Added, new_info}
use rmw_cyclonedds_c.Handles.{ContextHandle}
use rmw_cyclonedds_c.Ledger.{Resource, take_up_if, give_back_if}
use rmw_cyclonedds_c.Entities.{World}
use rmw_cyclonedds_c.NodeHandles.{
  NodeAnswers, make_node, create_node, node_arguments, owned_by_node, with_object, wake_graph,
  give_back_node,
}

pub give_back_node_lem :
    (name namespace_ : Bool) (live : List Resource)
    → give_back_node name namespace_ (
        take_up_if namespace_ Resource.node_namespace
          (take_up_if name Resource.node_name (Resource.node_data ∷ Resource.handle ∷ live)))
      ≡ live
unfolding give_back_node give_back_if
give_back_node_lem false false live = refl
give_back_node_lem false true live = refl
give_back_node_lem true false live = refl
give_back_node_lem true true live = refl

give_back_pair :
    (handle_memory data_memory : Bool) (live : List Resource)
    → give_back_if data_memory Resource.node_data (
        give_back_if handle_memory Resource.handle (
          take_up_if data_memory Resource.node_data
            (take_up_if handle_memory Resource.handle live)))
      ≡ live
unfolding give_back_if
give_back_pair false false live = refl
give_back_pair false true live = refl
give_back_pair true false live = refl
give_back_pair true true live = refl

-- A fresh object does not touch the local graph.
with_object-IsConsistent :
    (a : Address) (l : Local)
    → has_key self_key a (owners l) ≡ false
    → IsConsistent l
    → IsConsistent (with_object a l)
with_object-IsConsistent a l fresh c = record {
  nodes_fit = c.nodes_fit;
  slots_fit = c.slots_fit;
  linked = Linked-update l.self l.heap 0 (owners l) a _ fresh c.linked;
  distinct = c.distinct;
}

pub wake_graph-IsConsistent : (l : Local) → IsConsistent l → IsConsistent (wake_graph l)
wake_graph-IsConsistent l c = record {
  nodes_fit = c.nodes_fit;
  slots_fit = c.slots_fit;
  linked = c.linked;
  distinct = c.distinct;
}

-- A creation that fails changes neither the ledger nor the list of nodes. One that succeeds adds what
-- a node owns, and the node behind the others, under the names given.
abbrev pub Created : World → Option CString → Option CString → Option Address × World → Type 0
Created w name namespace_ r =
    IsConsistent r.1.local
    × (r.1.live ≡ elim r.0 [ none ↦ w.live | some a ↦ owned_by_node w.live ])
    × (owners r.1.local ≡ elim r.0 [ none ↦ owners w.local | some a ↦ owners w.local ++ (a ∷ []) ])
    × (infos r.1.local ≡ elim r.0 [
      | none ↦ infos w.local
      | some a ↦
          infos w.local ++ (new_info (Option.get_or name []) (Option.get_or namespace_ []) ∷ [])
    ])

make_node-Created :
    (a : NodeAnswers) (name namespace_ : CString) (w : World)
    → IsConsistent w.local
    → (a.address == 0) ≡ false
    → has_key self_key a.address (owners w.local) ≡ false
    → Created w (some name) (some namespace_) (make_node a name namespace_ w)
unfolding make_node
make_node-Created a name namespace_ w c live fresh =
    let l = with_object a.address w.local in
    let r = add_node a.written l a.address name namespace_ in
    let added =
      add_node-Added a.written l a.address name namespace_
        (with_object-IsConsistent a.address w.local fresh c) live fresh in
    elim (Bool-cases (not a.handle_memory || not a.data_memory)) [
      | inl e ↦
          rw (make_node, e) (c, give_back_pair a.handle_memory a.data_memory w.live, refl, refl)
      | inr e ↦ elim (Bool-cases (not a.name_memory || not a.namespace_memory)) [
        | inl f ↦
            rw (make_node, e, f)
              (c, give_back_node_lem a.name_memory a.namespace_memory w.live, refl, refl)
        | inr f ↦ elim (Bool-cases (is_ok r.0)) [
          | inl g ↦
              rw (make_node, e, f, g)
                (
                  wake_graph-IsConsistent r.1 added.0,
                  refl,
                  added.2 ∙ rw g refl,
                  added.1 ∙ rw g refl,
                )
          | inr g ↦
              rw (make_node, e, f, g)
                (
                  added.0,
                  give_back_node_lem true true w.live,
                  added.2 ∙ rw g refl,
                  added.1 ∙ rw g refl,
                )
        ]
      ]
    ]

node_arguments_lem :
    (context : Option ContextHandle) (name namespace_ : Option CString) (p : CString × CString)
    → node_arguments context name namespace_ ≡ some p
    → (name ≡ some p.0) × (namespace_ ≡ some p.1)
unfolding node_arguments
node_arguments_lem none name namespace_ p h = absurd (ground (arith, h))
node_arguments_lem (some context) none namespace_ p h = absurd (ground (arith, h))
node_arguments_lem (some context) (some n) none p h = absurd (ground (arith, h))
node_arguments_lem (some context) (some n) (some ns) p h = ground (arith, h)

-- `rmw_create_node`, given a consistent local graph and, for the new object, an address in use by no
-- node, keeps the graph consistent. Where it fails, at whichever point, the ledger, the listed nodes
-- and their owners are those of before. Where it succeeds, the ledger has more by the two names, the
-- object and the handle, and the node is listed behind the others under the names given.
pub create_node-Created :
    (a : NodeAnswers) (context : Option ContextHandle) (name namespace_ : Option CString)
    (w : World)
    → IsConsistent w.local
    → (a.address == 0) ≡ false
    → has_key self_key a.address (owners w.local) ≡ false
    → Created w name namespace_ (create_node a context name namespace_ w)
unfolding create_node
create_node-Created a context name namespace_ w c live fresh =
    elim (Option-cases (node_arguments context name namespace_)) [
      | inl e ↦ rw (create_node, e) (c, refl, refl, refl)
      | inr e ↦
          let given = node_arguments_lem context name namespace_ e.0 e.1 in
          let made = make_node a e.0.0 e.0.1 w in
          rw (create_node, e.1)
            (if_elim (Created w name namespace_) (not a.names_are_valid) (none, w) made
              (λ _. (c, refl, refl, refl))
              (λ _.
                subst (λ n. Created w n namespace_ made) (sym given.0)
                  (subst (λ n. Created w (some e.0.0) n made) (sym given.1)
                    (make_node-Created a e.0.0 e.0.1 w c live fresh))))
    ]
