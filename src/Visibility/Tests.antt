-- ===== src/Visibility/Tests.antt =====
-- A context with one node, "t", that writes one topic: the theorem at this course, and a run.
use rmw_cyclonedds_c.Common.{◌≡◌, refl, Bool, true, false, [], ◌∷◌, any}
use mathlib.Core.Path.{subst}
use rmw_cyclonedds_c.Common.Keys.{has_key}
use rmw_cyclonedds_c.Common.Table.{search, push, compact_clear, compact_from}
use rmw_cyclonedds_c.Rmw.{pos}
use rmw_cyclonedds_c.GraphCache.{
  CachedEndpoint, add_participant, add_participant_locked, apply_snapshot, replace_nodes,
  install_nodes, append_nodes, cache_node, copy_gids, exceeded_limit, count_owned, string_fits,
  fits_from, find_participant, signal, endpoint_is_associated,
}
use rmw_cyclonedds_c.GraphCache.Valid.{IsValid}
use rmw_cyclonedds_c.LocalGraph.{
  Local, publish, reset_node, enter_node, add_node, add_endpoint, write_row, set_row, node_is_valid,
}
use rmw_cyclonedds_c.LocalGraph.Links.{self_key}
use rmw_cyclonedds_c.LocalGraph.Consistent.{IsConsistent, owners, infos}
use rmw_cyclonedds_c.Context.Opening.{new_implementation, reset_nodes}
use rmw_cyclonedds_c.Context.Opening.Created.{started}
use rmw_cyclonedds_c.Context.Lifecycle.Tests.{answers}
use rmw_cyclonedds_c.Visibility.Announced.{IsShown, lists_endpoint}
use rmw_cyclonedds_c.Visibility.Course.{Course, lags_add}
use rmw_cyclonedds_c.Visibility.Course.Shown.{Course-IsShown}

abbrev begun : Local
begun = started answers (new_implementation 1).local

abbrev with_node : Local
with_node = (add_node (pos 0) begun 2 (116 ∷ []) (47 ∷ [])).1

abbrev with_writer : Local
with_writer = (add_endpoint (pos 0) with_node 2 21 true).1

fresh_node : has_key self_key 2 (owners begun) ≡ false
unfolding new_implementation reset_nodes reset_node
fresh_node = refl

abbrev up_to_date : Bool
up_to_date =
    lags_add (lags_add false (add_node (pos 0) begun 2 (116 ∷ []) (47 ∷ [])).0)
      (add_endpoint (pos 0) with_node 2 21 true).0

course : Course with_writer up_to_date
course =
    Course.endpoint_added
      (Course.node_added (Course.begins answers 1) (pos 0) 2 (116 ∷ []) (47 ∷ []) refl fresh_node)
      (pos 0) 2 21 true

is_up_to_date : up_to_date ≡ false
unfolding add_node enter_node add_endpoint write_row set_row publish new_implementation reset_nodes
    reset_node node_is_valid push add_participant add_participant_locked apply_snapshot
    replace_nodes install_nodes append_nodes cache_node copy_gids exceeded_limit count_owned
    string_fits fits_from find_participant signal compact_clear compact_from search
is_up_to_date = refl

Course-IsShown_example :
    IsConsistent with_writer
    × IsValid with_writer.cache
    × (false ≡ false
        → IsShown with_writer
          × ((e : CachedEndpoint)
              → e.participant_guid ≡ with_writer.participant_guid
              → endpoint_is_associated with_writer.cache e
                ≡ any (lists_endpoint e) (infos with_writer)))
Course-IsShown_example = Course-IsShown (subst (Course with_writer) is_up_to_date course)
