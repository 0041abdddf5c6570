-- ===== src/GraphCache/Endpoints.antt =====
-- `graph_cache_upsert_endpoint`, `graph_cache_remove_endpoint_guid` and
-- `graph_cache_endpoint_is_associated_locked` against their specifications.
use rmw_cyclonedds_c.Common.{
  suc, ◌≤◌, ◌<◌, ◌≡◌, refl, sym, ap, ◌∙◌, Bool, true, false, ◌&&◌, List, [], ◌∷◌, map, arith, ltb,
  ◌==◌, if◌then◌else◌, any, set, some, set-take, take-set_self, find_index-le,
}
use rmw_cyclonedds_c.Common.Keys.{has_key, put, put_absent, put_present, index_of}
use rmw_cyclonedds_c.Common.Table.{contents}
use rmw_cyclonedds_c.Common.Table.Contents.{length-contents, search_lem, ltb-search-count}
use rmw_cyclonedds_c.Common.Table.Keyed.{contents-remove_key}
use rmw_cyclonedds_c.Rmw.{Guid}
use rmw_cyclonedds_c.GraphCache.{
  Cache, CachedNode, CachedEndpoint, find_endpoint, max_endpoints, zero_endpoint, holds_gid,
  associated_in, endpoint_is_associated, upsert_endpoint, store_endpoint, remove_endpoint_guid,
  write_endpoint,
}
use rmw_cyclonedds_c.GraphCache.Valid.{IsValid}
use rmw_cyclonedds_c.GraphCache.Strings.{string_fits_lem}
use rmw_cyclonedds_c.GraphCache.View
use rmw_cyclonedds_c.GraphCache.View.{View, NodeView, view, seen, node_view, endpoint_key}

module _ (c : Cache) (v : IsValid c) where
  find_endpoint-eq : (g : Guid) → find_endpoint c g ≡ index_of endpoint_key g (contents c.endpoints)
  unfolding find_endpoint
  find_endpoint-eq g =
      search_lem zero_endpoint max_endpoints (λ e. e.guid == g) c.endpoints v.endpoints_fit

  pub find_endpoint-le : (g : Guid) → find_endpoint c g ≤ c.endpoints.count
  find_endpoint-le g = omega (
    arith,
    find_endpoint-eq g,
    find_index-le (λ e. endpoint_key e == g) (contents c.endpoints),
    length-contents max_endpoints c.endpoints v.endpoints_fit,
  )

  pub find_endpoint-lt :
      (g : Guid)
      → ltb (find_endpoint c g) c.endpoints.count ≡ has_key endpoint_key g (contents c.endpoints)
  unfolding find_endpoint
  find_endpoint-lt g =
      ltb-search-count zero_endpoint max_endpoints (λ e. e.guid == g) c.endpoints v.endpoints_fit

  -- Writing over the entry found replaces it.
  pub write_endpoint_present :
      (e : CachedEndpoint)
      → has_key endpoint_key e.guid (contents c.endpoints) ≡ true
      → contents (write_endpoint c (find_endpoint c e.guid) c.endpoints.count e).endpoints
        ≡ put endpoint_key e (contents c.endpoints)
  unfolding write_endpoint
  write_endpoint_present e h =
      set-take c.endpoints.count c.endpoints.slots (find_endpoint c e.guid) e
      ∙ ap (λ i. set (contents c.endpoints) i e) (find_endpoint-eq e.guid)
      ∙ sym (put_present endpoint_key e (contents c.endpoints) h)

  -- Writing at the count appends.
  pub write_endpoint_absent :
      (e : CachedEndpoint)
      → has_key endpoint_key e.guid (contents c.endpoints) ≡ false
      → c.endpoints.count < max_endpoints
      → contents (write_endpoint c c.endpoints.count (suc c.endpoints.count) e).endpoints
        ≡ put endpoint_key e (contents c.endpoints)
  unfolding write_endpoint
  write_endpoint_absent e h k =
      take-set_self c.endpoints.count c.endpoints.slots e (omega (arith, v.endpoints_fit))
      ∙ sym (put_absent endpoint_key e (contents c.endpoints) h)

  -- `graph_cache_upsert_endpoint` on a valid cache accepts an endpoint exactly if its topic and type
  -- names fit and its GUID is known or there is room for one more endpoint. It then has the endpoint
  -- in place of the one with that GUID, or at the end; otherwise it leaves all as it was.
  pub upsert_endpoint_refines :
      (e : CachedEndpoint)
      → seen (
          upsert_endpoint c e.guid e.participant_guid
            (some e.topic_name)
            (some e.type_name)
            e.writer)
        ≡ View.upsert_endpoint (view c) e
  unfolding upsert_endpoint store_endpoint View.upsert_endpoint
  upsert_endpoint_refines e = ground (
    arith,
    string_fits_lem e.topic_name,
    string_fits_lem e.type_name,
    find_endpoint-lt e.guid,
    find_endpoint-le e.guid,
    length-contents max_endpoints c.endpoints v.endpoints_fit,
    v.endpoints_fit,
    write_endpoint_present e,
    write_endpoint_absent e,
  )

  -- `graph_cache_remove_endpoint_guid` on a valid cache removes the endpoint with that GUID, if there
  -- is one, and nothing else; the order of the others is kept.
  pub remove_endpoint_guid_refines :
      (g : Guid) → view (remove_endpoint_guid c g) ≡ View.remove_endpoint_guid (view c) g
  unfolding remove_endpoint_guid View.remove_endpoint_guid
  remove_endpoint_guid_refines g = ground (
    arith,
    contents-remove_key endpoint_key zero_endpoint max_endpoints g c.endpoints v.endpoints_fit
        v.distinct_endpoints,
  )

holds_gid_lem : (g : Guid) (gs : List Guid) → holds_gid g gs ≡ any (λ x. x == g) gs
unfolding holds_gid
holds_gid_lem g [] = refl
holds_gid_lem g (x ∷ gs) = ground (arith, holds_gid_lem g gs)

-- The node belongs to the endpoint's participant and names the endpoint among its writers, or
-- readers.
abbrev pub names_endpoint : CachedEndpoint → NodeView → Bool
names_endpoint e n =
    n.participant_guid == e.participant_guid
    && any (λ x. x == e.guid) (if e.writer then n.writers else n.readers)

associated_in_lem :
    (ns : List CachedNode) (e : CachedEndpoint)
    → associated_in ns e ≡ any (names_endpoint e) (map node_view ns)
unfolding associated_in
associated_in_lem [] e = refl
associated_in_lem (n ∷ ns) e = ground (
  arith,
  associated_in_lem ns e,
  holds_gid_lem e.guid (contents n.writers),
  holds_gid_lem e.guid (contents n.readers),
)

-- `graph_cache_endpoint_is_associated_locked` holds exactly if some cached node of the endpoint's
-- participant names the endpoint on its side.
pub endpoint_is_associated_lem :
    (c : Cache) (e : CachedEndpoint)
    → endpoint_is_associated c e ≡ any (names_endpoint e) (view c).nodes
unfolding endpoint_is_associated
endpoint_is_associated_lem c e = associated_in_lem (contents c.nodes) e
