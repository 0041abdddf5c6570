-- ===== src/Messages/Gids.antt =====
-- What identifies a publisher.
use rmw_cyclonedds_c.Common.{
  ◌≡◌, refl, ap, Bool, false, Option, some, ◌==◌, bytes_eq, ◌%◌, ◌/◌, ◌^◌, ◌*◌, arith,
}
use rmw_cyclonedds_c.Rmw.{ok, ℤ}
use rmw_cyclonedds_c.Handles.{identifiers_match, implementation_identifier}
use rmw_cyclonedds_c.Messages.{
  SampleInfo, info_of, EndpointData, Handle, Gid, endpoint_of, get_gid_for_publisher,
  compare_gids_equal,
}

get_gid_for_publisher-eq :
    {Dds : Type 0} (p : Option (Handle Dds)) (e : EndpointData Dds) (g : Gid)
    → endpoint_of p ≡ some e
    → get_gid_for_publisher p (some g) ≡ (
      ok,
      some (record { implementation_identifier = some implementation_identifier; bytes = e.guid }),
    )
unfolding get_gid_for_publisher
get_gid_for_publisher-eq p e g h = rw (get_gid_for_publisher, h) refl

-- `rmw_compare_gids_equal` on the GIDs that `rmw_get_gid_for_publisher` writes for two publishers of
-- this implementation, over whatever the memory held, returns OK and says whether their writers have
-- the same GUID.
compare_gids_equal-get_gid_for_publisher :
    {Dds : Type 0} (p q : Option (Handle Dds)) (e d : EndpointData Dds) (g h : Gid) (result : Bool)
    → endpoint_of p ≡ some e
    → endpoint_of q ≡ some d
    → compare_gids_equal
        (get_gid_for_publisher p (some g)).1
        (get_gid_for_publisher q (some h)).1
        (some result)
      ≡ (ok, some (e.guid == d.guid))
unfolding compare_gids_equal identifiers_match bytes_eq
compare_gids_equal-get_gid_for_publisher p q e d g h result hp hq =
    rw (get_gid_for_publisher-eq p e g hp, get_gid_for_publisher-eq q d h hq) refl

-- The GID in the information that `rmw_take_with_info` writes holds the instance handle of the
-- publication in its first 8 bytes and zeros in the others, so that `rmw_compare_gids_equal` on two
-- such GIDs returns OK and says whether the handles are the same. The GID of
-- `rmw_get_gid_for_publisher` holds the writer's GUID: where the GUID's last 8 bytes, which end in its
-- entity id, are not all zero, `rmw_compare_gids_equal` on the two kinds returns OK and says that they
-- differ, also if the publisher sent the message.
pub compare_gids_equal-info_of :
    {Dds : Type 0} (p : Option (Handle Dds)) (e : EndpointData Dds) (g : Gid) (now : ℤ)
    (info info' : SampleInfo) (result : Bool)
    → endpoint_of p ≡ some e
    → (e.guid % 2 ^ 64 == 0) ≡ false
    → ((info_of now info).publisher_gid.bytes / 2 ^ 64 ≡ info.publication_handle)
      × ((info_of now info).publisher_gid.bytes % 2 ^ 64 ≡ 0)
      × (compare_gids_equal
            (some (info_of now info).publisher_gid)
            (some (info_of now info').publisher_gid)
            (some result)
          ≡ (ok, some (info.publication_handle == info'.publication_handle)))
      × (compare_gids_equal
            (get_gid_for_publisher p (some g)).1
            (some (info_of now info).publisher_gid)
            (some result)
          ≡ (ok, some false))
unfolding compare_gids_equal identifiers_match bytes_eq info_of
compare_gids_equal-info_of p e g now info info' result hp h =
    let m = info.publication_handle in
    let n = info'.publication_handle in
    let same : (m * 2 ^ 64 == n * 2 ^ 64) ≡ (m == n) = ground arith in
    let differ : (e.guid == m * 2 ^ 64) ≡ false = ground arith in
    (
      omega arith,
      omega arith,
      ap (λ b. (ok, some b)) same,
      rw (get_gid_for_publisher-eq p e g hp) (ap (λ b. (ok, some b)) differ),
    )
