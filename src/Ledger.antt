-- ===== src/Ledger.antt =====
-- The memory and the DDS entities that rmw_cyclonedds_c/src/rmw_cyclonedds_c.c holds at a time, by
-- their use, the last one taken first.
use rmw_cyclonedds_c.Common.{ℕ, Bool, List, ◌∷◌, ◌==◌, if◌then◌else◌, erase_at, find_index}

-- What is taken: memory and DDS entities, by their use.
pub data Resource : Type 0 where
  handle topic_name endpoint dds_topic_name dds_qos dds_sample topic writer reader : Resource
  node_data node_name node_namespace guard_data guard : Resource
  wait_set_data attached triggered waitset : Resource
  context_impl discovery_options security_options enclave listener : Resource

abbrev pub tag : Resource → ℕ
tag handle = 0
tag topic_name = 1
tag endpoint = 2
tag dds_topic_name = 3
tag dds_qos = 4
tag dds_sample = 5
tag topic = 6
tag writer = 7
tag reader = 8
tag node_data = 9
tag node_name = 10
tag node_namespace = 11
tag guard_data = 12
tag guard = 13
tag wait_set_data = 14
tag attached = 15
tag triggered = 16
tag waitset = 17
tag context_impl = 18
tag discovery_options = 19
tag security_options = 20
tag enclave = 21
tag listener = 22

abbrev pub take_up_if : Bool → Resource → List Resource → List Resource
take_up_if made r live = if made then r ∷ live else live

-- The last one taken of this use goes.
unfoldable pub give_back : Resource → List Resource → List Resource
give_back r live = erase_at (find_index (λ x. tag x == tag r) live) live

unfoldable pub give_back_if : Bool → Resource → List Resource → List Resource
unfolding give_back
give_back_if held r live = if held then give_back r live else live
