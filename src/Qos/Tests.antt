-- ===== src/Qos/Tests.antt =====
-- The QoS that goes to DDS: the theorems at concrete inputs.
use rmw_cyclonedds_c.Common.{ℕ, ◌≡◌, refl, true, false, List, ◌∷◌, some, arith, replicate}
use rmw_cyclonedds_c.Qos.{
  QosProfile, History, Liveliness, Reliability, Durability, qos_is_supported,
}
use rmw_cyclonedds_c.Qos.UserData.{TypeHash, set_type_hash_user_data}
use rmw_cyclonedds_c.Qos.UserData.Decoded.{Encodes, set_type_hash_user_data-Encodes}
use rmw_cyclonedds_c.Qos.DdsQos.{create_dds_qos}
use rmw_cyclonedds_c.Qos.DdsQos.Profiled.{with_defaults, Profiled, create_dds_qos-Profiled}

abbrev hash : TypeHash
hash = record { version = 1; value = 0xab ∷ 7 ∷ replicate 30 0xff }

abbrev stack : List ℕ
stack = replicate 82 0xcc

set_type_hash_user_data-Encodes_example :
    Encodes hash (set_type_hash_user_data stack true (some hash))
set_type_hash_user_data-Encodes_example =
    set_type_hash_user_data-Encodes stack hash refl refl (omega arith)

abbrev latched : QosProfile
latched = record {
  history = History.keep_last;
  depth = 1;
  reliability = Reliability.reliable;
  durability = Durability.transient_local;
  deadline = record { sec = 0; nsec = 0 };
  lifespan = record { sec = 0; nsec = 0 };
  liveliness = Liveliness.automatic;
  liveliness_lease_duration = record { sec = 0; nsec = 0 };
  avoid_ros_namespace_conventions = false;
}

latched_is_supported : qos_is_supported (some latched) ≡ true
unfolding qos_is_supported
latched_is_supported = refl

create_dds_qos-Profiled_example :
    Profiled true latched true
      (set_type_hash_user_data stack true (some hash))
      (create_dds_qos true latched true stack true (some hash))
    × (qos_is_supported (some (with_defaults latched)) ≡ true)
    × (create_dds_qos true (with_defaults latched) true stack true (some hash)
        ≡ create_dds_qos true latched true stack true (some hash))
create_dds_qos-Profiled_example =
    create_dds_qos-Profiled true latched true stack true (some hash) latched_is_supported
