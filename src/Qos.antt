-- ===== src/Qos.antt =====
-- The QoS profile and the names that rmw_cyclonedds_c/src/rmw_cyclonedds_c.c hands to DDS:
-- `qos_is_supported` and `make_dds_topic_name`.
pub mod UserData
pub mod DdsQos
pub mod Tests
use rmw_cyclonedds_c.Common.{
  ℕ, ◌-◌, ◌^◌, Bool, true, false, ◌||◌, not, ◌++◌, Option, none, some, CString, ltb, ◌==◌,
  if◌then◌else◌, length, get_or,
}
use rmw_cyclonedds_c.Queries.{topic_prefix}

pub data History : Type 0 where
  system_default keep_last keep_all unknown : History

pub data Reliability : Type 0 where
  system_default reliable best_effort unknown best_available : Reliability

pub data Durability : Type 0 where
  system_default transient_local volatile unknown best_available : Durability

pub data Liveliness : Type 0 where
  system_default automatic manual_by_topic unknown best_available : Liveliness

-- `rmw_time_t`
pub record Time : Type 0 where
  pub sec : ℕ
  pub nsec : ℕ

-- `rmw_qos_profile_t`. Of the deadline, the lifespan and the liveliness the code reads nothing.
pub record QosProfile : Type 0 where
  pub history : History
  pub depth : ℕ
  pub reliability : Reliability
  pub durability : Durability
  pub deadline : Time
  pub lifespan : Time
  pub liveliness : Liveliness
  pub liveliness_lease_duration : Time
  pub avoid_ros_namespace_conventions : Bool

abbrev is_keep_last : History → Bool
is_keep_last keep_last = true
is_keep_last _ = false

abbrev is_known_reliability : Reliability → Bool
is_known_reliability best_effort = true
is_known_reliability reliable = true
is_known_reliability _ = false

abbrev is_known_durability : Durability → Bool
is_known_durability volatile = true
is_known_durability transient_local = true
is_known_durability _ = false

-- A null pointer is `none`. The largest depth is `INT32_MAX`.
unfoldable pub qos_is_supported : Option QosProfile → Bool
qos_is_supported none = false
qos_is_supported (some qos) = not (
    not (is_keep_last qos.history)
    || qos.depth == 0
    || ltb (2 ^ 31 - 1) qos.depth
    || not (is_known_reliability qos.reliability)
    || not (is_known_durability qos.durability)
    || qos.avoid_ros_namespace_conventions)

-- `memory` says whether the allocation succeeds. The result is the name in the new memory.
unfoldable pub make_dds_topic_name : Bool → Option CString → Option CString
make_dds_topic_name memory none = none
make_dds_topic_name memory (some ros_topic) =
    if not (get_or ros_topic 0 0 == 47)
    then none
    else if ltb (2 ^ 64 - 1 - 3) (length ros_topic)
    then none
    else if not memory
    then none
    else some (topic_prefix ++ ros_topic)
