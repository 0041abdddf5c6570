-- ===== src/Qos/DdsQos/Profiled.antt =====
-- A supported profile reaches DDS, less what the code does not read.
use rmw_cyclonedds_c.Common.{
  ℕ, ◌-◌, ◌^◌, ◌≤◌, ◌≡◌, refl, ap, sym, ◌⊎◌, inl, inr, Bool, true, false, ◌&&◌, List, Option, none,
  some, CString, arith, if◌then◌else◌, Option-cases,
}
use rmw_cyclonedds_c.Rmw.{ℤ, pos, negsuc}
use rmw_cyclonedds_c.Qos.{
  QosProfile, History, Liveliness, Time, Reliability, Durability, qos_is_supported,
}
use rmw_cyclonedds_c.Qos.UserData.{TypeHash, set_type_hash_user_data}
use rmw_cyclonedds_c.Qos.DdsQos.{
  DdsQos, DdsHistory, DdsReliability, DdsDurability, int32_of, is_reliable, is_transient_local,
  create_dds_qos,
}

-- The profile that a QoS of DDS stands for.
abbrev pub depth_of : ℤ → ℕ
depth_of (pos n) = n
depth_of (negsuc n) = 0

abbrev pub reliability_of : DdsReliability → Reliability
reliability_of DdsReliability.reliable = Reliability.reliable
reliability_of DdsReliability.best_effort = Reliability.best_effort

abbrev pub durability_of : DdsDurability → Durability
durability_of DdsDurability.transient_local = Durability.transient_local
durability_of DdsDurability.volatile = Durability.volatile

abbrev pub history_of : DdsHistory → History
history_of DdsHistory.keep_last = History.keep_last
history_of DdsHistory.keep_all = History.keep_all

abbrev pub unspecified : Time
unspecified = record { sec = 0; nsec = 0 }

-- A profile without a deadline, a lifespan and a liveliness of its own.
abbrev pub with_defaults : QosProfile → QosProfile
with_defaults qos = record qos {
  deadline = unspecified;
  lifespan = unspecified;
  liveliness = Liveliness.system_default;
  liveliness_lease_duration = unspecified;
}

abbrev pub profile_of : DdsQos → QosProfile
profile_of d = record {
  history = history_of d.history;
  depth = depth_of d.depth;
  reliability = reliability_of d.reliability;
  durability = durability_of d.durability;
  deadline = unspecified;
  lifespan = unspecified;
  liveliness = Liveliness.system_default;
  liveliness_lease_duration = unspecified;
  avoid_ros_namespace_conventions = false;
}

int32_of_small : (n : ℕ) → n ≤ 2 ^ 31 - 1 → int32_of n ≡ pos n
int32_of_small n h = ground arith

-- What `create_dds_qos` makes of a profile, where `user_data` is the encoded type hash, if it can be
-- encoded.
abbrev pub Profiled : Bool → QosProfile → Bool → Option CString → Option DdsQos → Type 0
Profiled made qos writer user_data none = (made ≡ false) ⊎ (user_data ≡ none)
Profiled made qos writer user_data (some d) =
    (profile_of d ≡ with_defaults qos)
    × (user_data ≡ some d.user_data)
    × (d.service_depth
        ≡ (if writer && is_transient_local qos.durability then some (pos qos.depth) else none))

-- What the check of a profile says of it.
record IsSupported (qos : QosProfile) : Type 0 where
  keep_last : qos.history ≡ History.keep_last
  fits : qos.depth ≤ 2 ^ 31 - 1
  reliability :
      (qos.reliability ≡ Reliability.reliable) ⊎ (qos.reliability ≡ Reliability.best_effort)
  durability :
      (qos.durability ≡ Durability.transient_local) ⊎ (qos.durability ≡ Durability.volatile)
  naming : qos.avoid_ros_namespace_conventions ≡ false

supported : (qos : QosProfile) → qos_is_supported (some qos) ≡ true → IsSupported qos
unfolding qos_is_supported
supported qos h = ground arith

reliability_kept :
    (r : Reliability)
    → (r ≡ Reliability.reliable) ⊎ (r ≡ Reliability.best_effort)
    → reliability_of (if is_reliable r then DdsReliability.reliable else DdsReliability.best_effort)
      ≡ r
reliability_kept r h = ground arith

durability_kept :
    (d : Durability)
    → (d ≡ Durability.transient_local) ⊎ (d ≡ Durability.volatile)
    → durability_of
        (if is_transient_local d then DdsDurability.transient_local else DdsDurability.volatile)
      ≡ d
durability_kept d h = ground arith

profiled :
    (made : Bool) (qos : QosProfile) (writer : Bool) (stack : List ℕ) (has_function : Bool)
    (hash : Option TypeHash)
    → qos_is_supported (some qos) ≡ true
    → Profiled made qos writer
        (set_type_hash_user_data stack has_function hash)
        (create_dds_qos made qos writer stack has_function hash)
unfolding create_dds_qos
profiled false qos writer stack has_function hash h = inl refl
profiled true qos writer stack has_function hash h =
    let s : IsSupported qos = supported qos h in
    let depth : int32_of qos.depth ≡ pos qos.depth = int32_of_small qos.depth s.fits in
    elim (Option-cases (set_type_hash_user_data stack has_function hash)) [
      | inl e ↦ rw (create_dds_qos, e) (inr refl)
      | inr e ↦
          rw (create_dds_qos, e.1)
            (
              λ i. record {
                history = sym s.keep_last i;
                depth = depth_of (depth i);
                reliability = reliability_kept qos.reliability s.reliability i;
                durability = durability_kept qos.durability s.durability i;
                deadline = unspecified;
                lifespan = unspecified;
                liveliness = Liveliness.system_default;
                liveliness_lease_duration = unspecified;
                avoid_ros_namespace_conventions = sym s.naming i;
              },
              refl,
              ap (λ n. if writer && is_transient_local qos.durability then some n else none) depth,
            )
    ]

-- `create_dds_qos`, for a profile that `qos_is_supported` accepts, either fails, because DDS makes no
-- QoS or the type hash cannot be encoded, or gives a QoS with the history, the depth, the reliability
-- and the durability of that profile: the depth does not change as a 32-bit number, the user data is
-- the encoded hash, and the durability service is set to the depth exactly for a transient-local
-- writer. The profile's deadline, lifespan and liveliness are ignored: with all of them at their
-- defaults the profile is accepted just the same, and the QoS is the same.
pub create_dds_qos-Profiled :
    (made : Bool) (qos : QosProfile) (writer : Bool) (stack : List ℕ) (has_function : Bool)
    (hash : Option TypeHash)
    → qos_is_supported (some qos) ≡ true
    → Profiled made qos writer
        (set_type_hash_user_data stack has_function hash)
        (create_dds_qos made qos writer stack has_function hash)
      × (qos_is_supported (some (with_defaults qos)) ≡ true)
      × (create_dds_qos made (with_defaults qos) writer stack has_function hash
          ≡ create_dds_qos made qos writer stack has_function hash)
unfolding create_dds_qos qos_is_supported
create_dds_qos-Profiled made qos writer stack has_function hash h =
    (profiled made qos writer stack has_function hash h, h, refl)
