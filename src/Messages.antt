-- ===== src/Messages.antt =====
-- Messages through publishers and subscriptions in rmw_cyclonedds_c/src/rmw_cyclonedds_c.c:
-- `rmw_publish`, `rmw_take`, `rmw_take_with_info`, the queries of an endpoint (actual QoS, GID,
-- matched endpoints), `rmw_compare_gids_equal`, and the adapter of std_msgs/msg/UInt32. The
-- conversions of a type support are arguments, and so is what `dds_write`, `dds_take` and
-- `dds_time` answer. A null pointer is `none`.
pub mod Sent
pub mod RoundTrip
pub mod Gids
pub mod Tests
use rmw_cyclonedds_c.Common.{
  ℕ, ◌-◌, ◌*◌, ◌^◌, Bool, true, false, ◌||◌, not, List, [], ◌∷◌, Option, none, some, CString, ◌==◌,
  if◌then◌else◌,
}
use rmw_cyclonedds_c.Rmw.{
  Ret, ok, error, unsupported, invalid_argument, ℤ, pos, negsuc, is_negative, map_dds_result, Guid,
}
use rmw_cyclonedds_c.Handles.{identifiers_match, implementation_identifier}
use rmw_cyclonedds_c.Qos.{QosProfile}

-- The conversions of a type support: each reads its source, writes its destination and says whether
-- it succeeded. `zero` is a sample of `dds_size` zero bytes.
pub record TypeSupport (Ros Dds : Type 0) : Type 0 where
  pub zero : Dds
  pub ros_to_dds : Ros → Dds → Bool × Dds
  pub dds_to_ros : Dds → Ros → Bool × Ros

-- `endpoint_data_t`, as messages use it.
pub record EndpointData (Dds : Type 0) : Type 0 where
  pub endpoint : ℤ
  pub guid : Guid
  pub qos : QosProfile
  pub dds_sample : Dds
  pub locked : Bool

-- `rmw_publisher_t` and `rmw_subscription_t`; `content` is what stands behind `data`.
pub record Handle (Dds : Type 0) : Type 0 where
  pub implementation_identifier : Option CString
  pub content : Option (EndpointData Dds)

abbrev pub is_zero : ℤ → Bool
is_zero (pos n) = n == 0
is_zero (negsuc n) = false

-- The endpoint of a handle that passes the guards.
unfoldable pub endpoint_of : {Dds : Type 0} → Option (Handle Dds) → Option (EndpointData Dds)
endpoint_of none = none
endpoint_of (some h) = if identifiers_match h.implementation_identifier then h.content else none

abbrev pub with_endpoint :
    {Dds : Type 0} → Option (Handle Dds) → EndpointData Dds → Option (Handle Dds)
with_endpoint none e = none
with_endpoint (some h) e = some (record h { content = some e })

abbrev pub lock_sample : {Dds : Type 0} → EndpointData Dds → EndpointData Dds
lock_sample e = record e { locked = true }

abbrev pub unlock_sample : {Dds : Type 0} → EndpointData Dds → EndpointData Dds
unlock_sample e = record e { locked = false }

module _ {Ros Dds : Type 0} (ts : TypeSupport Ros Dds) where
  -- `rmw_publish` behind its guards; `written` is what `dds_write` returns. The last part is the
  -- samples that DDS has taken.
  unfoldable pub publish_on : ℤ → Ros → EndpointData Dds → Ret × EndpointData Dds × List Dds
  publish_on written message e =
      let e1 = record (lock_sample e) { dds_sample = ts.zero } in
      let (converted, sample) = ts.ros_to_dds message e1.dds_sample in
      let e2 = record e1 { dds_sample = sample } in
      if not converted then (error, unlock_sample e2, []) else (
        map_dds_result written,
        unlock_sample e2,
        if is_negative written then [] else sample ∷ [],
      )

  -- `has_allocation` says whether the last argument is not null.
  unfoldable pub publish :
      ℤ → Option (Handle Dds) → Option Ros → Bool → Ret × Option (Handle Dds) × List Dds
  publish written publisher message has_allocation = elim message [
    | none ↦ (invalid_argument, publisher, [])
    | some m ↦ elim (endpoint_of publisher) [
      | none ↦ (invalid_argument, publisher, [])
      | some e ↦
          let (result, e', sent) = publish_on written m e in
          if has_allocation
          then (unsupported, publisher, [])
          else (result, with_endpoint publisher e', sent)
    ]
  ]

-- `dds_sample_info_t`; the handle is the number that its 8 bytes spell.
pub record SampleInfo : Type 0 where
  pub valid_data : Bool
  pub source_timestamp : ℤ
  pub publication_handle : ℕ

-- What DDS answers to a take: the result, what it leaves in the sample, and the time.
pub record TakeAnswers (Dds : Type 0) : Type 0 where
  pub result : ℤ
  pub sample : Dds
  pub info : SampleInfo
  pub now : ℤ

-- `rmw_gid_t`, with RMW_GID_STORAGE_SIZE 16: the number that the 16 bytes spell.
pub record Gid : Type 0 where
  pub implementation_identifier : Option CString
  pub bytes : ℕ

-- `rmw_message_info_t`
pub record MessageInfo : Type 0 where
  pub source_timestamp : ℤ
  pub received_timestamp : ℤ
  pub publication_sequence_number : ℕ
  pub reception_sequence_number : ℕ
  pub publisher_gid : Gid
  pub from_intra_process : Bool

abbrev pub zero_message_info : MessageInfo
zero_message_info = record {
  source_timestamp = pos 0;
  received_timestamp = pos 0;
  publication_sequence_number = 0;
  reception_sequence_number = 0;
  publisher_gid = record { implementation_identifier = none; bytes = 0 };
  from_intra_process = false;
}

-- RMW_MESSAGE_INFO_SEQUENCE_NUMBER_UNSUPPORTED, which is UINT64_MAX.
abbrev pub sequence_number_unsupported : ℕ
sequence_number_unsupported = 2 ^ 64 - 1

-- The 8 bytes of the handle stand in front of 8 zeroes.
unfoldable pub info_of : ℤ → SampleInfo → MessageInfo
info_of now info = record zero_message_info {
  source_timestamp = info.source_timestamp;
  received_timestamp = now;
  publication_sequence_number = sequence_number_unsupported;
  reception_sequence_number = sequence_number_unsupported;
  publisher_gid = record {
    implementation_identifier = some implementation_identifier;
    bytes = info.publication_handle * 2 ^ 64;
  };
  from_intra_process = false;
}

-- What the caller of a take gives: memory for the message, for `taken` and for the information.
pub record Target (Ros : Type 0) : Type 0 where
  pub message : Ros
  pub taken : Bool
  pub info : MessageInfo

module _ {Ros Dds : Type 0} (ts : TypeSupport Ros Dds) where
  -- `rmw_take_with_info` behind its guards.
  unfoldable pub take_on :
      TakeAnswers Dds → EndpointData Dds → Target Ros → Ret × EndpointData Dds × Target Ros
  take_on a e t =
      let e1 = record (lock_sample e) { dds_sample = ts.zero } in
      let e2 = record e1 { dds_sample = a.sample } in
      let (converted, message) = ts.dds_to_ros e2.dds_sample t.message in
      if is_negative a.result
      then (map_dds_result a.result, unlock_sample e2, t)
      else if is_zero a.result || not a.info.valid_data
      then (ok, unlock_sample e2, record t { taken = false })
      else if not converted
      then (error, unlock_sample e2, record t { message = message })
      else (
        ok,
        unlock_sample e2,
        record { message = message; taken = true; info = info_of a.now a.info },
      )

  -- `target` is `none` if one of the pointers for results is null.
  unfoldable pub take_with_info :
      TakeAnswers Dds
      → Option (Handle Dds)
      → Option (Target Ros)
      → Bool
      → Ret × Option (Handle Dds) × Option (Target Ros)
  take_with_info a subscription target has_allocation = elim target [
    | none ↦ (invalid_argument, subscription, none)
    | some t ↦ elim (endpoint_of subscription) [
      | none ↦ (invalid_argument, subscription, some t)
      | some e ↦
          let (result, e', t') = take_on a e t in
          if has_allocation
          then (unsupported, subscription, some t)
          else (result, with_endpoint subscription e', some t')
    ]
  ]

  -- `rmw_take`: the information goes into a local variable.
  unfoldable pub take :
      TakeAnswers Dds
      → Option (Handle Dds)
      → Option Ros
      → Option Bool
      → Bool
      → Ret × Option (Handle Dds) × Option (Target Ros)
  unfolding take_with_info
  take a subscription none taken has_allocation = take_with_info a subscription none has_allocation
  take a subscription (some message) none has_allocation =
      take_with_info a subscription none has_allocation
  take a subscription (some message) (some taken) has_allocation =
      take_with_info a subscription
        (some (record { message = message; taken = taken; info = zero_message_info }))
        has_allocation

-- `rmw_publisher_get_actual_qos` and `rmw_subscription_get_actual_qos`: the code and what stands
-- behind the second pointer.
unfoldable pub get_actual_qos :
    {Dds : Type 0} → Option (Handle Dds) → Option QosProfile → Ret × Option QosProfile
get_actual_qos handle none = (invalid_argument, none)
get_actual_qos handle (some qos) = elim (endpoint_of handle) [
  | none ↦ (invalid_argument, some qos)
  | some e ↦ (ok, some e.qos)
]

-- `rmw_get_gid_for_publisher`
unfoldable pub get_gid_for_publisher :
    {Dds : Type 0} → Option (Handle Dds) → Option Gid → Ret × Option Gid
get_gid_for_publisher publisher none = (invalid_argument, none)
get_gid_for_publisher publisher (some gid) = elim (endpoint_of publisher) [
  | none ↦ (invalid_argument, some gid)
  | some e ↦ (
    ok,
    some (record { implementation_identifier = some implementation_identifier; bytes = e.guid }),
  )
]

-- `rmw_publisher_count_matched_subscriptions` and `rmw_subscription_count_matched_publishers`;
-- `matched` is what DDS returns for the endpoint.
unfoldable pub count_matched :
    {Dds : Type 0} → (ℤ → ℤ) → Option (Handle Dds) → Option ℕ → Ret × Option ℕ
count_matched matched handle none = (invalid_argument, none)
count_matched matched handle (some count) = elim (endpoint_of handle) [
  | none ↦ (invalid_argument, some count)
  | some e ↦ elim (matched e.endpoint) [
    | pos n ↦ (ok, some n)
    | negsuc n ↦ (map_dds_result (negsuc n), some count)
  ]
]

-- `rmw_compare_gids_equal`
unfoldable pub compare_gids_equal : Option Gid → Option Gid → Option Bool → Ret × Option Bool
compare_gids_equal none gid2 result = (invalid_argument, result)
compare_gids_equal (some gid1) none result = (invalid_argument, result)
compare_gids_equal (some gid1) (some gid2) none = (invalid_argument, none)
compare_gids_equal (some gid1) (some gid2) (some result) =
    if not (identifiers_match gid1.implementation_identifier)
      || not (identifiers_match gid2.implementation_identifier)
    then (invalid_argument, some result)
    else (ok, some (gid1.bytes == gid2.bytes))

-- std_msgs/msg/UInt32 and its counterpart in DDS hold one `uint32_t`.
pub record UInt32 : Type 0 where
  pub content : ℕ

pub record DdsUInt32 : Type 0 where
  pub content : ℕ

-- `legacy_uint32_ros_to_dds` and `legacy_uint32_dds_to_ros`; `rmw_publish` and `rmw_take` pass no
-- null pointer.
unfoldable pub legacy_uint32_ros_to_dds : UInt32 → DdsUInt32 → Bool × DdsUInt32
legacy_uint32_ros_to_dds message sample = (true, record { content = message.content })

unfoldable pub legacy_uint32_dds_to_ros : DdsUInt32 → UInt32 → Bool × UInt32
legacy_uint32_dds_to_ros sample message = (true, record { content = sample.content })

-- `legacy_uint32_type_support`
abbrev pub legacy_uint32_type_support : TypeSupport UInt32 DdsUInt32
legacy_uint32_type_support = record {
  zero = record { content = 0 };
  ros_to_dds = legacy_uint32_ros_to_dds;
  dds_to_ros = legacy_uint32_dds_to_ros;
}
