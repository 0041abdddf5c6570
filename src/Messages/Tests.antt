-- ===== src/Messages/Tests.antt =====
-- Messages of std_msgs/msg/UInt32: the theorems at concrete inputs.
use rmw_cyclonedds_c.Common.{
  ◌/◌, ◌==◌, ◌%◌, ◌^◌, ◌≡◌, refl, true, false, [], ◌∷◌, none, some, bytes_eq,
}
use rmw_cyclonedds_c.Rmw.{ok, pos}
use rmw_cyclonedds_c.Handles.{implementation_identifier, identifiers_match}
use rmw_cyclonedds_c.Entities.Tests.{profile}
use rmw_cyclonedds_c.Messages.{
  UInt32, DdsUInt32, EndpointData, Handle, Target, TakeAnswers, SampleInfo, zero_message_info,
  legacy_uint32_type_support, endpoint_of, with_endpoint, take_with_info, Gid, info_of,
  compare_gids_equal, get_gid_for_publisher,
}
use rmw_cyclonedds_c.Messages.Sent.{Settled, Taken, take_with_info-Taken}
use rmw_cyclonedds_c.Messages.Gids.{compare_gids_equal-info_of}
use rmw_cyclonedds_c.Messages.RoundTrip.{
  publish_all, take_all, take_all-publish_all, legacy_uint32-Lossless,
}

-- A sample of an earlier message is left in the endpoint.
abbrev used : EndpointData DdsUInt32
used = record {
  endpoint = pos 12;
  guid = 77;
  qos = profile;
  dds_sample = record { content = 9 };
  locked = false;
}

abbrev handle : Handle DdsUInt32
handle = record { implementation_identifier = some implementation_identifier; content = some used }

abbrev target : Target UInt32
target = record { message = record { content = 5 }; taken = false; info = zero_message_info }

abbrev info : SampleInfo
info = record { valid_data = true; source_timestamp = pos 100; publication_handle = 3 }

own_handle : endpoint_of (some handle) ≡ some used
unfolding endpoint_of identifiers_match bytes_eq
own_handle = refl

take_all-publish_all_example :
    take_all legacy_uint32_type_support info
      (pos 200)
      (some handle)
      (some target)
      (publish_all legacy_uint32_type_support
        (some handle)
        (record { content = 1 } ∷ record { content = 2 } ∷ [])).1
    ≡ some (record { content = 1 }) ∷ some (record { content = 2 }) ∷ []
take_all-publish_all_example =
    take_all-publish_all legacy_uint32_type_support legacy_uint32-Lossless info (pos 200)
      (some handle) (some handle) used used target
      (record { content = 1 } ∷ record { content = 2 } ∷ []) own_handle own_handle refl

-- DDS has no sample.
abbrev nothing : TakeAnswers DdsUInt32
nothing = record { result = pos 0; sample = record { content = 0 }; info = info; now = pos 200 }

take_with_info-Taken_example :
    (e' : EndpointData DdsUInt32) × (t' : Target UInt32) × ((take_with_info
        legacy_uint32_type_support nothing
        (some handle)
        (some target)
        false).1
      ≡ with_endpoint (some handle) e')
    × ((take_with_info legacy_uint32_type_support nothing (some handle) (some target) false).2
        ≡ some t')
    × Settled legacy_uint32_type_support used e'
    × Taken legacy_uint32_type_support nothing target
        (take_with_info legacy_uint32_type_support nothing (some handle) (some target) false).0
        t'
take_with_info-Taken_example =
    take_with_info-Taken legacy_uint32_type_support nothing (some handle) used target own_handle

abbrev blank_gid : Gid
blank_gid = record { implementation_identifier = none; bytes = 0 }

-- GUID 77 was heard of under the handle 3.
compare_gids_equal-info_of_example :
    ((info_of (pos 200) info).publisher_gid.bytes / 2 ^ 64 ≡ info.publication_handle)
    × ((info_of (pos 200) info).publisher_gid.bytes % 2 ^ 64 ≡ 0)
    × (compare_gids_equal
          (some (info_of (pos 200) info).publisher_gid)
          (some (info_of (pos 200) info).publisher_gid)
          (some true)
        ≡ (ok, some (info.publication_handle == info.publication_handle)))
    × (compare_gids_equal
          (get_gid_for_publisher (some handle) (some blank_gid)).1
          (some (info_of (pos 200) info).publisher_gid)
          (some true)
        ≡ (ok, some false))
compare_gids_equal-info_of_example =
    compare_gids_equal-info_of (some handle) used blank_gid (pos 200) info info true own_handle refl
