-- ===== src/TypeSupport.antt =====
-- The type supports of rmw_cyclonedds_c/src/rmw_cyclonedds_c.c: `resolve_type_support` and the
-- adapter of std_msgs/msg/UInt32, behind the callbacks of
-- rosidl_typesupport_cyclonedds_c/include/rosidl_typesupport_cyclonedds_c/message_type_support.h.
pub mod Tests
use rmw_cyclonedds_c.Common.{
  ℕ, Bool, true, false, List, [], ◌∷◌, ◌++◌, Option, none, some, CString, bytes_eq, if◌then◌else◌,
}

-- `rosidl_typesupport_cyclonedds_c__message_type_support_callbacks_t`, less the descriptor; the
-- conversions are in Messages.
pub record Callbacks : Type 0 where
  pub ros_type_name : CString
  pub dds_type_name : CString
  pub ros_size : ℕ
  pub dds_size : ℕ

-- "std_msgs/msg/UInt32"
abbrev pub uint32_ros_name : CString
uint32_ros_name =
    115 ∷ 116 ∷ 100 ∷ 95 ∷ 109 ∷ 115 ∷ 103 ∷ 115 ∷ 47 ∷ 109 ∷ 115 ∷ 103 ∷ 47 ∷ 85 ∷ 73 ∷ 110 ∷ 116
    ∷ 51 ∷ 50 ∷ []

-- "std_msgs::msg::dds_::UInt32_"
abbrev pub uint32_dds_name : CString
uint32_dds_name =
    115 ∷ 116 ∷ 100 ∷ 95 ∷ 109 ∷ 115 ∷ 103 ∷ 115 ∷ 58 ∷ 58 ∷ 109 ∷ 115 ∷ 103 ∷ 58 ∷ 58 ∷ 100 ∷ 100
    ∷ 115 ∷ 95 ∷ 58 ∷ 58 ∷ 85 ∷ 73 ∷ 110 ∷ 116 ∷ 51 ∷ 50 ∷ 95 ∷ []

-- `legacy_uint32_type_support`; both structures hold one `uint32_t`.
abbrev pub legacy_callbacks : Callbacks
legacy_callbacks = record {
  ros_type_name = uint32_ros_name;
  dds_type_name = uint32_dds_name;
  ros_size = 4;
  dds_size = 4;
}

-- `rosidl_message_type_support_t`: `generated` is what
-- `rosidl_typesupport_c__get_message_typesupport_handle_function` finds for the identifier
-- "rosidl_typesupport_cyclonedds_c", `none` if that is null or has no data. `description` is `none`
-- without a `get_type_description_func`; behind it, `none` stands for a null description or type name.
pub record MessageTypeSupport : Type 0 where
  pub generated : Option Callbacks
  pub description : Option (Option CString)

-- `has_generated` says whether RMW_CYCLONEDDS_C_HAS_GENERATED_TYPESUPPORT is defined. The null
-- pointer is `none`.
unfoldable pub resolve_type_support : Bool → Option MessageTypeSupport → Option Callbacks
resolve_type_support has_generated none = none
resolve_type_support has_generated (some type_support) =
    let legacy : Option Callbacks = elim type_support.description [
      | none ↦ none
      | some none ↦ none
      | some (some type_name) ↦
          if bytes_eq type_name uint32_ros_name then some legacy_callbacks else none
    ] in
    elim type_support.generated [
      | none ↦ legacy
      | some callbacks ↦ if has_generated then some callbacks else legacy
    ]
