-- ===== src/TypeSupport/Tests.antt =====
-- Type supports resolved, and the names of std_msgs/msg/UInt32.
use rmw_cyclonedds_c.Common.{◌≡◌, refl, true, false, none, some, bytes_eq}
use rmw_cyclonedds_c.Queries.{type_output_name, strstr, starts_with, slashes}
use rmw_cyclonedds_c.TypeSupport.{
  uint32_ros_name, uint32_dds_name, legacy_callbacks, resolve_type_support,
}

-- Without generated type support, the adapter serves the one type.
resolves_uint32 :
    resolve_type_support false
      (some (record { generated = none; description = some (some uint32_ros_name) }))
    ≡ some legacy_callbacks
unfolding resolve_type_support bytes_eq
resolves_uint32 = refl

resolves_nothing_else :
    resolve_type_support true
      (some (record { generated = none; description = some (some uint32_dds_name) }))
    ≡ none
unfolding resolve_type_support bytes_eq
resolves_nothing_else = refl

-- The graph queries turn the adapter's DDS name into its ROS name.
names_agree : type_output_name uint32_dds_name false ≡ uint32_ros_name
unfolding type_output_name strstr starts_with slashes
names_agree = refl
