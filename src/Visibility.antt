-- ===== src/Visibility.antt =====
-- What the graph queries of the own process find of its nodes: the local graph and the inbound cache
-- of a context in rmw_cyclonedds_c/src/rmw_cyclonedds_c.c together.
pub mod Announced
pub mod Calls
pub mod Course
pub mod Tests
