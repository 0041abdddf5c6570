-- ===== src/LocalGraph/Endpoints.antt =====
-- What `graph_add_endpoint` and `graph_remove_endpoint` do to the rows of one node.
pub mod Row
pub mod Outcome
