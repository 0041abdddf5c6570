-- ===== src/Lib.antt =====
-- A model of rmw_cyclonedds_c, the RMW implementation in C over Cyclone DDS, with its proofs. The
-- code modelled is rmw_cyclonedds_c/src/rmw_cyclonedds_c.c, and the callbacks of
-- rosidl_typesupport_cyclonedds_c/include/rosidl_typesupport_cyclonedds_c/message_type_support.h.
--
-- The program. A context (`rmw_context_impl_t`) keeps two sides of the ROS graph. The outbound
-- side is the list of the process's own nodes with the GUIDs of their endpoints; each change to it
-- is announced to all peers as one snapshot (`graph_publish_locked`). The inbound side is a bounded
-- cache of participants, nodes and endpoints, fed by four discovery callbacks and by the context's
-- own announcements, and read by the graph queries. Each side has a spin lock. Publishers and
-- subscriptions own memory and DDS entities and appear on both sides; messages pass through the one
-- sample that each of them owns, converted by the callbacks of the type support. A wait set attaches
-- the conditions of subscriptions and guard conditions to DDS and reports which were triggered.
--
-- The files.
--   Common         Boolean tests, lists, bytes, lists with keys (Common/Keys), and arrays of fixed
--                  capacity with a count (Common/Table), with the loops that the code runs over them.
--   Rmw            `rmw_ret_t`, `dds_return_t`, GUIDs.
--   GraphCache     the inbound cache: `graph_cache_*`. GraphCache/View is its specification on lists,
--                  Participants, Snapshots and Endpoints the refinement, Valid and Invariant the
--                  invariant.
--   Discovery      `graph_data_available`, `participant_data_available`,
--                  `publication_data_available`, `subscription_data_available`. Discovery/Reach has
--                  every cache that a context can come to.
--   LocalGraph     the outbound side: `graph_publish_locked`, `graph_add_node`, `graph_remove_node`,
--                  `graph_copy_node`, `graph_add_endpoint`, `graph_remove_endpoint`. The
--                  `node_data_t` objects stand on a heap of addresses, since a node that moves down
--                  in the array tells its owner the new index. Consistent has the invariant, Gap,
--                  Nodes and Endpoints what the operations do.
--   Handles        the guards on `rmw_node_t` and `rmw_context_t`.
--   Queries        `rmw_count_publishers`, `rmw_count_subscribers`, `rmw_get_node_names`,
--                  `rmw_get_topic_names_and_types`. Queries/Listing is their specification on the
--                  view of the cache. An output is the whole array, null pointers included, also
--                  where a query fails half way.
--   Ledger         the memory and the DDS entities that are live, for all that follows.
--   Qos            `qos_is_supported`, `make_dds_topic_name`. Qos/UserData has
--                  `set_type_hash_user_data`, on its buffer of 82 bytes, and Qos/DdsQos
--                  `create_dds_qos`.
--   Entities       `rmw_create_publisher`, `rmw_create_subscription`, `rmw_destroy_publisher`,
--                  `rmw_destroy_subscription`, on a world of the local graph (with the cache inside)
--                  and a ledger. Entities/Destructors has the latter two. Entities/Ledger is about
--                  the ledger, Entities/Graph about the local graph, Entities/Destruction about a
--                  creation and the destruction of what it made.
--   NodeHandles    `rmw_create_node`, `rmw_destroy_node`, on the same world.
--   WaitSet        `attach_entity`, `rmw_wait`, with the list of what DDS has attached. WaitSet/Held is
--                  about this list, WaitSet/Series about many waits on one wait set, WaitSet/Stuck
--                  about one that fails half way through detaching.
--   Waitables      guard conditions and the making and destroying of wait sets, on the ledger.
--   Context        Context/DomainId has `get_domain_id`, with `strtoul` read from the C standard,
--                  Context/Options `rmw_init_options_init`, `rmw_init_options_copy` and
--                  `rmw_init_options_fini`, Context/Opening `create_graph_writer`,
--                  `create_discovery_reader` and `create_graph_readers`, and Context/Lifecycle
--                  `rmw_init`, `rmw_shutdown` and `rmw_context_fini`, on a ledger of the memory, the
--                  domain and the entities in it.
--   TypeSupport    `resolve_type_support` and the adapter for std_msgs/msg/UInt32.
--   Messages       `rmw_publish`, `rmw_take_with_info`, `rmw_take`, and what an endpoint answers:
--                  `rmw_publisher_get_actual_qos`, `rmw_get_gid_for_publisher`,
--                  `rmw_compare_gids_equal`, the matched counts.
--   Locks          `lock_graph`, `unlock_graph`, `lock_graph_cache`, `unlock_graph_cache`, as the
--                  functions on the two sides of the graph call them on each of their paths, and a step
--                  relation of any number of threads. Locks/Disciplined is about one thread,
--                  Locks/Owned about all of them.
--   Visibility     the local graph and the cache together, over the life of a context. Course has the
--                  orders of calls and samples, Announced and Calls what each call leaves in the cache.
-- The modules named Tests hold concrete inputs.
--
-- How the code is read. A function that takes a lock, updates and unlocks is one step, but in
-- Locks. An array with
-- a count is a `Table`; a write outside of it would change nothing, and the theorems on bounds say
-- that it does not occur. A C string is the list of the bytes in front of its NUL, a GUID the number
-- that its 16 bytes spell, a null pointer `none` or address 0. Numbers are natural numbers; `size_t`
-- wraps at 2 ^ 64 where the code subtracts without a test (`size_sub`). Loops are structural
-- recursion over their rounds or over the entries that they go through, so no fuel is needed. The
-- limits are those of the default build: 8 local nodes, 16 endpoints on each side of a node, 8
-- participants, 16 nodes and 32 endpoints in the cache, strings of 256 bytes, GIDs of 16 bytes.
--
-- What is outside the code is an argument: what `dds_write`, `dds_create_*`, `dds_delete`,
-- `dds_waitset_*` and the allocator return, the samples that `dds_take` hands out, the verdict of
-- `rmw_validate_full_topic_name`, the callbacks of a message type, what the rmw and rcutils libraries
-- answer for options, and what their finalisers make of the output of a query. A DDS creation has
-- made an entity if it returns a positive handle, and a read condition goes with its reader. A wait
-- set of DDS holds what was attached and not detached since.
--
-- No sample arrives between the making of a reader and the return of `rmw_init`.
--
-- Not modelled: the error texts; the blocking time and the resource limits that `create_dds_qos` gives
-- fixed values; rmw_cyclonedds_c/src/rmw_unsupported.c, which only reports that it does not support a call; the
-- type support generator of rosidl_typesupport_cyclonedds_c, which is Python and templates; tests
-- and scripts.
pub mod Common
pub mod Rmw
pub mod GraphCache
pub mod Discovery
pub mod LocalGraph
pub mod Handles
pub mod Queries
pub mod Ledger
pub mod Qos
pub mod Entities
pub mod NodeHandles
pub mod WaitSet
pub mod Waitables
pub mod Context
pub mod TypeSupport
pub mod Messages
pub mod Locks
pub mod Visibility
