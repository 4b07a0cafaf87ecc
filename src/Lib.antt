-- ===== src/Lib.antt =====
-- A model of the Realm C++ SDK, the C++ interface of the Realm database.
--
-- The SDK is a layer over realm-core. A class with a schema is stored as objects of a table; managed
-- objects read and write columns of realm-core through a bridge; queries are written as expressions
-- on managed objects and become queries of realm-core; notifications come as change sets and are
-- handed to the user's blocks; a scheduler brings work to the thread of the event loop; and HTTP
-- requests and websocket endpoints go through transports of the SDK's own. realm-core, libuv, the
-- network and TLS are not part of the repository: what is used of them is a parameter, with laws
-- where a theorem needs some.
--
-- Prelude       shared names, Boolean tests, lists, texts as lists of bytes (Bytes), std::stoi and
--               std::to_string (Numbers).
-- Scheduler     src/cpprealm/schedulers/default_scheduler.cpp: invocation_queue and uv_scheduler. A
--               state is the handle's data, the flag that uv_async_send sets, the local vector of
--               invoke_all and what was deleted with the data; threads and the loop are a sequence of events (`step`, `run`).
-- Net           Ipv4: is_valid_ipv4 of src/cpprealm/internal/networking/network_transport.cpp. The
--               loop over std::getline runs on fuel; the length of the text is enough, since every
--               segment takes a byte.
--               Transport, Transport/Send: default_http_transport::send_request_to_server of the same
--               file, from the choice of the endpoint to the completion, as a function from the
--               answers of the network (`World`), exceptions included, to a `Trace`: what was sent, the
--               calls of the completion block, and how the call ends. Headers: std::map and HTTPHeaders as
--               association lists. Uri: what realm-core's parser gives.
--               Shim: core_http_transport_shim of src/cpprealm/internal/networking/shims.cpp, which
--               hands the requests of realm-core to that transport.
--               Endpoint: src/cpprealm/internal/networking/utils.cpp, the conversions of websocket
--               endpoints.
-- Schema        include/cpprealm/schema.hpp: the conversion of a schema for realm-core
--               (to_core_schema) and property_value_for_name. The pack of properties is a list.
-- Observe       include/cpprealm/observation.hpp: object_change_callback_wrapper as a state machine
--               over calls of before, after and error; undefined behaviour is `none`. It reads values
--               through Schema. Collections: collection_callback_wrapper and, from
--               include/cpprealm/results.hpp, results_callback_wrapper. Dictionaries: the notifications
--               by key of src/cpprealm/internal/bridge/dictionary.cpp.
-- Query         include/cpprealm/rbool.hpp: rbool, its tests, operators and predicates, with the
--               comparisons behind link chains of src/cpprealm/internal/bridge/query.cpp (subexpr) and
--               of objects that a dictionary links to, on
--               an interface `Core` to realm-core's queries; Query/Laws states what these mean.
-- Mixed         src/cpprealm/internal/bridge/mixed.cpp: which object owns the bytes of a text under
--               construction, copy, assignment and move, in the build with
--               CPPREALM_HAVE_GENERATED_BRIDGE_TYPES.
-- Managed       include/cpprealm/managed_numeric.hpp: the arithmetic operators of optional numbers, on an
--               object as a function from columns to values; and the comparisons of numbers and of
--               enumerations, in a query (through Query) and on an object.
--               Text: src/cpprealm/managed_string.cpp, the element access and the operations of
--               managed strings, on an object as a function from columns to texts.
--               Decimal: src/cpprealm/managed_decimal.cpp, the arithmetic operators of its macros.
--               Binary: src/cpprealm/managed_binary.cpp, binary data and the boxes of optional ones,
--               with the copy of src/cpprealm/internal/bridge/binary.cpp.
--               Variant: include/cpprealm/managed_mixed.hpp, which alternative a property holds, by the
--               numbers of the two enumerations of types.
-- Containers    include/cpprealm/managed_list.hpp, managed_set.hpp, managed_dictionary.hpp and
--               results.hpp: iterators as an index and an address, and the loops over them, on fuel;
--               one round for each value and one to end is enough. Core is the interface to realm-core's
--               List, Set and Dictionary with laws, Objects makes objects in its tables; Vector,
--               Set, Map and Found are the four classes, whose state is realm-core's collection. Small has collections for the tests.
-- Bson          src/cpprealm/bson.cpp. Values: bsoncxx, its constructors, conversions and get_type, on
--               realm-core's values (Core). Documents: copies and changes of documents, in the build
--               with shared pointers and in the other. Iterators: the operators that move them.
-- Database      include/cpprealm/db.hpp: write transactions, on an interface to realm-core's Realm (visible
--               and committed data). Links: accessor<T*> and accessor<std::vector<T*>> of
--               include/cpprealm/accessors.hpp and push_back of include/cpprealm/managed_list.hpp, which
--               make the objects that are linked to and set their properties, which may throw, on tables and lists of realm-core (Containers/
--               Objects and Core). Collections: the accessors of sets and maps of the same file, on
--               realm-core's collections (Containers/Core). Columns: set_list_values of
--               src/cpprealm/internal/bridge/obj.cpp.
-- Subscriptions include/cpprealm/flex_sync.hpp and src/cpprealm/flex_sync.cpp: the changes of a set of sync
--               subscriptions and `update`, with the expressions of Query, on realm-core's sets.
--
-- Pointers      include/cpprealm/link.hpp: managed<T*>, its assignments and comparisons, on an interface to
--               the links of realm-core's objects, and in queries (Query). Detach: `detach` of objects
--               and pointers, with that of include/cpprealm/macros.hpp, on fuel; one unit more than the
--               longest chain of classes is enough where no class leads back to itself.
-- Configuration src/cpprealm/internal/bridge/realm.cpp: configurations in variables, with copies that
--               share or not by the build, and SyncConfigs behind pointers. Values is the same on plain
--               values. Startup: what opening the first Realm of a process does.
-- Session       src/cpprealm/internal/bridge/sync_session.cpp: the promises of a sync session, as a state
--               machine over waits, calls of the lambdas, commands and the end of the session.
-- Analytics     src/cpprealm/analytics.cpp on Linux. The search through the buffer has one unit of fuel
--               more than the buffer has bytes.
--
-- Not modelled: the accessors of single values; the mappings of logger levels; the JSON text of the
-- analytics; the arithmetic of floating-point numbers and the formats of identifiers and times,
-- which the SDK only passes on; App and user and most of the bridge, which
-- forward calls to realm-core; and the thread identities of schedulers.
pub mod Prelude
pub mod Scheduler
pub mod Subscriptions
pub mod Net
pub mod Schema
pub mod Observe
pub mod Query
pub mod Mixed
pub mod Managed
pub mod Containers
pub mod Bson
pub mod Database
pub mod Analytics
pub mod Configuration
pub mod Session
pub mod Pointers
