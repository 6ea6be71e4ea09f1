-- ===== src/Lib.antt =====
-- Chatweb's server is one process of C: a WebSocket server that accepts clients, a pool of their
-- connections, a thread pool that runs the handlers, and services for messages, files, users and
-- monitoring, all of which stand on the containers and codecs of utils.c. This library models the
-- parts that carry state of their own: the containers, the codecs, the connections' queues and
-- limits, the thread pool, the WebSocket server, the login, file transfers, alerts, the pool of
-- database connections, the dispatch of messages, and the start and stop of the server that puts them together.
--
-- Files, and the code they model (paths from the repository's root):
--   Libc                  what the code relies on of ctype.h, string.h and strtol
--   Utils/RingBuffer      ring_buffer_t of server/src/utils.c and server/include/utils.h
--   Utils/StringBuilder   string_t
--   Utils/Codec           utils_hex_*, utils_url_* and utils_json_escape/unescape
--   Utils/HashTable       hash_table_t and its hash functions
--   Utils/LinkedList      list_t on a memory of nodes; Insert and Contents have the theorems
--   Utils/Config          config_t, on the hash table; Pointers and Laws have the theorems
--   Utils/Paths           utils_path_*, but for the directory name and normalisation
--   Utils/Strings         utils_strtrim and its kin, letter case, prefix, suffix and count
--   Connection/Deadline   the deadlines of message_queue_push/pop and of threadpool_wait
--   Connection/RateLimiter  the rate limiter and connection_send of server/src/connection.c
--   Connection/MessageQueue  message_queue_t
--   Connection/Pool       connection_pool_t: creation, growth, addition and the lookups
--   Connection/Messages   messages with their headers: connection_send_message, its counterpart
--                         connection_receive_message and connection_process_data; Sending, Loop,
--                         RoundTrip, Draining and Torn have the theorems
--   ThreadPool            the lists and counters of server/src/threadpool.c; Config has its sizes,
--                         Accounting its steps in any order, Tail the shared tail pointer
--   WebSocket/Frame       websocket_create_frame and websocket_parse_frame of
--                         server/src/websocket_server.c; Masking has the masks, RoundTrip the theorems
--   WebSocket/Receive     process_websocket_frame; Fragments and Single have its theorems
--   WebSocket/Handshake   handle_handshake
--   WebSocket/Closing     the close frame of remove_client
--   WebSocket/Server      the array of clients; Rounds has the rounds of the threads, Sending
--                         the sends and broadcasts, Connecting and Waiting what holds before a
--                         handshake, and the steps of a server
--   Auth                  auth_login_user of server/src/auth.c; Lockout has its theorems, Names and
--                         Passwords the tests of names, addresses and passwords
--   Transfer              server/src/file_transfer.c: Chunks has the chunks of a file, Process the
--                         rounds of the manager, Sessions the lists of sessions; Upload,
--                         Completion, Reading, Download, Retries and Sessions/Chains have the theorems
--   Monitoring            the alerts of server/src/monitoring.c; Store and Thresholds have the theorems
--   Database              the pool of connections of server/src/database.c; Counts, Pool and
--                         Release have its theorems
--   ServerCore            server_init, server_start, server_stop and server_destroy of
--                         server/src/server_core.c; Parts, Life and Retry have the theorems
--   MessageHandler        server/src/message_handler.c: the registry and the dispatch of messages;
--                         Kinds and Defaults have their types and first handlers, Chat the handler
--                         of a text; Registry, Access, Counting, Guarded and Receivers have the theorems
--   Tests                 the theorems at concrete inputs
-- A definition has the name of the C function, without `utils_`, or, for a part of one, a name of
-- its own. Operations that the code runs under a mutex are functions of the state; the allocator, the clock, the
-- transport and the wakes of a condition variable are arguments. `none` is a fault (memory past an
-- object, a null pointer, a division by zero) or what the comment there says.
--
-- Numbers are natural; size_t and uint64_t wrap at 2^64 and the limiter's counters at 2^32 where
-- the code adds. Objects are smaller than 2^63 bytes, as the invariants say. Loops whose end is not
-- structural run on fuel: the ring buffer's on the number of bytes that move, since each
-- round moves one at least, and the string's growth on 64 doublings, which pass any length below
-- 2^62. The search of a session along its chain runs on any fuel that is given, since chains may
-- be of any length; the loop over the data of a connection on their length, since a message has 64
-- bytes at least; that it has run out is a result of its own (`endless`).
--
-- Bit fields are laid out by the compiler, so their order is an argument (BitOrder). A thread that
-- locks a mutex that it holds is a result of its own (`deadlocks`, `stuck`).
--
-- Not modelled: sockets, TLS, files, logging and the freeing of memory. Of the database, the
-- statements of a login are functions of the tables they name. Of file transfer, the codecs and the
-- file system are arguments, and messages are left out; of monitoring, the measurements are left
-- out. So are most message handlers, the send queue of a connection, the tokens and sessions of a
-- login, the server's configuration file and the loading and saving of config_t, and so is the
-- removal of a connection, which frees a part of an array. The client, the database's statements and
-- the functions that turn a message's header into bytes, which no file has, are left out too.
pub mod Base
pub mod Libc
pub mod Utils
pub mod Connection
pub mod ThreadPool
pub mod WebSocket
pub mod Auth
pub mod Transfer
pub mod Monitoring
pub mod Database
pub mod ServerCore
pub mod MessageHandler
pub mod Tests
