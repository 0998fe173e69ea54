-- ===== src/Lib.antt =====
-- Secure Chat, a chat server with its client in C: a verification of the parts that carry its logic.
--
-- The parts, and how they meet. A client and the server exchange lines of text over TLS. A line holds
-- one message (common/src/protocol.c). The server keeps the clients that are logged in in a hash table
-- with a mutex for each bucket (common/src/hash_map.c). One thread for each client parses its lines and
-- pushes the messages to one queue (common/src/sts_queue.c); another thread pops them and writes each to
-- the connection of its recipient (server/src/server.c). Walks through the table push PINGs, quit signals
-- and broadcasts. The client handles every message in one function that drives the state of its window
-- (client/src/client_msg_handler.c, client/src/client_gui.c).
--
-- The files.
--   Prelude: numbers, lists, C strings, and `Run`: code that ends in a value or in a named fault, such as
--     an access outside an array, a NULL dereference, or a mutex locked twice by one thread. A C string is
--     the list of its bytes up to the NUL.
--   Protocol: `message`. Protocol/Create: create_message, its arguments as `Arg`, since a caller may point
--     into the message itself. Protocol/Wire: send_message and parse_message; the conversions of sscanf
--     are read one by one, and a mismatch keeps what the structure held. Protocol/Number: %d, %u, sscanf
--     and atoi on `int` and `uint32_t`. Protocol/Codes and Protocol/Names: types, codes and their texts.
--     Protocol/Hash: get_hash. Protocol/Wire/Sendable: the messages of the server that a line carries whole.
--     Protocol/Wire/Buffer: a line in front of what the buffer held.
--   Connection: client_connection, which the threads share by pointer, in a store.
--   HashMap: hash_map_create, _destroy, _find, _insert, _erase, _clear, _iterate and _iterate2. A bucket
--     is the list of the connections of its nodes; `Held` are the mutexes that the calling thread holds.
--     HashMap/Strtoul: strtoul to the base 16.
--   HashMap/Refine: the table as a directory of UIDs.
--   StsQueue: create, push and pop on a heap of elements. StsQueue/Order: any sequence of calls.
--   Client: the client and its state, reset_state. Client/Display: add_message. Client/Handler:
--     handle_message, one function for each group of its branches; Client/Handler/Uid: MESSAGE_UID.
--   Client/Link: init_ssl and destroy_ssl of client/src/client_openssl.c, and connect_to_server,
--     cleanup_client_connection and attempt_reconnection of client/src/client.c, over numbered objects.
--     Client/Receive: receive_messages. Client/Input: the keys of ui_cycle. Client/Heartbeat:
--     handle_server_ping.
--   Server: send_ping, send_quit_signal, send_broadcast, send_join_message, kick_unresponsive, the walks
--     that call them, the loop bodies of handle_client and handle_msg_queue. Server/Line: the line
--     that handle_client logs, as a format (Log/Format). Server/Info: a turn of handle_info_update, and
--     format_uptime.
--   Log: the slots of common/src/log.c, the wait for the lock of a file, and the lines that are written.
--   Database: connect_db and setup_db of server/src/server_db.c, over what SQLite returns.
--   Auth: user_auth of server/src/server_auth.c. Auth/Dialog: the connection, the database and the structure
--     that the dialog works on; Auth/Register and Auth/Login: its two branches; Auth/Turn: a turn of its
--     loop, the loop and the label `cleanup`.
--   Server/Accept: handle_connection_add, and the threads that run_server starts.
--   Session: handle_client, from the authentication to the end of the connection.
--   Cli: srv_exec_line of server/src/server_cli.c and the commands of server/src/server.c.
--   Tls: the files, the objects of OpenSSL that are alive, and the pointers of the server. Tls/Generate:
--     the functions of server/src/server_openssl.c that make the key and the certificate; Tls/Init:
--     init_ssl. Tls/Restart: a server that is started again and again on one disk.
--   Startup: run_server up to its last loop, in the order of its calls, bind_loop its loop of bind, and
--     exit_status the main of the server.
--   Handshake: the end of user_auth and the client's handle_message together, over the two lines that
--     user_auth writes. `greets` is its end behind a login or a registration.
--   Tests: the theorems applied to concrete messages, tables, queues and sessions.
--
-- Bounds. A message uses the sizes of common/include/protocol.h: identifiers of 128 bytes,
-- payloads of 2047 bytes, a line buffer of 4096 bytes. Most loops are recursion on a list or on a
-- number, such as the three attempts of a login; a thread runs for a list of turns, of any length.
-- Two loops take fuel: the tokens of a command take the length of the line, of which each token
-- takes a byte, and the wait for the lock of a log takes 5001 rounds, more than its timeout
-- allows. The loop of bind is recursion on the attempts that are left, 120 at its start.
-- `size_t` counters wrap at 2^64, payload lengths at 2^32.
--
-- Parameters. The digest, the clock, the TLS connection, SQLite, malloc, the system's calls of
-- run_server and the initialisation of mutexes are arguments, and so is which pointers `free` takes: a
-- theorem that frees the structure of a client assumes that it, a local variable, is not among them.
-- Of the digest only its width is assumed, and only where a theorem names it. What OpenSSL writes to a
-- PEM file and reads from one is an argument, too, and so is the result of each of its calls; where a
-- theorem names `IsPem`, it reads back the key and the certificate that it has written, and the key
-- fits its certificate.
--
-- Left out. Printing and drawing, the thread that reads the command line, and the log lines of the
-- other parts; the destruction of the queue, which only frees; run_client, which starts and joins the
-- threads of the client around its window; the end of run_server, which joins threads that nothing
-- ends. The fields of the certificate are set by calls of OpenSSL that only write to it. The text of a
-- received line is what stands in the buffer up to its first NUL; where none stands there it is a
-- fault. Where a login goes on with the structure of a client that is online, Auth writes to that
-- structure, and no theorem follows what becomes of the thread that it belongs to. Data races are not
-- modelled: each function, and each turn of a thread, is one step.
pub mod Prelude
pub mod Protocol
pub mod Connection
pub mod HashMap
pub mod StsQueue
pub mod Client
pub mod Server
pub mod Log
pub mod Database
pub mod Auth
pub mod Cli
pub mod Session
pub mod Tls
pub mod Startup
pub mod Handshake
pub mod Tests
