-- ===== src/Lib.antt =====
-- A net disk server in C: clients connect over TCP, make accounts, log in, walk and change a tree
-- of directories that is kept in MySQL, and download and upload files. The program's main thread
-- (src/main.c) waits with epoll, reads one message at a time (src/ser_cli.c), answers it with the
-- help of the database (src/sql.c) and hands clients that transfer a file over to threads
-- (src/factory.c).
--
-- Which file models which part:
-- - Base: lists and integers over the native numbers, the outcomes of a run of C code, arrays of
--   bytes and the functions of the C library that the program calls.
-- - Wire: include/head.h, include/ser_cli.h and src/ser_cli.c: Train_t, the codes, recvCYL
--   (`recv_cyl`) and one_recv. A socket is the list of what its next calls of recv give.
-- - Database: src/sql.c, function by function, each with the text of the statements that it sends.
--   Users has accounts and logs, Salt get_salt, Files the queries on files, Directories mkdir, cd
--   and rm (operate_func and cd_func).
-- - Balance: math_task of src/factory.c and the busy counts that main keeps.
-- - Server: main of src/main.c. `World` holds its variables, `Effect` what it does to sockets and
--   threads; Sessions and Requests have the cases of its switch, Loop the loop around them.
-- - Upload: upload_func, add_uptask and updisconect of src/factory.c: the slots of an upload thread
--   and the messages that fill a file.
-- - Download: down_func, add_task, del_task and disconnect of src/factory.c. `Session` is one client
--   of a thread with what its next calls of send come to; the slots of a client share its slice.
-- - Points: server/ser.c, the server of the multi-point download. What main reads where math_token
--   returns nothing is part of the event.
-- - Drive: enterprise_cloud_drive. Protocol has common/include/protocol.hpp and the loop of
--   server/src/cloud_server.cpp around try_decode, Base64 has base64.hpp. Storage is
--   server/src/storage_manager.cpp over the files by their paths, and Uploads the handlers of
--   FILE_UPLOAD_CHUNK and FILE_UPLOAD_COMMIT in cloud_server.cpp. Token is
--   server/src/jwt_service.cpp, with HMAC-SHA256 as a parameter. Sql is SQLite as a parameter, Index
--   server/src/file_index.cpp and Accounts auth_service.cpp and password_hasher.cpp. Cloud has the
--   requests of server/src/cloud_server.cpp: a handler for each command (Sessions, Folders,
--   Transfers), the dispatch (Requests), histories of messages and tasks (History), and the queue
--   of responses between workers and reactor as a step relation (Queue). Client is
--   client/src/client_app.cpp: call and read_message, the transfers (`Peer` is the server) and the
--   shell; Uploading, Downloading and Lost say what the transfers send and store.
-- - Tests: a scripted database and small runs.
--
-- A run is an `Outcome`: a value, a call of exit, undefined behaviour (an access outside an array, a
-- null pointer, a value that was never set) or a wait that never ends. The structs that main fills
-- by memcpy are lists of bytes, so that a short message leaves old bytes in them, as in C; text is
-- a list of bytes. An sprintf whose target is also its first argument is taken to append, as the
-- program means it. An int is not cut to 32 bits, except where its bytes are sent or received.
--
-- MySQL is a parameter, `Platform`: its state, and for each statement's text a reply and the next
-- state. So are inet_addr, the results of rand, and what accept and epoll_wait give. Of these only
-- one thing is assumed, where a theorem says so: that accept gives no descriptor of a connected
-- client.
--
-- The loop of cd that climbs to the root is given fuel, `climb_fuel`; where that is gone the run
-- waits for ever. No result depends on it. All other loops are by recursion on their data.
--
-- The loops of Download and Points over slots run over the slots that there are. Protocol and
-- Base64 give a loop as many rounds as it has bytes or bits, and the loop over '=' three. The loop of
-- an upload has a round for each byte and one more, which is shown to be enough; that of a download
-- has the rounds that it is given, as there are servers for which it does not end.
--
-- In Index and Accounts what SQLite's documentation says of the statements is a record of
-- hypotheses, over the rows of a table. What std::filesystem says of directories comes with each
-- message, like the clock and the random numbers; the files themselves are state.
--
-- Not modelled: set-up of sockets (src/tcpInit.c) and of the connection to MySQL, messages on the
-- terminal, the copies of server/ser.c in server1 and server2, the clients in client and client_cpp,
-- and of enterprise_cloud_drive the sockets of the reactor, the log and the configuration. Of the
-- code that is modelled these failures are left out: a result of -1 of accept in main, a read of
-- down_func that fails, open or mmap that fails in read_chunk, and an answer to the drive's client
-- that makes try_decode throw (read_message alone has it). A NULL filesize in a listing, which
-- printf does not define, is undefined here. The files of the drive are told apart by the texts of
-- their paths; where two texts may stand for one file, the theorems ask for different canonical paths.
pub mod Base
pub mod Wire
pub mod Database
pub mod Balance
pub mod Upload
pub mod Download
pub mod Drive
pub mod Points
pub mod Server
pub mod Tests
