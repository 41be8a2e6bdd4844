-- ===== src/Lib.antt =====
-- A model of the video service: viewers ask over websockets for cameras, and adapter clients (CMS
-- clients), which own the cameras, are told over TCP to start and to stop them.
--
-- The parts, and the files that model them:
-- - Prelude: Boolean tests, lists, ordered maps (`std::map`), texts (`std::string` as bytes), signed
--   numbers, and `Exec`, the result of code that may fault: `crash` is undefined behaviour or an
--   exception that nothing catches, `no_fuel` a loop that was given too few rounds.
-- - Wss/Room: atb_wss/LiveRoom.h and LiveRoom.cc, the viewers of one camera.
-- - Wss/Server: atb_wss/WebSocketServer.h and WebSocketServer.cc, the table of connections and the
--   check for silent ones (`CheckConnectionState` is `check_connection_state`).
-- - Wss/PlayMngr and Wss/Requests: atb_wss/PlayMngr.h and PlayMngr.cc: `join_liveroom`,
--   `quit_liveroom`, `handle_request`, `NotifyHls`, and a turn of `state_threadfunc`.
-- - Wss/Events: what the websocket library, the HTTP side and the state thread can do, as one
--   transition function over the manager's state.
-- - Wss/Queue: `onMessage` and the worker that takes its messages from the thread pool.
-- - Wss/Keeping: what the adapter's side keeps, whatever happens to the play manager.
-- - Wss/Expiry, Rooms, Invariant, Safety, Service, Members, Viewers, Lifecycle, Collision, Delivery:
--   theorems of these.
-- - Adapter/Clock: the times of day of atb_adapter/global.cpp.
-- - Adapter/Wire: atb_adapter/msg_def.h, sockio.h and task_tcpreadmsg.cpp, the messages.
-- - Adapter/Client: atb_adapter/cms_client.h and cms_client.cpp, a client's cameras and its messages.
-- - Adapter/Server, Session and Refresh: atb_adapter/server_tcpsrv.h and server_tcpsrv.cpp, and those
--   parts of cms_client.cpp that send: the list of clients, login, and the look at all clients at the
--   start of each turn of `Run`.
-- - Adapter/Control: atb_adapter/AdapterServer.cpp and, of AdapterService.cpp, the handler that the
--   play manager uses: `adapter_handler` joins the two halves of the service.
-- - Adapter/PushUrl: `CheckPushParser` and `HandlePushCheck` of AdapterService.cpp.
-- - Adapter/Token and Sending: `GeneralToken` of atb_adapter/global.cpp, and `ETSend` of sockio.h.
-- - Adapter/Listing: `GetDeviceList` and `TcpServer::Stop`.
-- - Adapter/Unused: `HandleUploadDevs` and `HandleLogin`, which nothing calls, and the destructor of a
--   client.
-- - Adapter/Events: all that happens to the list of clients, as one function over events.
-- - Adapter/Reading, Unique, Overlap, Waiting, Schedule, Playing, Play, Stopped, Starts, Machine,
--   Lasting, Faults: theorems of these.
--
-- The third part:
-- - Pool: atb_sak/src/thread/threadpool.cpp, which runs the tasks of both sides: its operations, and
--   its threads, with the condition variable that they wait for, as a step relation. Pool/Threads: how
--   they are created and joined. Pool/Order and Pool/Ending: theorems of these.
--
-- The database helper:
-- - Db/Sql, Query, Account, Camera and Lists: atb_adapter/db_helper.h and db_helper.cpp, its statements
--   as text and its operations. The pool of connections and what mysql answers are the parameter
--   `Mysql`; its tables are named as in db_helper.h.
-- - Db/Calls: the operations in any order. Db/Balance, Login and Devices: theorems of these.
--
-- The service around them:
-- - Service/Lifecycle: `Start` and `Stop` of AdapterService.cpp and AdapterServer.cpp, the instance of
--   atb_sak/src/singleton.h, and what main.cpp does with them. Service/Console: the loop of main.cpp.
-- - Service/Admin: the accounts and cameras of AdapterServer.cpp. Service/Http and Routes: the handlers
--   of AdapterService.cpp and the paths that they are mapped to.
-- - Service/Login: `HandleLoginEx` of server_tcpsrv.cpp over the operations of db_helper.cpp.
-- - Service/Handler and Reading: the handler of the play manager, and what a socket sends, over the
--   database helper and the list of clients.
-- - Service/Stopping, Changes, Keeping, Cameras, PushCheck, Viewing, Timely and Grounds: theorems of
--   these.
--
-- The whole process:
-- - Process/Jobs: all parts on one state, with the one thread pool that serves the viewers and the
--   adapter clients. What may happen is one event: a callback of libwebsockets, a socket that `Run`
--   finds readable, a request over HTTP, a turn of the state thread or of `Run`, a worker that takes
--   its next task.
-- - Process/Entry: `main` of main.cpp with the log and the console loop, and the signals that end it.
-- - Process/Rooms, Sound, Starting, Watching, Stuck and Leaving: theorems of it.
--
-- The log:
-- - Log/Config: atb_sak/src/cfg/_atb_cfg.cpp, the configuration file. Log/Appender and Logging:
--   atb_sak/src/log/_atb_log.h and _atb_log.cpp, the file that is changed every day, and the calls that
--   log. Log/Host: the calls of the operating system, as a parameter with what is documented of it.
-- - Log/Keeping and Rotation: theorems of these. What the other parts log is left out of them.
--
-- How they interact: the play manager asks the adapter through `PlayctrlHandler`, a record of
-- operations over the adapter's state that its definitions take as a parameter and that
-- `db_handler` fills, over the database, and `adapter_handler`, where the database is a parameter.
-- The JSON library and the number formatting are the parameter `Formats`;
-- `strptime` with `mktime` is `seconds`; the database is `Accounts` for a login in Adapter, and
-- `Mysql` in Db and Service; whether `ETSend` writes all is `net`; the answers of the clock and of the
-- random generator are arguments.
--
-- State is passed explicitly. A call under its locks is one step, and a thread's work between two
-- locks is not interleaved with others', with two exceptions: `wait_loop` is given the messages that
-- other threads insert between its looks, and a login is given what they do to the list of clients
-- between its look for the id and its entry of the client, as the function `others`. The theorems on the
-- list assume of `others` that it logs nobody in (`LogsNobodyIn`); Adapter/Overlap shows what happens
-- where it does.
--
-- Undefined behaviour is `crash`: also the deletion of an object whose threads run, which is what a
-- stop of the service does to the TCP server and to the play manager; the copy of an empty message,
-- whose length is not set; and a member of a JSON value that is no object, where jsoncpp asserts.
--
-- Bounds and fuel: words of 64 bits are written with `% 2 ^ 64`; the buffers are the source's, 1024
-- bytes for a websocket message and 10240 for a message read. The check of the connections visits an
-- expired one twice; its fuel is two rounds for each connection and one more, which is proved to be
-- enough.
--
-- Not modelled: sockets, epoll, libwebsockets, the lines that each part logs, and the handler of
-- SIGSEGV, which prints the stack; the copies of jsoncpp, of the HTTP server and parsers and of the
-- mysql pool; the freeing of mysql's result sets; the run of a client's destructor where it is deleted,
-- and the destructor of the websocket server. The HTTP server is a request's parameters and body and
-- what a handler sets.
pub mod Prelude
pub mod Wss
pub mod Adapter
pub mod Pool
pub mod Db
pub mod Service
pub mod Process
pub mod Log
