-- ===== src/Lib.antt =====
-- PlayFrame, a frame for game servers in C++: the pool of units in shared memory and the timers
-- that its servers keep their players, connections and coroutines in.
--
-- Common: the names that all files share. Common.Run is how a piece of code ends (a value, undefined
-- behaviour, a failed CHECK, or, for a loop on fuel, no end), Common.Array has bounds that are
-- checked, Common.Buffer has memcpy and the bytes of a part of an array, Common.Int has the signed
-- integers.
-- ShmPool is src/common/frame/shm_pool.h. `init`, `alloc`, `find`, `release`, `get_pos` and
-- `travel_pool` are the methods; a pointer to a unit is its index, and NULL is `none`. The free
-- list runs through the `pos` fields (ShmPool.FreeList); ShmPool.Invariant says what holds between
-- calls. What ShmMemory::Init returned is an argument.
-- TimeValue is src/common/frame/time_value.h and time_value.cpp: a `struct timeval` with its sums,
-- differences and comparisons. `time_t` has no bounds in the model.
-- Random is src/common/frame/random.h and random.cpp.
-- HeapTimer is src/common/frame/heap_timer.h and heap_timer.cpp, on top of TimeValue and Random:
-- `register_timer`, `unregister_timer` and `first_timeout`, with RotateUp, RotateDown, RemoveNode,
-- GrowHeap and the ids of timers. The heap order is in HeapTimer.Order, the index array that
-- mirrors the heap in HeapTimer.Layout. A round of RotateUp halves the position and a round of
-- RotateDown moves down, so that the position plus 1, and `cur_size` plus 1, are fuel enough.
-- HeapTimer.Poll has `timer_poll`, whose callbacks are the argument `execute`. Where callbacks leave
-- the timers alone, each round takes out a timer or makes one wait past the time, so that `heap_size`
-- plus 1 rounds are fuel enough. The model faults where a callback takes out its own timer or puts
-- another node in front, since TimerPoll goes on with the node at the front.
-- Utils is src/common/frame/utils.h and utils.cpp: `fnv64a_hash`, `check_account` and
-- `check_password`.
-- ObjMgr is src/gamesvr/obj_mgr_module: the players and their cities, in two pools, with the map from
-- a user's id to the position of the player. ObjMgr.Invariant says what holds between calls: the map
-- and the cities' lists lead only to units in use, and cities name their player. The laws of the
-- pool in ShmPool.Operations, Init, Travel and Memory are all that its proofs use of the pool.
-- Connection, ConnMgr and EventModule are src/connsvr, the server that keeps the clients' sockets.
-- Connection has the two buffers of a connection; Connection.Frames is the stream of packages that a
-- client sends, and how any prefix of it falls into whole packages and a rest. ConnMgr has the pool
-- of connections, on ShmPool, and the map from sockets. EventModule has the handlers `do_tcp_accept`,
-- `do_tcp_read`, `do_tcp_write` and `zmq_read_loop`; the system and zmq are the fields of its record
-- `Os`, on a state of the outside, and the theorems name what they rely on of them. Each round of the
-- loop of DoTcpRead takes bytes out of the receive buffer, so that its count plus 1 is fuel enough.
-- Epoller is src/common/frame/epoller.h and epoller.cpp: the table of watched events, and Loop.
-- ConnCache is conn_cache.h and conn_cache.cpp of src/tcpclient, the growing buffers of the client.
-- `expand` enlarges a buffer by one entry or more, so that as many rounds as bytes are fuel enough.
-- MysqlMgr is src/common/frame/mysql_mgr.h and mysql_mgr.cpp: the list of free clients of the
-- database, and `thread_work`, what the thread of a client does for one request. The library is the
-- record `Db`.
-- LogicModule is src/gamesvr/logic_module: the logics that wait for an answer, in a map from their
-- ids, each with a timer of HeapTimer that ends it. The steps of the four logics are the argument
-- `steps`, on the rest `W` of the server; `now` and what malloc gave are arguments. LogicModule.Start
-- has the handlers of src/gamesvr/msg_module that start and resume logics.
-- MsgModuleBase is src/common/frame/msg_module_base.h, the handlers by command. GameServer is what
-- ModuleInit of src/gamesvr/msg_module registers there; GameServer.Connect and GameServer.Leave are what
-- its Run does when a client connects or goes, and GameServer.Save is Player::DoUpdatePlayerData with
-- the logic of src/gamesvr/logic_module/logic/logic_update_player.h, which save a player's data.
-- DataServer is src/datasvr/msg_module, on MsgModuleBase and MysqlMgr: the requests of the game
-- server, the texts of the queries (DataServer.Sql), the loop of Run with its 1000 rounds, and the
-- replies that the callbacks send. The sockets, the parser and the serializer are the record `Net`.
--
-- The counters and positions of the pool and of the timers are numbers without bounds; the code's
-- `int32_t` holds them while a pool has fewer than 2 ^ 31 - 1 units and a heap fewer than 2 ^ 30
-- places. Memory allocation does not fail. Logging is left out.
--
-- Not modelled: the steps of the logics that log in and register; the loop of Run of the game server,
-- and its other modules; the coroutines; the table of modules in AppBase; destructors; how the
-- connection server opens and closes its sockets; the menu of the test client in src/tcpclient; the
-- threads of the database clients, and the mutexes around their lists; the bit swaps, the
-- daemon and the signals of src/common/frame; the Lua binding; the schemas and the libraries of other
-- projects.
pub mod Common
pub mod ShmPool
pub mod TimeValue
pub mod Random
pub mod HeapTimer
pub mod Utils
pub mod ObjMgr
pub mod Connection
pub mod ConnMgr
pub mod Epoller
pub mod EventModule
pub mod ConnCache
pub mod MysqlMgr
pub mod LogicModule
pub mod MsgModuleBase
pub mod DataServer
pub mod GameServer
