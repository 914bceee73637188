-- ===== src/Lib.antt =====
-- fidinventor copies a block chain into a MySQL database: it asks a node over JSON-RPC for blocks and
-- their transactions, and inserts a row for each block, transaction, output and input. This library
-- models the program and proves what its parts do.
--
-- Parts, and the files that model them:
--   Base, Base/*: byte strings, `std::map`, signed integers, `atoi` and `strtoll`, decimal texts, the
--     outcome of code that may throw, and the interface of boost's string algorithms.
--   Base64: `EncodeBase64` and `DecodeBase64` of src/utils.cpp; the loops are functions of `mode` and
--     `left`. Base64/Bits, RoundTrip, Shape, Canonical and Reference hold the proofs.
--   Args: `GetArg`, `GetBoolArg`, `SoftSetArg`, `SoftSetBoolArg` of src/utils.cpp, `get_fidconfig`.
--     Args/Laws holds the proofs.
--   Config: `parse_fidconfig` of src/config.cpp. Config/Laws holds the proofs.
--   Http/Write, Http/Read: `HTTPPost`, `HTTPReply` and the readers of src/rpcprotocol.cpp. Http/Lines,
--     Literal, Framing, Exchange and Reply hold the proofs.
--   Json: the value variant and the accessors of src/json/json_spirit_value.h, `find_value`, and the
--     overloads of `getJsonObjValue` of src/wrap.h (Json/Getters).
--   Rpc: `JSONRPCRequest` and its relatives of src/rpcprotocol.cpp (Message), and src/rpcclient.cpp:
--     `RPCConvertValues` (Convert), `CallRPC`, `CommandLineRPC` (Call); of src/rpcprotocol.h, the
--     device under the connection (Device) and the error codes (Errors). Rpc/Laws, Connect, Handshake,
--     WholeCall, CommandLine and Errors hold the proofs.
--   Chain: `CFidBlock` and `CFidTransaction` of src/block.h and src/transaction.h.
--   Db: src/mysqldb/mysqldb.cpp: rows and statements (Statements), the connection (Session), insertions
--     (Insert). Db/Laws and Grows hold the proofs.
--   Handler: src/wrap.cpp: `CFidRpcWrap`, `CFidDbWrap` and `CFidHandler` with their effects (World), the
--     calls of the node (Fetch), what is made of its replies (SwitchBlock, SwitchTx) and the insertions
--     (Store). Handler/Frames, Reads, Blocks, Kinds, Inserts and Extends hold the proofs.
--   Task: src/taskschedule.cpp: the tasks (Types), `CFidTask::call` (Run), the registry of tasks and
--     `work` (Schedule), the time between rounds (Pause). Task/Progress, Follow, NextBlock, Stores,
--     Gensis, Registry, Rounds, Extends and Naps hold the proofs.
--   Thread: src/thread.h: `Thread` and `deleteThreadSafe`, by where the thread of boost stands.
--   Main: src/main.cc: `initConfig`, `initGensisBlock`, `main` up to its loop, and the heights that it
--     follows; the thread of a scheduler beside that of `main` as a step relation (System). Main/Laws,
--     Await, Follow, Threads, Beginning, Watch, Program, Live and Restart hold the proofs.
--   Tests: simple parameters, and each result at one input.
--
-- How state and effects are modelled: a handler passes a `World`, the calls made so far and the session
-- of the database, and its result is a `Result`: a value, a throw with its text, or `undefined` for a
-- step that C++ gives no meaning to. The database is a parameter `Server` that decides how each statement
-- ends; the session records the statements that were carried out. The node is a parameter that answers
-- calls. `Main` takes the heights that are read of a task as given; in `Main/System` they are those that
-- the thread of the scheduler has put into its list, and the steps of the two threads come in any order.
-- A call of a task is one step with the height that it puts back, since the list is all that both
-- threads see; a read or write of a height is taken as whole, where the code takes no lock.
--
-- Parameters: boost's split, trim and to_lower with their documented laws (`StringAlgo`), json_spirit's
-- reader and writer (`JsonText`), `double` (`Floats`), the date text, the network with its
-- resolver of names, and the contents of storage that a constructor does not set. `strprintf("%d", n)`
-- is the decimal text of `n`; `char` is read as an unsigned byte. The exceptions of the database's
-- library are on, as the code leaves them: a login that is refused, and a count of blocks that fails,
-- throw out of the step that asked for them.
--
-- Fuel and bounds: `ReadHTTPHeaders` has one more round than the stream has bytes, which is enough, since
-- each round takes a byte or ends. The loop of `CallRPC` that waits for the server has as many tries as it
-- is given, and `none` means that it still waits; so does `await_height` for the heights it is given.
-- The genesis loop has the number of its rounds. `int` and 64-bit values wrap where the code converts
-- them; an overflow of `int` arithmetic is undefined in the time between rounds, and the other sums and
-- differences are taken without bounds.
--
-- Not modelled: printing, clocks and date texts, signal handlers, allocation, the library's
-- threads and SSL stream, `TestThread`, `queryTest`, and the copies of json_spirit's reader and writer and of tinyformat.
pub mod Base
pub mod Base64
pub mod Http
pub mod Json
pub mod Args
pub mod Config
pub mod Rpc
pub mod Chain
pub mod Db
pub mod Handler
pub mod Task
pub mod Thread
pub mod Main
pub mod Tests
