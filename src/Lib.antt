-- ===== src/Lib.antt =====
-- Distributed matrix multiplication: a controller cuts the products of random matrices into tasks,
-- workers compute them over remote calls, and each worker stores its partial sum in a database over
-- HTTP. Paths are from the root of the repository.
--
-- How the parts interact. Each worker registers with Controller/controller.cpp (`registerWorkers`, with
-- `registerAtController` of Worker/worker.cpp), which starts a thread for each of them. The threads wait
-- until the MQTT client of every worker is set up, and then share one MatrixData
-- (Controller/MatrixData.h): `initialize` divides each row of A and column of B into chunks
-- (`prepareTasks`) and puts the tasks of each result field on a queue (`createTasks`); a thread takes a
-- task (`getNextTask`), has its worker compute it (`calcTask`), asks whether it is the last chunk of its
-- field (`lastChunk`), has the worker send the sum to the database (`sendTaskResult`), and counts it
-- (`informAboutStoredResult`); a task that fails goes back (`reassignTask`). A call goes through the
-- client and the processor in gen-cpp to the handler of Worker/RPCImplementation.h. Before a worker
-- writes to the database it asks the other workers over MQTT (`mqtt_request`, `onMQTTMessage`); its
-- request is written by `writeToDatabase` of Worker/worker.cpp and read by `httpParse` of
-- Database/database.cpp. `healthcheck` of the controller asks each worker whether it is still there.
--
-- The files, each with the code it models:
--   Prelude         shared names: tests, lists, signed integers, overflow, faults, sums, text, families
--   Rpc             Task: `RPCMatrixTask` of gen-cpp/RPCSendMatrixTasks_types.h, as the controller
--                   fills it. Protocol: `TProtocol` of the thrift library, a parameter with the
--                   hypothesis IsFaithful. Wire: the reading and writing of `RPCMatrixTask` in
--                   gen-cpp/RPCSendMatrixTasks_types.cpp. Calls: the structs of the arguments and
--                   results, the client and the processor of gen-cpp/RPCSendMatrixTasks.cpp
--   Controller      Matrix: `Matrix<T>` of Controller/Matrix.h.
--                   MatrixData: Controller/MatrixData.h. Plan is `prepareTasks` (with the comparison in
--                   `float` in Plan/Float), Tasks is the body of `createTasks` for a field, Initialize is
--                   `initialize` and `createTasks` over all fields, State has the members of the class,
--                   Queue has `getNextTask`, `reassignTask` and `getNumberTaskFields`, Progress has
--                   `lastChunk`, `informAboutStoredResult` and `allTasksFinished`.
--                   Environment: `readMatrixSize` of Controller/controller.cpp, and in Workers
--                   `readNumberWorkers`, which Worker/worker.cpp has as well.
--                   Threads: the loop of `controlWorker` of Controller/controller.cpp, as steps of a
--                   thread for each worker over the shared MatrixData
--   Worker          Handler: the class of Worker/RPCImplementation.h. Message: the text of the request
--                   of `writeToDatabase` in Worker/worker.cpp. Write: the rest of `writeToDatabase`
--                   behind `mqtt_request`. Mutex: `mqtt_request`, `onMQTTMessage`, `mqtt_reply` and
--                   `mqtt_respond_to_open_requests` of Worker/worker.cpp, each as a whole; in System
--                   the same functions in steps, in all workers at once, with the messages under way
--   Decimal         `numberToString` (each program has a copy) and `readNumberFromChars` of
--                   Database/database.cpp
--   Database        Http: `httpParse` of Database/database.cpp, with `strCmpLength` as `starts_with`; in
--                   Gets the request of a reader, who is not part of the repository.
--                   ResultMatrix: the methods of the class in Database/ResultMatrix.h. Server: the two
--                   responses and the loop of `main` in Database/database.cpp, for one request and for
--                   many
--   Registration    `registerWorkers` of Controller/controller.cpp and `registerAtController` of
--                   Worker/worker.cpp
--   Startup         the lines of `controlWorker` in front of its loop, as steps, with what the worker
--                   does in the meantime
--   Healthcheck     the bytes of `healthcheck` in Controller/controller.cpp and in Worker/worker.cpp;
--                   Round is the loop over all workers
--   Answer          the controller's tasks, the worker's results and the database's cells together; in
--                   Served with the requests of the workers and of a reader
--
-- Conventions. A fault (a read out of bounds, a signed overflow, a division by zero, an uncaught
-- exception) is `none`, in the parser `fault`. Values of matrices are integers with the overflow of
-- their products (`int`) and sums (`long long`) written out; sizes and positions, which the program
-- only counts up from zero, are natural numbers. An operation that runs under a mutex is one step. What
-- is random in the program is an argument: the entries of the matrices. The receive buffer is the list
-- of its bytes from the parser's position on. What a socket gives to a loop that waits is a list: of the
-- results of `recv` and of the messages that arrive.
--
-- Loops and fuel. `spread`, the loop of `prepareTasks` that distributes a remainder, has one round for
-- each value of the remainder; `numberToString` has 20 rounds, enough for 64 bits; the loop
-- of `httpParse` has a round for each byte behind the first line and one more; a loop of the generated
-- code that reads the fields of a struct has the number of its rounds as an argument: no struct has more
-- than five fields, and a sixth round reads the end. The other loops are structural.
--
-- Not modelled: sockets and their errors except where a list above says so, printing, measurements and
-- the output of results; in gen-cpp the client for concurrent use, the multiface, the event handler, the
-- skeleton of a server, and the copies, comparisons and printing of the structs; the start of the
-- programs in `main` beyond the parts named above. The MQTT broker is not part of the repository: System
-- has it deliver each message at most once, and the messages in any order.
pub mod Prelude
pub mod Decimal
pub mod Rpc
pub mod Controller
pub mod Worker
pub mod Database
pub mod Answer
pub mod Healthcheck
pub mod Registration
pub mod Startup
