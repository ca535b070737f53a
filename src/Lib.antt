-- ===== src/Lib.antt =====
-- Verification library of the Lumen inference server.
--
-- The program reads length-prefixed requests from TCP clients (TCPServer), puts each on a task queue
-- (one of three classes behind ITaskQueue), lets a pool of workers run the model on it with memory from
-- an arena or from ONNX Runtime's allocator (LumenArena, StandardOrtAllocator), and sends the answers
-- back from a result queue that the server polls (NaiveResultQueue).
--
-- Prelude: the names shared by all modules; lists, Boolean tests and machine words over the native
--   numbers. `size_t`, `uintptr_t` and pointers are numbers modulo 2^64, with the wrap written out in
--   `add_size`, `sub_size`, `mul_size` and `round_up_64`. An `int` is an integer, as the program only
--   tests and compares its ints.
-- Queue/Interface: include/lumen/interfaces/ITaskQueue.hpp as a record of operations; an operation
--   that can wait on a condition variable says so in its result. Queue/Fifo is the specification that
--   the queue classes are held to (a list, a stop flag, and a policy for full, stopped and waiting);
--   Queue/Client is a client that makes any sequence of calls.
-- Queue/Spsc: include/lumen/concurrency/SPSCTaskQueue.hpp, each call as one step: the loop of
--   `pop_batch` runs as often as the code bounds it. Queue/Spsc/Threads has one producer and one
--   consumer with their program points (`Producer`, `Consumer`), one shared access at a time, the
--   atomics sequentially consistent; a call has at most five accesses.
-- Queue/Mpmc: include/lumen/concurrency/MPMCTaskQueue.hpp, one shared access at a time. A thread's
--   program point is `Pc`, its next access is `move`, and Queue/Mpmc/System is the step relation of
--   any number of threads in any order, with failures of the weak compare-exchange that have no
--   reason. The order of atomic accesses is sequentially consistent. Histories have fewer than 2^62
--   pushes, so that the counters do not wrap. Queue/Mpmc/Inv has the invariant; Cells, Writes, Claims,
--   Pops, Reach and Safety are about it. Queue/Mpmc/Size has the two loads of `size`, with accesses of
--   the other threads between them. Queue/Mpmc/Alone has the calls uninterrupted, among them
--   `pop_batch`; a call that has not ended after six accesses for a push, or five for a pop, has no
--   result there.
-- Queue/Naive, Queue/Result: NaiveTaskQueue.hpp and NaiveResultQueue.hpp in
--   include/lumen/concurrency. Each call holds the mutex throughout, and is one step. The loop that
--   polls the result queue (`drain`) has as fuel the number of its calls, one more than the queue has
--   results, and no result without it.
-- Memory/Arena: src/LumenArena.cpp and include/lumen/memory/LumenArena.hpp. `aligned_alloc` is an
--   argument of the constructor. Memory/Bytes: memory as a function from addresses to bytes, for what
--   the engine copies to the arena; a word is eight bytes, the lowest first. Memory/Standard:
--   include/lumen/memory/StandardOrtAllocator.hpp; what ONNX Runtime's allocator returns is an
--   argument of each call.
-- Core/Types: the tasks, results and traces of include/lumen/core. Durations are whole nanoseconds,
--   where the program has doubles in milliseconds.
-- Network/Session: the session of include/lumen/network/TCPServer.hpp and the methods of
--   src/TCPServer.cpp that read one request into it; what `recv` returned is an argument.
--   Network/Buffers, Header, Body, Feed and Framing are about the way a stream is cut into pieces.
-- Network/Setup: the constructor and the destructor of src/TCPServer.cpp, by the sockets that they
--   open and close; the answers of the system calls for each address are arguments.
-- Network/Kernel, Sessions, Server: the system calls as functions, the list for `poll`, the table of
--   sessions, and the loop `run`. `handle_responses` has one step of fuel more than the queue has
--   results, which is enough (Network/Server/Respond); the loop over the entries has as many steps as
--   the list has entries, as each step either moves on or removes one. Network/Server/Send is about
--   the answers on the wire, Network/Server/Count, Tables, Steps, Entries, Polled and Round about the
--   list and the table.
-- Memory/Interface: include/lumen/interfaces/ILumenAllocator.hpp.
-- Utils/Config: src/LumenConfigManager.cpp and include/lumen/utils/LumenConfigManager.hpp. The JSON
--   library is an argument (`Json`); an exception leaves the settings assigned before it.
--   Utils/Config/Template is `save_template`, which makes its values by `JsonWriter`. Utils/Texts has
--   the texts of these files as bytes.
-- Models/ImageNet: include/lumen/models/ImageNetProcessor.hpp. A `float` is an element of any type,
--   and the formula of a cell and the comparison are arguments; the confidence is only printed, and
--   left out.
-- Engine/Run: `run` of src/InferenceEngine.cpp. ONNX Runtime's session is a function from the input
--   tensor and a place of the output tensor to a score, together with the sizes of the blocks that it
--   asks of the allocator during a run; whether `CreateTensor` takes a shape is an argument; the
--   shapes are those of the first input and output (`run_shapes` of Engine/Metadata). Where the code
--   would use a null pointer, memory behind a buffer or a score that nobody wrote, or `CreateTensor`
--   throws, the model has the result `undefined`. Engine/Metadata: the constructor and
--   `migrate_metadata_to_arena`; the reads of ONNX Runtime's session are arguments. Engine/Worker: the
--   loop of src/ThreadPool.cpp over one batch; Engine/Worker/Room and Answers are about the room that
--   a batch needs and its answers. Engine/Pool: the constructor of src/ThreadPool.cpp.
--   Engine/Pool/Shared: the workers' loop, `submit` and `shutdown` with any number of workers on one
--   task queue, where the test of the loop, a call of a queue and the serving of one task are steps of
--   their own, in any order with the server's pushes and the two steps of the shutdown. Accounts is
--   about the tasks, Order about one worker, Ends about the shutdown.
-- Telemetry: src/TelemetryManager.cpp and include/lumen/telemetry/TelemetryManager.hpp as steps of
--   the threads that hand in traces and of the thread that reports them; Telemetry/Snapshot: the sums
--   and the percentile of `process_snapshot`, where the product with 0.99 is exact, as that of
--   `double` is up to its whole part for batches below 10^12; Telemetry/Csv: `save_to_csv` on the
--   file's bytes, where the printing of numbers is an argument; Telemetry/Csv/Read reads the file back
--   as lines of fields.
--
-- Main: src/main.cpp up to its run loop, with the configuration file, ONNX Runtime, the labels file
--   and the system calls in one record `Environment`.
--
-- Not modelled: what is printed, the texts of exceptions, and the destructors that only give memory
-- back. The accesses within a call of a queue interleave in the models of the queues, and not in that of
-- the pool. The copies of other projects' libraries under third_party are arguments where they are used.
pub mod Prelude
pub mod Queue
pub mod Memory
pub mod Core
pub mod Network
pub mod Utils
pub mod Models
pub mod Engine
pub mod Telemetry
pub mod Main
