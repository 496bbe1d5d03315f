-- ===== src/Lib.antt =====
-- mini-db: a key-value server whose databases each keep a write-ahead log. The development models
-- the log, the worker of a database and its queue, the manager of the databases, the wire protocol,
-- the client with its loop, the server with its connections, the benchmark, and what is printed as
-- the server runs. Paths are those of the repository.
--
-- The parts of the program, from the socket to the disk: a client (src/bin/client.rs) sends a request
-- of an operation byte and length-prefixed fields; the server (src/bin/main.rs) checks the fields,
-- looks the database up in its manager (src/manager.rs) and puts a query on the queue of the
-- database's worker (src/worker.rs); the worker appends every write to its log (src/wal.rs), keeps the
-- index in memory, and replies; the reply goes back as a length-prefixed response (src/protocol.rs).
-- At the next start the log is read into an index again, and a tail that cannot be read is cut off.
--
-- Files:
--   Wal              src/wal.rs: the record `Wal`, `append` (with `write_entry`, its part behind the
--                    guards), `fsync` and the accessors
--   Wal/Scan         the loop of `Wal::init` that reads a file: `read_entry` is the loop's body,
--                    `scan_loop` the loop. Its fuel is one more than the file's length, since each
--                    round passes at least 13 bytes
--   Wal/Init         `Wal::init` around that loop, with the truncation of the tail
--   Wal/History      the specification: a log is a list of writes. `encode` is an entry's bytes,
--                    `replay` the index, `latest` what the last write of a key says
--   Wal/Synced       a handle in step with a history, and what append and fsync do to it
--   Packet, Protocol src/protocol.rs: the packets of STATS and INFO, operations and responses
--   Worker           src/worker.rs: `handle_query` is the body of the loop of `execute_queries`. The
--                    queue is the list of the queries that come before the last sender is dropped.
--                    Worker/Spec is the specification: the replies that a history determines
--   Channel          the queue between the connections and a worker, step by step, with the end of the
--                    worker that `drop_db` and `shutdown_all_workers` wait for
--   Manager          src/manager.rs: a record of the running workers and of the files of the directory
--                    that none of them has open, and every operation on it. Manager/Paths has the
--                    names of the logs, Manager/Directory the interface to the directory. Manager/Spec
--                    is the specification: each database is the history of its writes
--   Server           src/bin/main.rs: `handle_request` is one round of the loop of `handle_client`,
--                    Server/Checks has the checks `validate_*` and the reads of a request's fields,
--                    Server/Connection the loop, `rounds`, on fuel: a round takes a byte at least, so a fuel
--                    above the number of bytes that come in is enough
--   Server/Service   `run_server` as a step relation: a connection is accepted, a task has a round of
--                    its loop or ends, Ctrl-C comes, and the server shuts down. Steps come in any
--                    order, and each is whole. Service/Commands reads the command of a round off what
--                    comes in, Service/Lives has a server from its start to the next, and
--                    Service/Answers a request on its way from the client to the log and back;
--                    Service/Start is `run_server` up to its loop
--   Client           src/bin/client.rs: the functions `send_*`. Client/Words splits a line,
--                    Client/Screen is what is printed, Client/Repl is `main` behind the connect. Its
--                    loop is on fuel, one for each line that is read, so as much as there
--                    are lines up to the QUIT is enough
--   Bench            bench/bench.rs: shares of the work, the key space, request encoders; Bench/Args the
--                    check of the arguments; Bench/Load the filling of the database and a client's run;
--                    Bench/Summary the report; Bench/Measure is `main`, and
--                    Bench/Screen what is printed. Bench/Asked describes a client's run by the bytes
--                    on the wire, and Bench/Summary/Places a sample's rank by counting
--   Log              src/log.rs: the level, the macros and what is printed
--   Library          src/lib.rs: the uptime and the text of a size
--   Storage, Crc, Stream  the interfaces to the file system, crc32fast and a tokio socket: operations
--                    that may fail, and laws of those that succeed. A write that fails may leave any
--                    part of its bytes behind. Stream/Does: code on a socket whose writes succeed
--   Map              `FxHashMap` with byte strings for keys, as an association list. Map/Keys: its keys
--                    are distinct
--   Result           the errors, one value for each place that raises one
--   Tests            concrete inputs, and instances of the interfaces
--
-- Numbers: `usize` and `u64` are natural numbers without a bound, since the sums and lengths of the
-- program stay far below 2^64; `as u32` and `as u8` are written out as remainders. An `f64` of a
-- packet is its bit pattern.
--
-- Order: a directory is listed in the order of the model's list of its files. Operations on the
-- manager are whole steps: one that holds the write lock ends, and a query is answered, before the
-- next; Channel has the steps of a query, and of the end of a worker, one by one. A channel of size 0,
-- which panics, is not considered.
--
-- Not modelled: connections whose client neither sends nor leaves, panics of a server's task, in
-- Server/Service a connection that ends before its first round since nodelay cannot be read, the
-- text of prompts, times and tables in the client, colours, the lines that manager.rs logs, and those
-- on the progress of a benchmark.
pub mod Prelude
pub mod Bytes
pub mod Map
pub mod Result
pub mod Crc
pub mod Storage
pub mod Wal
pub mod Stream
pub mod Packet
pub mod Protocol
pub mod Worker
pub mod Client
pub mod Server
pub mod Manager
pub mod Bench
pub mod Channel
pub mod Log
pub mod Library
pub mod Tests
