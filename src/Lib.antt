-- ===== src/Lib.antt =====
-- fell, a partitioned log broker: a model of its core and the theorems that make it correct.
--
-- The program. Clients send frames over TCP. The broker (broker/broker.cpp) cuts them out of the
-- stream with a `FrameDecoder`, hands each to `RequestHandler`, and queues the response bytes of the
-- connection. The handler looks the partition up in the `TopicRegistry`, asks the metadata of
-- replication/partition_meta.cpp whether this broker leads it, and appends to or fetches from its
-- `PartitionStore`. The store queues records; its I/O thread takes batches, writes them to the log and
-- the sparse index of the active segment, advances the committed offset, calls back, and rotates the
-- segment at 64 MiB. At the start the last log is scanned and cut behind its last whole record. The
-- `ReplicaManager` of a led partition holds back acknowledgements until a quorum of replicas has the
-- record; followers and candidates talk to leaders in frames of their own.
--
-- The files.
-- - Base and its children: library names, Boolean tests, lists, slices and maps.
-- - Wire: big-endian integers (broker/request_handler.cpp, platform/include/platform/endian.hpp).
-- - Frame: broker/frame_decoder.cpp. Its children hold the proofs: Scan and Stream for streams of legal
--   frames, Sound for any bytes, Desync for the two ways in which the decoder loses its place. Payload is
--   the `SmallPayload` of broker/include/broker/frame_decoder.hpp over a heap of blocks.
-- - Storage: constants, records and options. Storage.Format writes and reads records and index entries,
--   Storage.Files is a file and `pread_file`, Storage.Reader is storage/segment_reader.cpp,
--   Storage.Index is storage/offset_index.cpp, Storage.Store is storage/partition_store.cpp with
--   storage/segment_writer.cpp, and Storage.Recovery is storage/log_recovery.cpp with the store's
--   constructor. The children of Storage.Store hold the invariant (Inv), batching (Gather), writing and
--   rotation (Write), whole rounds of the I/O thread (Rounds), its loop (Loop) and how that drains the
--   queue (Drain), fetching from one segment (Fetch) and from several (Segments), the growth of the log
--   (Growth) and the interleaving of the threads (Run).
-- - Replication.Meta is replication/partition_meta.cpp, Replication.Manager is
--   replication/replica_manager.cpp, Replication.Protocol is
--   replication/include/replication/repl_protocol.hpp, Replication.Stream is the frame loop of
--   replication/replication_server.cpp and replication/replication_client.cpp, and
--   Replication.Election their elections. Replication.Server is the handling of frames in
--   replication/replication_server.cpp, Replication.Client is replication/replication_client.cpp, and
--   Replication.Streaming the streaming of replication/replica_manager.cpp. CatchUp, Pipeline, Overrun, Streamed, Follow,
--   Settle and Convergence follow a record from the leader to the follower; Candidate, Quorum, Isr, Keys,
--   Roles and Messages hold proofs too.
-- - Broker.Protocol is broker/include/broker/protocol.hpp, Broker.Topics is broker/topic_registry.cpp,
--   Broker.Requests, Broker.Publish, Broker.Consume, Broker.Admin and Broker.Handler are
--   broker/request_handler.cpp, Broker.Outbound and Broker.Reading are the sending and reading of
--   broker/broker.cpp with broker/connection_manager.cpp and broker/acceptor.cpp, and Broker.Wiring is its
--   managers, clients and callbacks. Broker.Config is replication/cluster_config.cpp, with the proofs in
--   Broker.Config.Peers. Broker.Dispatch is a round of the event loop of broker/broker.cpp, with the proofs
--   in its children. Catalog, Routing, Sending, Refused and Startup hold proofs.
-- - Cli is the reading of metadata in cli/cli_util.hpp, Cli.Roundtrip its proofs, Cli.Frames the
--   frames of cli/producer_cli.cpp, Cli.Sockets the calls that they take, Cli.Requests the requests of
--   both tools, and Cli.Args their arguments with those of felld/main.cpp. Cli.Consumer is the loop of
--   cli/consumer_cli.cpp, which its child Served composes with the handlers of the broker.
--   Cli.Producer is the sending of a message in cli/producer_cli.cpp and Cli.Producer.Main all of its
--   messages; the other children hold proofs.
-- - The modules named Tests, SyncTests, DispatchTests, ToolTests and MainTests run the code on
--   concrete inputs and apply the theorems to them.
--
-- How code becomes definitions. An object is a record and a method a function from the state to the
-- result and the next state. Bytes are numbers, a buffer is a list of them, a string is the list of its
-- bytes. An unsigned integer is a native number, with its wrap-around written out where the code can
-- reach it. What the environment decides is an argument: the clock, whether a write succeeds, the bytes
-- of files and directories, what a socket takes, and what other threads do while one waits. A method
-- that holds a lock is one step. An exception of the store is a value of `Outcome`.
--
-- Bounds and fuel. The decoder's loop has one round for each byte of its buffer and one more; each
-- round that goes on passes four bytes at least. The reader's loops have one round for each byte of
-- the file and one more; each passes a header. The replication frame loop takes its fuel as an
-- argument, of which a round for each frame and one more are enough; an erase past the end of its
-- buffer is an end of the loop of its own. Offsets and timestamps stay below 2^64, which the theorems
-- that need it assume. The I/O loop and the catch-up loop take fuel; how much is enough after a
-- shutdown, and for a catch-up from a partition that has not rotated its log, are theorems.
--
-- Not modelled. Sockets, pollers, threads and their start and stop, the inipp library, the terminal,
-- benchmarks and tests are input and output or glue. A write to a file is whole or fails, a flush
-- moves no byte, and the bytes of a file are all that a read of it sees. What is sent to a follower's
-- socket is what the code hands to `send_data`. Where a catch-up looks at a partition several times,
-- or the I/O loop goes through rounds, what other threads do in between is an argument.
mod Base
pub mod Wire
pub mod Frame
pub mod Storage
pub mod Replication
pub mod Broker
pub mod Cli
