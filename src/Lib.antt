-- ===== src/Lib.antt =====
-- A broker for topics that are written as logs: producers append records to a topic, consumers and
-- replicas read them from an offset on. A controller keeps which broker leads a topic. This library
-- models the wire protocol, the log, replication, the server of a broker, the metastore and the
-- controller's server.
--
-- Parts and files:
--   Protocol (protocol/src/pylogstream_protocol): Framer is framer.py; Packets has the classes of
--   common.py, commands.py and response.py as data types; Encoder is encoder.py (`encode_command`,
--   `encode_response`); Parser is parser.py (`parse_command`, `parse_response`, `parse_records`,
--   `parse_metadata_list_payload`, `decode_record`). RoundTrip has the proofs that relate the two.
--   Log (broker/src/pylogstream_broker/log): Segment is segment.py and segment_policy.py; Registry is
--   segment_registry.py, the list of each topic's segments; Entry and Memory are segment_memory.py, the
--   files mapped into memory and the cache of them; Batch and Reader are log_reader.py; Writer is
--   log_writer.py; Manager is log_manager.py. The reader and the writer share a `LogState`: they ask the
--   registry for a segment, acquire its file in the memory, and read or write it there; the writer tells
--   the registry afterwards.
--   Metastore (controller/src/pylogstream_controller/metastore): Ring is the class ConsistentHashRing of
--   manager.py, with its hash as a parameter; Storage is models.py and the in-memory class of
--   storage.py; Manager is the class MetastoreManager.
--   Replication (broker/src/pylogstream_broker/replication): Leader is leader.py, with the order of the
--   replicas in InSync and the heap of `hw_waiter_queue` in Waiters; Fetcher is fetcher.py; Manager is
--   manager.py. A leader reads the broker's log, which is beside it in the pair `Served`; the manager
--   keeps a `TopicState` for each topic and the log, and passes what changes back.
--   Network (broker/src/pylogstream_broker/network): Writer is writer.py. It hands batches to the log's
--   `append_batch`. Broker has the commands of broker.py, and Dispatch the rounds of `handle_client` and
--   what follows its waits. A `Channel` tells what of a response can be written: nothing, all of it but
--   the part of a file, or all of it. `resume_write` goes on after a write in the leader that the manager
--   has; `written` is the same on a leader beside the broker. A broker asks the replica manager for a topic's leader, reads the log that the
--   manager has, and submits to the writer. Connection is controller.py, which passes the controller's
--   metadata on to the replica manager.
--   Controller (controller/src/pylogstream_controller): Broadcast and Server are server.py, in front of
--   the metastore.
--   Text has what the program uses of Python's `str`, `bytes`, `int` and zlib.crc32: UTF-8, `split`,
--   `strip`, decimal numerals, big-endian lengths, the checksum. Prelude has the shared tests, lists,
--   integers, errors, dictionaries and the state and exception monad.
--
-- Conventions: a Python integer is a natural number where the code cannot make it negative and an
-- integer elsewhere; a text is a list of code points, a byte string a list of bytes. An exception is
-- a value of `Error`; a method that may raise after it changed an object gives the state back beside
-- the error. Times are whole seconds. A coroutine is a function with what it waits for as an argument,
-- which is a run of it that no other task interrupts; where others run in between, as in the writer and
-- the controller's server, the parts between the waits are steps of a relation (Controller/Server/Steps
-- has both). The functions are named like the ones they model, without leading underscores.
--
-- Fuel: `find_loop` and `bisect_loop` halve a range of indices and get the length of the list;
-- `calc_loop` consumes four bytes or more in a round and gets the size of the batch; `records_loop`
-- takes one byte or more in a round and gets the length of the payload. `notify_loop` takes a waiter
-- off in a round; `broadcast` loses a broker with each level and gets one more than there are
-- brokers. The theorems about these functions are about the values with that fuel, so they show that
-- it is enough. `sift_down` and `sift_to_leaf` go up or down one level of a heap and get its length,
-- which is more than its depth.
--
-- Not modelled: sockets, threads and the locks themselves (a method that holds a topic's lock is one
-- step; the methods of Memory are one step each), hints to the operating system, the directories in
-- which files lie, the start and close of a broker's server, the heartbeat and the waits of its
-- connection to the controller (for the broker, what a call of the connection returns is an
-- argument), the fetcher's loop, which never starts, ZooKeeper and what depends on it (the election,
-- the storage in it), and the client library. offsets_manager.py is one string literal, so there is
-- no code in it.
pub mod Prelude
pub mod Text
pub mod Protocol
pub mod Log
pub mod Metastore
pub mod Replication
pub mod Network
pub mod Controller
