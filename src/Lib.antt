-- ===== src/Lib.antt =====
-- Verification library of disaggregate-metadata-service: a file metadata service whose memory nodes
-- hold hash tables that compute nodes read and write by one-sided RDMA.
--
-- The parts, and how they interact. A memory node makes a hash store per table in one registered region
-- and tells the compute nodes where it is. A thread of a compute node runs coroutines: each posts RDMA
-- requests, alone or several in one doorbell, yields to the next coroutine while they are in flight, and
-- coroutine 0 polls for their completion. The buffers of the requests come from the thread's part of the
-- registered memory.
--
-- Which file models what:
--   Base       shared names, Boolean tests, lists and words over the native numbers, memory as a
--              function, and `Run`, the outcome of code that can abort, access bad memory or not return.
--   Hash       core/util/hash.h: MurmurHash64A, which places a key in a bucket.
--   Item       core/memstore/data_item.h: DataItem, its constructors and field addresses.
--   HashStore  core/memstore/hash_store.h, mem_store.h: the constructor is `new_hash_store`, LocalGet,
--              LocalInsert, LocalPut and LocalDelete are `local_get`, `local_insert`, `local_put` and
--              `local_delete`, over a heap of nodes. The children show them right against the map from
--              keys to items that the chains hold: Table has the well-formedness `IsTable`.
--   Scheduler  core/scheduler/corotine_scheduler.h, .cc, coroutine.h, and PollCompletion of
--              compute_pool/worker/worker.cc: one function per method, on a record of the links and
--              counts. Ring, Unlink and Awake have the invariant of the ring; Card, Owes and World the
--              requests posted, what the card reports of them and what the polls take; Steps the runs.
--   Doorbell   core/metadata/doorbell.h, .cc: a child per batch class; Verbs has what the network card
--              makes of a request.
--   Alloc      core/allocator/*.h: the buffers of a thread, its part of the log, its region.
--   Meta       PrepareHashMeta of memory_pool/server/server.cc and GetMemStoreMeta of
--              core/connection/meta_manager.cc: the message between them, byte by byte.
--   Dmc        core/metadata/dmc.h, dmc_issue.cc, dmc_check_reader.cc, dmc_check.cc, dmc.cc: the reads of a
--              compute node, the hash of a name, the resolution of a path and stat_file.
--   SpinLock   core/util/spinlock.h, seqlock.h.
--   Micro      workload/micro/micro_db.cc: the records that a memory node loads into its store.
--   Latency    core/util/latency.h: the histogram, its update, sum and count.
--   Random     core/util/fast_random.h: the generators of integers.
--   Ct         core/util/ct.h: the hash table on one sorted list. The nodes are a heap, the directory of the
--              bucket heads is nested functions, Insert, Delete and Find are `insert`, `delete` and `find`
--              of Ct.Table, one thread at a time. Reverse has the order of the hashes; Rank, Links, Search,
--              Link, Relink, Revalue and Unlink the list; Directory the buckets; State the well-formedness
--              `IsTable`; the children of Table the operations, and Refines the map from keys to values
--              that they implement.
--   ThreadPool core/util/thread_pool.h: the workers, Enqueue and the destructor as steps in any order; a
--              section under the mutex is one step. Steps has the relation and what it keeps, Ends the
--              measure by which a stopped pool comes to its end.
--   Hazard     core/util/hazard_pointer.h: the shared list of records, the marks and the deletions put off.
--              Marks has what a call does to the list, System the threads and what their calls keep,
--              Acquire the marking that takes a new record, Spared the pointers that are not deleted.
--
-- A number is a natural number; the wrap-around of 64 and 32 bits is written out where the code computes
-- with words. Pointers to nodes and coroutines are numbers. What the network card reports, whether it takes
-- a request, and what lies in memory that was never written are parameters.
--
-- Loops. A search of the store gets `node_num + 2` rounds, and that is enough: a chain has at most
-- `node_num + 1` nodes (IsTable.short). A search of the list of Ct gets `brk` rounds, since the list is
-- shorter than the next free address, and InitializeBucket 65, since a bucket's parent has one bit less.
-- The loops of path_resolution, of CheckNextHashRO and of the locks are on any number of rounds, and the
-- theorems are about all of them.
--
-- Not modelled: sockets, logging, statistics output, the JSON configuration and the zipf generator,
-- which are input and output or floating point; the copies of libcuckoo, CRC++, RapidJSON and rlib; the
-- other file operations of DMC, whose bodies are empty; the reclamation of the nodes of core/util/ct.h and
-- the interleavings within a call of it or of the hazard pointers.
pub mod Alloc
pub mod Base
pub mod Ct
pub mod Dmc
pub mod Doorbell
pub mod Hash
pub mod HashStore
pub mod Hazard
pub mod Item
pub mod Latency
pub mod Meta
pub mod Micro
pub mod Random
pub mod Scheduler
pub mod SpinLock
pub mod ThreadPool
