-- ===== src/Lib.antt =====
-- Evering: queues, channels and pools in memory that several processes share.
--
-- The program. Processes map one region. `Root` (src/header.rs) gives each participant a slot and a
-- generation; `RcHeader` (src/header.rs) records what lies behind it and admits participants. A
-- channel (src/channel.rs) is two directions of `Queue` (src/queue.rs), a bounded ring of slots,
-- and one role word for each end, which says who owns it. Messages carry tokens of blocks in pools
-- (src/pool.rs). When a participant dies, another one repairs what it held: the slots of the
-- queues, the role words, the blocks. A directory (src/dir.rs) says which layouts lie in the region: it
-- allocates them on the heap of src/talc.rs and publishes them, by transactions that leave evidence
-- in the shared memory, from which another participant ends the transaction of a dead one.
--
-- The model. Every operation is a program: the sequence of the atomic accesses of the source,
-- each with its answer (`Prog`, in Atomic.antt). `run` runs it with nobody else running; `exec` lets
-- others change the memory before each access. Orderings are sequentially consistent. The operations of
-- the directory are sequences of accesses too (`Op`, in Steps.antt): `crash n` is the memory after the
-- first `n` of them. Their holder is the only writer of entries, so a scan of the slabs is one access.
--   Base, Chains   numbers, lists, results, chains of options
--   Atomic, Cells  programs over shared memory; arrays of words
--   Queue          src/queue.rs: Control (control words), Memory (cells), Ops (`Queue`, `Reserved`,
--                  `Staged`, `Claim`), Ends (`QueueTx`, `QueueRx`), Repair (`repair_slot_with`); proofs
--                  in Cursors, Invariant, Reserve, ClaimRun, Take, Authority, Contents, Quiet, Sends,
--                  Receives, Refine, against the bounded FIFO of Fifo, and in RepairRun
--   Root           src/header.rs, `Root`: Ops; proofs in Growth, Joins, Stale
--   Header         src/header.rs, `RcHeader`: Fields, Membership (the word of members), Admission
--                  (`inspect_at`, `admit`); proofs in Closing, Admits
--   Channel        src/channel.rs: Words (`RoleWord`), Roles (`creator`, `invite`, `adopt`, the drop of a
--                  `Role`, `recover_role`), Geometry (`Duplex::geometry`, for any layout of the
--                  header and of a slot); proofs in Release, Ports, Drops, Laps
--   Pool           src/pool.rs: State (`State`), Layouts (`core::alloc::Layout`), Geometry (`BlockRange`,
--                  `Geometry`), Blocks (`PoolRef`, `Allocation`), Recovery (`Storage::recover`,
--                  `release_token`); proofs in Placed, Search, Transfers, Claims
--   Talc           src/talc.rs: Mutation (the word that says who changes the heap) and Geometry (size
--                  classes); proofs in Guards (claims, deaths, recoveries), Bins, Auto
--   Talc.Heap      src/talc.rs, `TalcMeta` in its memory of words, with the rounding and the bits of
--                  src/lib.rs: Memory (links, `Tag`), Chunks (`FreeNode`, `FreeHead`, `FreeTail`, `Chunk`),
--                  Availability, Blocks (`acquire_chunk`, `allocate`, `deallocate`), Claim; proofs in Index,
--                  Next, Toggle (the availability words), Linked, Free, Inserts, Inserted, Removed, Taken (the
--                  free lists), Search, Fits, Laid, Stores, Carved, Carving, Allocated, Allocation, Ranges, Joins,
--                  Apart, Deallocated, Claimed
--   Mem            src/mem.rs: Map (`Map::reserve`, `commit`) and Build; proofs in Places
--   Session        src/session.rs: Parts (`Session::from_config`); proofs in Within
--   Steps          operations with crash points
--   Directory      src/dir.rs: Memory, Lookup (slabs and entries), Transaction, Create, Remove, Grow,
--                  Settle and Recover (`recover`); proofs in Scan (what the scans find), Enter, Arms and
--                  RemoveArms (the arms of `recover`), Crash, Creation, CreateRuns, CreateStart, CreateCrash,
--                  RemoveCrash, Lifetimes
--   Examples       concrete runs
--
-- Numbers. A usize has 64 bits and wraps where the source wraps. Words of disjoint bit fields are
-- read by `/` and `%`, and joined by `+`. Payloads are opaque numbers. The layout of the header
-- before a pool is a parameter, and so is the layout behind a header: its constants, `init` and
-- `attach`. Where a debug assertion or a check of overflow decides an answer (the quarantine of an entry,
-- the release of a block, `Config::with_bound`), a flag says whether it is on. To Mem and Session the size of a header and what its `admit` does to the memory are parameters.
-- In the heap a place is its distance from `base_ptr`; the places and sizes that it
-- computes do not overflow, and its assertions of debug builds are not evaluated. To the directory
-- the heap is the word of Talc.Mutation and the history of its calls; where the allocator places a
-- block is a function of the history, a parameter. So are the answers of `admit_at` and of
-- `close_unique` to the directory.
--
-- Fuel. The loop over member slots runs 63 times, as in the source; the bisection of `create` has 64
-- rounds, which halve any usize to nothing; loops of `compare_exchange_weak` run for a number of
-- rounds, and alone need one; so does the loop of `admit`.
-- The loop of `acquire_chunk` over the classes runs once more than there are classes; the iterator of a free
-- list has fuel for its nodes, and what is stated of it asks for as much as the longest list is long.
-- The walks over slabs need none: the index of a slab is a u32, and they end with it.
--
-- Not modelled: the scan for errors that `TalcMeta` makes in debug builds, mappings and
-- regions of src/mem.rs themselves, what sessions do once they are open, boxes, notifications, the
-- runtime and the operating systems, and of the parts above the closing of a channel, typed blocks, and
-- `scan`, `recover_layout`, `open` and the bytes of identifiers of the directory.
pub mod Base
pub mod Atomic
pub mod Cells
pub mod Chains
pub mod Queue
pub mod Root
pub mod Mem
pub mod Header
pub mod Channel
pub mod Pool
pub mod Talc
pub mod Session
pub mod Steps
pub mod Directory
pub mod Examples
