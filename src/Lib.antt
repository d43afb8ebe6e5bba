-- ===== src/Lib.antt =====
-- A model of LevelFS, the levelled file system of this repository, and of what it does right.
--
-- The program's parts and where they are modelled:
--
--   Cache: the LRU block cache with write-back, class LfsLRUCache of src/cache.hpp. Order is the
--   recency list, Invariant and Bounds are about single calls, Histories about sequences of them.
--   Disk: class DiskDevice of src/fs_common.hpp, which reads and writes sectors through that cache.
--   The image file or volume behind it is the parameter BlockDevice; IsReliable says that its
--   requests succeed and that a write changes one sector. Coherence and Refinement compare the
--   device, through histories of requests, with an array of sectors; Closing is about its edges.
--   Locks: classes FileLockManager and ScopedFileLock of src/concurrent.hpp. The clock is an argument.
--   Granted is about one request for a lock on any table, Histories about those of one process.
--   Volume: the superblock and the table of clusters of src/fs_common.hpp with the functions of
--   src/mount.cpp that look entries up, set them, count, allocate, free and follow chains. Hlat and
--   Flat turn the two-level table into a flat one, Reserved and Search follow the allocator's search,
--   Taking and Steps what takes and frees a cluster, Counter the count of free clusters, Following and
--   Freeing the chains, Leak a step that loses a cluster.
--   Paths: class PathUtils of src/fs_context.hpp, on strings as lists of character codes.
--   Navigation: NavigationContext and ContextManager of src/fs_context.hpp, with the bytes of the
--   saved context in Buffer.
--   Journal: class Journal of src/journal.hpp; Recovery is the replay, Logging and Logged the ring.
--   Permissions: src/permissions.hpp, with PermissionCache and PermissionChecker in the module itself and
--   PermissionResolver in Resolver, which stands on the directories of Entries and the parts of Paths;
--   Cached is about the cache, Resolved about entries and paths, Visited about the search in the tree.
--   Entries: classes EntryReader, EntryWriter and EntryFinder of src/fs_entry.hpp; Chains relates the
--   searches with the list of all entries, Changes and Applying follow one write, Naming finds what
--   was written.
--   Levels: the registry of levels of src/mount.cpp; Filling and Registered are about a new level in it.
--   Defrag: class Defragmenter of src/defrag.hpp; Space is its search, Links and Moved the move of
--   a file, File the decision on one file and its counters, Finished what these come to.
--   Scheduler: classes PrcParser and ProcessScheduler of src/scheduler.hpp. Prc is the file format of a
--   process definition, Table the processes and their handles, with the steps of its histories in Steps
--   and Histories; Startup the file of processes started at mount.
--   Console: classes LStreamBuf, LInputBuf and LOutputStream of src/lstream.cpp.
--   Tasks: the CommandParser, the ThreadPool, the TaskHandler and the parallel loops of
--   src/utils/handler.cpp and src/utils/handler.hpp. Pool and Handler are step relations.
--   Formatter: what performFormat of src/fs.cpp computes and leaves for the table of clusters.
--   Base: tests on numbers, lists, maps as association lists, strings; Text and Keys are about texts
--   and tables with distinct keys.
--
-- Disk calls Cache as DiskDevice does. Journal and Navigation share the byte layout of integers.
-- Volume sees the disk through two typed views of the table's clusters: the regions that the code
-- reads through them are disjoint, and its reads and writes succeed.
--
-- State is passed explicitly; the mutexes of the classes only make the calls a sequence. Counters of
-- w bits wrap modulo 2 ^ w; sums of the superblock's fields stay below 2 ^ 64. An access past the end
-- of a buffer is a result of its own (none in Volume.Table, out_of_bounds in Volume.Alloc, none in Levels
-- for a name that is longer than its array).
--
-- Fuel: the loop of setCapacity gets one round more than the cache has blocks; the wait for a lock
-- gets a round for each ten milliseconds of the timeout and one more; the allocator's search gets
-- 2 * totalClusters + 3 rounds, for it passes over the volume at most twice. The loop of getChain is
-- left at 1000001 clusters by the code itself, so a million rounds serve it. Each of these bounds is
-- enough by a theorem. The limits of 1000 clusters for a directory and 100000 for a file that is
-- defragmented are the code's own. A round of the pool's work is a step of one worker, and the number of
-- rounds that empties the pool is a theorem.
--
-- Assumed: texts hold no NUL byte; the counters of a run of the defragmenter stay below 2 ^ 31; the places of entries are below 2 ^ 64; the sectors in which Entries
-- and Defrag read links hold neither directory entries nor data of files. What the system answers, such
-- as whether a process could be started or is still active, is an argument of the step.
--
-- Not modelled: requests for several sectors at once, the Windows calls, the changes of a level's
-- statistics, the partitions of src/fs.cpp, the directories that the defragmenter visits, the
-- printing of numbers, the listings of processes, the bars and speeds of src/utils, and the commands of
-- the shell in src/mount.cpp. What they print is no part of the model anywhere.
pub mod Base
pub mod Cache
pub mod Console
pub mod Defrag
pub mod Disk
pub mod Entries
pub mod Formatter
pub mod Journal
pub mod Levels
pub mod Locks
pub mod Navigation
pub mod Paths
pub mod Permissions
pub mod Scheduler
pub mod Tasks
pub mod Volume
