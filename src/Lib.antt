-- ===== src/Lib.antt =====
-- testFS, a user-level file system in C over a block device: a development of its core.
--
-- The code and its parts. A block device (SPDK) holds, in order, the super block, the freemap of the
-- inodes (1 block), the freemap of the data blocks (2), the table of checksums (60), the inodes (128)
-- and the data blocks. src/super.c lays this out and loads and stores it, src/bitmap.c keeps the
-- freemaps, src/csum.c the checksums, src/inode.c the inodes with the map from logical to physical
-- blocks and the data of files, src/dir.c the directories as files of entries, src/tx.c the
-- transaction in progress. Every part reads and writes the device through src/block.c.
--
-- Which file models which code:
-- - Bytes: `memcpy`, ints in memory, the macros of include/common.h. An int is its 32-bit pattern; a
--   negative one is at least 2 ^ 31, so -ENOSPC is `neg 28`.
-- - Bitmap: src/bitmap.c, one definition for each function and one for each loop, named as there
--   without the prefix `bitmap_`.
-- - Platform: what the code calls and does not implement: the device, `hash_int` of the borrowed
--   include/list.h, and the content of an uninitialised buffer. Platform.Ram is a device in memory.
-- - World: the structs of include/super.h, include/inode.h, include/tx.h, and commands on them.
-- - Block, Tx, Csum, Freemap, Super: src/block.c, src/tx.c, src/csum.c and src/super.c, named without
--   the prefix `testfs_`. Async: src/async.c and the requests of src/block.c. Below it, a
--   request with a wait is compared with Block.
-- - Inode and below: src/inode.c. Inode.File reads and writes data, Inode.Truncate frees it,
--   Inode.Table has the hash table and the dinodes.
-- - Alternate: src/inode_alternate_common.c and src/inode_alternate_sync.c. The two forms of a write
--   share their text, `write_plan`, which takes the transfer of a block as a function. Alternate.Bulk
--   is `testfs_bulk_sync_inode`; Alternate.Flight is src/inode_alternate_async.c and the asynchronous
--   flushes of src/csum.c and src/super.c, with the writes that are pending on a future as a list.
-- - Dir and below: src/dir.c and `cmd_mkfs` of src/super.c. Dir.Show has the commands that print;
--   Dir.Entries, Dir.Lookup, Dir.Insert and Dir.Reopen see a directory as the list of its entries;
--   Dir.Add and Dir.Missing are about adding an entry and about removing one that is not there.
-- - Files: the commands of src/file.c.
-- - Check: `testfs_check_inode`, `testfs_checkfs` and `cmd_checkfs`.
-- - Shell: the table of commands and the splitting of a line in src/testfs.c; Shell.Commands has the
--   dispatch and the session, from mounting to unmounting.
-- - Bench: src/bench.c and include/bench.h; Bench.Raw is src/bench_raw.c, Bench.EndToEnd is
--   src/bench_e2e.c, and Bench.Commands has the commands. Async.Schedule runs a wait to its end under
--   a schedule, for the raw benchmarks. Bench.Overwrite, Bench.Readout, Bench.Trials and Bench.Range
--   are about them.
-- - Device: `start`, the reactors and `dev_stop` of src/device.c; Device.Countdown follows the events
--   one by one, Device.Start in sequence; Device.Count and Bench.Filling serve these.
--
-- A command is a function from a `World` to a `Run`: `done` with its value and the next world,
-- `aborted` for a failed `assert`, EXIT or dead pointer, `exhausted` for a loop out of fuel. The whole
-- world is passed on, so each call that writes the device or a struct is in the model. A struct inode
-- on which only one function works is passed as a value and put back into the table by its caller.
--
-- Fuel and bounds. The loop over the blocks of a buffer has `length / 512 + 2` rounds: a buffer that
-- starts inside a block touches at most that many blocks. A walk over a directory has one round more
-- than its size in bytes, and each entry is longer than 8 bytes. `cmd_checkfs`, `cmd_lsr`, `cmd_catr`
-- and `cmd_pwd` take the depth of the tree. Files have at most 132 blocks. Numbers of blocks are
-- compared as ints, with 2 ^ 32 and 2 ^ 31 written out.
--
-- What a command prints is part of its value where a text is printed, and left out for messages.
--
-- Not modelled: `dev_init` of src/device.c, which fills the options of SPDK; src/perf_test.c, a
-- program of its own that starts from an uninitialised context; include/list.h, a copy from Linux;
-- `main` and the arguments of the program in src/testfs.c. `malloc` may fail in `bitmap_create`; the
-- callers of that function, and all else, are modelled with `malloc` and `calloc` succeeding. `strtok`
-- and `strcmp` are those of the C standard; `qsort`, `strtol`, the clock, `rand`, doubles, SPDK, the
-- content of the buffers that the raw benchmarks never fill, and the files of the host are parameters.
-- Two commands `bench` of one session read the same clock, which is counted from the start of a
-- command.
pub mod Prelude
pub mod Bytes
pub mod Bitmap
pub mod Platform
pub mod World
pub mod Block
pub mod Async
pub mod Tx
pub mod Csum
pub mod Freemap
pub mod Super
pub mod Inode
pub mod Alternate
pub mod Dir
pub mod Files
pub mod Check
pub mod Bench
pub mod Device
pub mod Shell
pub mod Tests
