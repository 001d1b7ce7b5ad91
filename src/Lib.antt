-- ===== src/Lib.antt =====
-- PythonOS: definitions and theorems for the parts of the kernel that are pure Python logic.
--
-- The kernel is CPython itself with a library of Python packages. This development follows the
-- modules below, one module (with children) for each, in the names of the source. Paths are
-- from the repository's root.
--
--   Memory/Pmm     kernel/memory/pmm.py    the frame manager: `_ranges` (kept with its end first) and the counter
--   Memory/Vmm     kernel/memory/vmm.py    address spaces, the `region` context manager, process spaces;
--                                          uses Memory/Pmm
--   Net/Ethernet   kernel/net/ethernet.py  frames
--   Net/Ip         kernel/net/ip.py        `inet_cksum` and `IPv4Packet`
--   Net/Arp        kernel/net/arp.py       the ARP table; uses Net/Ethernet
--   Net/Tcp        kernel/net/tcp.py       Segment (wire format), Connection (the methods), Stack (tables and
--                                          demultiplexer); Stream, Handshake, Lifecycle, Demux, Tables and
--                                          Wire hold the proofs; uses Net/Ip
--   Net/Host       kernel/net/stack.py     the synchronous path between the card, ARP, IP and TCP: Defs; Exchange and
--                                          Delivery hold the proofs, with Sends and Answers; uses the four modules above
--   Drivers        kernel/drivers/keyboard.py  Keyboard: scan codes, modifiers and the queue; uses Asyncio
--   Asyncio        asyncio/                Events (handles, timers and rounds of the loop), Futures, Queues, Locks, with
--                                          Waiters for what the last two read and write of futures; Tests
--   Scheduler      kernel/scheduler.py     the process table; Lifecycle has the steps of the scheduler together
--                                          with the event loop of asyncio/
--   Image/Deflate  kernel/gui/image/_deflate.py  inflate: Bits (the reader), Huffman, Lengths, Inflate;
--                                          Reads, Total, Copies and Stored hold the proofs
--   Image/Png      kernel/gui/image/png.py the PNG decoder: Chunks, Filters, Decode; Refilter, Reread and Whole hold
--                                          the proofs; uses Image/Deflate
--   Fs/Tmpfs       kernel/fs/tmpfs.py      nodes on a heap, by number; `find` is `TmpfsNode.lookup`; Files, Names,
--                                          Entries and Paths hold the proofs
--   Fs/Vfs         kernel/fs/vfs.py        the switch over an interface `FsNode`, which OnTmpfs fills with Fs/Tmpfs:
--                                          Defs (mounts, paths), Calls (descriptors); Cover, Table, Effects and Mounts
--                                          hold the proofs on mounts, Files and Directories the others;
--                                          uses Fs/PurePath
--   Fs/PurePath    tools/stdlib_stubs/pathlib.py  the parent and the name of a path
--   Fs/Ext2        kernel/fs/ext2.py       the ext2 driver: Fields (`struct` and the exceptions), Super, Device (sectors,
--                                          the block cache, group descriptors), Mount, Bitmap, Alloc, Inode, Walk
--                                          (block pointers), Data, Dir (one directory block), Names (a directory),
--                                          Node, and OnVfs, which fills `FsNode`; Bits, ByteScan, FirstFit, Grants, Blocks,
--                                          Cache, Codec, Sizes, Pointers and Resolves hold the proofs on blocks and
--                                          inodes, Format, Insert, Adds, Adding, Remove, Removing, Removals, Erase and
--                                          AddRemove those on directory blocks; Image is the image of the runs in Tests
--   Prelude        (shared)                numbers, lists, bytes and `struct`, dictionaries, exceptions
--
-- How code becomes a definition: a method is a function from the object's record to the new record; one
-- that may raise returns an `Outcome` beside the record, since what was written before the exception stays
-- written. A `dict` is a list of entries in insertion order. Bytes are lists of numbers; a shift or a mask
-- is a division or a remainder by a power of two, and a field of `struct.pack` that does not fit is an
-- error. What a method starts with `ensure_future` is an output that names the segment or the task; what TCP sends
-- at once when a frame is polled is an output, too, which Net/Host then sends.
--
-- Bounds and fuel: the carry loop of `inet_cksum` has the sum as its fuel, and each round takes at least
-- 65535 away; the chunking loops have the length of the data as fuel, and each round takes at least one byte.
-- Each loop of inflate has eight times the length of the input plus one as its fuel, and each round reads a bit.
-- The loop over the chunks of a PNG has the length of the file, and each round takes twelve bytes or more.
--
-- The loops of ext2 over the bytes of a file and of a directory block have the number of these bytes as fuel;
-- each round takes one byte or more.
--
-- The image of an ext2 file system is the list of its sectors. A buffer that a method gets from the block cache is a
-- value: the methods write a block before they read it again, and what an exception of a broken image would leave
-- changed in a cached block, but not written, is not modelled. A method of a node holds the lock of the
-- file system, so it is one step. UTF-8 is a parameter, with the law that what was encoded is decoded to itself.
-- An offset in a directory block is the rest of the block from there on.
--
-- A coroutine is cut where it waits: one function runs from the test of a loop to the wait or the end. Any
-- interleaving of tasks is then a list of steps. Times are whole clock ticks. The callbacks of the event loop
-- are a parameter: what a callback does is the list of calls of the loop that it makes.
--
-- Offsets and counts of the file system switch are not negative. Paths are lists of code points. The file system switch runs one task at a time: what other tasks do while
-- a file system waits is not modelled.
--
-- Not modelled: waiting with a time limit (`asyncio.wait_for`), the log, the TLB flush (a stub in the
-- source), and every part listed as not modelled in the manifest: the other drivers, graphics, the C runtime.
pub mod Prelude
pub mod Asyncio
pub mod Memory
pub mod Net
pub mod Drivers
pub mod Scheduler
pub mod Image
pub mod Fs
