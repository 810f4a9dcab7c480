-- ===== src/Lib.antt =====
-- Citrus, a bare metal operating system for the Cortex-A5: the scheduler, the process numbers, the
-- allocators of pages and of `kmalloc`, the FAT32 file system, the lists and memory functions below
-- them, and the network stack: packet layers, ports, ARP and the DHCP client.
--
-- Files, and the code they are about:
-- - Prelude (with Tests, Lists, Bits, Int, Order, Sets, Outcome): shared names; unsigned words with
--   `|`, `&` and shifts as arithmetic; membership and distinctness; outcomes of a call.
-- - ListNode: include/citrus/list.h. A node is an address, and the memory gives `next` and `prev`
--   of every address. ListNode.Ring says which nodes a list holds, Insert, Delete and Walk what the
--   operations do to it, Search what `list_iterate` finds, Family that disjoint lists do not
--   disturb each other.
-- - Bytes: lib/mem.c on a memory of bytes (Words: the reads and stores in either order; Regions:
--   mem_set, mem_copy and mem_cmp). A word copy is one step on four bytes.
-- - CString: `string_length` and `string_copy` of lib/string.c, on the same memory.
-- - Sched: kernel/rt.c, fair.c, back.c and idle.c, with the classes as a data type and the tables
--   of function pointers as functions on it; Sched.Core: kernel/sched.c. The record `Rq` is `struct
--   rq` together with the threads and the memory of their list nodes. Rotation and Pick are about
--   picking, Sleepers, Sleep and Wake about the sleep queue, Tick about `core_sched`.
-- - Pid: kernel/pid.c. Sequence is about allocation from a fresh table, Free about `free_pid`.
-- - Buddy: mm/buddy_alloc.c. Map is its bitmaps, Tiling the blocks of a zone, Pairs, Lists, Changes
--   and Steps what each step does to them, Zone the whole state; Alloc, Free and Init are the
--   operations. Zones have at most `2 ^ 20` pages, less than 4 GiB.
-- - Sprint: lib/sprint.c. Digits and Number are about the numbers that are written, Rounds about
--   the end of the loop.
-- - Tftp: net/tftp.c. Size is about the answer with the size of the file, Download about the loop
--   that puts the blocks together.
-- - Disks: fs/disk.c and fs/fs.c. Lookup is about the partition that a path names, Table about the
--   partitions that the first sector of a disk lists.
-- - Slob: mm/slob.c. Blocks is lists of free blocks, Insert and Search what the two loops do to
--   them, Alloc, Alloc.Take and Alloc.Whole the operations, Init the start. The fuel of a loop is
--   more than the number of free blocks.
-- - Dhcp: net/dhcp.c. Options, Search and Bounds are the search for an option, Build and Sent the
--   messages, Replies, Client and History the thread. The fuel of the search is the length of the
--   field.
-- - Fat: fs/fat.c. Mount is the check of the first page, Chain the clusters and the file pointer,
--   Names the two kinds of names, Entries and Paths the way to a file and what is read of it,
--   Listing the entries of a directory; their children are about what they do. A disk is what its
--   `read` gives; Paths and Entries take fuel for the loops that follow the disk's contents.
-- - Align: include/citrus/align.h (Rounding to multiples, Powers to powers of two).
-- - BootAlloc: mm/boot_alloc.c and mm/cache_alloc.c.
-- - Net: net/. Headers and Receive are the way down and up through udp.c, ip.c and mac.c, Layers
--   and Frames what they write and read; Pool is netbuf.c; Ports is the ports of udp.c,
--   Ports.Queues their queues; Arp is the table of arp.c, Arp.Mapping and Arp.Reply the map it
--   stands for, Arp.Packets the packets of arp.c, Arp.Exchange a request and its answer; Address is
--   `str_to_ipv4`, on strings as lists.
--
-- The scheduler, the buffer pool and the ARP table stand on ListNode; the packet layers on Bytes.
--
-- Loops that follow pointers run on fuel, and end in `none` when it is used up; the theorems about
-- them ask for more fuel than the list has nodes, and state the result. Addresses do not wrap.
-- Counters keep their wrap-around. Sections in which interrupts are off are single steps. NULL is
-- 0. A panic is `none` in the scheduler and an outcome of its own elsewhere; a call through a
-- function pointer that is NULL is `none`.
--
-- Parameters: the value that the CPU timer reads, the results of `kmalloc`, what a disk's `read`
-- gives, our hardware address. `__builtin_ctz` is the count of trailing zeros with 32 for a word of
-- zeros, on which the code relies.
--
-- Not modelled: drivers, assembly and page tables (they act on hardware), the ELF loader, the
-- graphics, and the consoles.
pub mod Prelude
pub mod ListNode
pub mod Bytes
pub mod Sched
pub mod Pid
pub mod Net
pub mod Align
pub mod BootAlloc
pub mod CString
pub mod Buddy
pub mod Dhcp
pub mod Fat
pub mod Slob
pub mod Disks
pub mod Tftp
pub mod Sprint
