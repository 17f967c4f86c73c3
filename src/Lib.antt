-- ===== src/Lib.antt =====
-- base-kernel: a model of the kernel's memory management, scheduling, input events, string and printing
-- functions, network stack, file systems and program loader, with the theorems that make these parts
-- correct.
--
-- The parts and how they interact. The physical memory manager hands out pages of memory. The kernel
-- heap takes large blocks from it, and all small ones from a fixed range. The virtual memory manager
-- keeps the areas of an address space, takes pages for page tables and on page faults, and gives them
-- back when a range is unmapped. The scheduler links tasks into run queues. The table of event queues
-- takes events from the interrupt handlers and the system calls, and processes read them from it.
-- The network stack hands a packet up and down through Ethernet, ARP, IPv4, ICMP, UDP and TCP; the
-- cache of hardware addresses serves it, and an interface's `send_packet` is an argument of all that
-- can send. QFS keeps its free blocks and inodes in maps of bits, as the page allocator does. A component's file holds its state as a
-- record (in its child State, where it is large) and one function per C function, and the other child
-- modules hold the lemmas.
--
-- - Base: numbers, lists, integers, words that wrap, lists linked through a `next` field (Base/Chain),
--   and circular buffers (Base/Ring).
-- - Bitmap: the maps of free pages, one bit each, as in src/kernel/memory/pmm.c
--   and src/fs/qfs.c.
-- - Pmm: src/kernel/memory/pmm.c. `Pmm` holds the static variables; `alloc_pages` is
--   `pmm_alloc_pages`, `free_pages` is `pmm_free_pages`, `get_stats` is `pmm_get_stats`.
-- - Kheap: src/kernel/memory/kheap.c. `Heap` holds the static variables; the functions keep their
--   names. A call of `pmm_alloc_pages` is `alloc_pages` of Pmm.
-- - Vmm: src/kernel/memory/vmm.c. `Machine` is memory with the page allocator, `VmContext` an address
--   space, `Vm` the static variables; the functions keep their names.
-- - Scheduler: src/kernel/scheduler.c. `Sched` is the static variables with the memory that the task
--   structures lie in; the functions keep their names, and the helpers name the part of a function
--   that they stand for.
-- - Events: src/events.c. `Table` is the array of queues; the functions keep their names. `step` is
--   one call of the module's interface, and Events/Spec describes the table without buffers.
-- - Strings: src/kernel/string.c, memory as a byte at each address and strings as lists of bytes.
-- - Print: src/kernel/print.c. `itoa`, `vsnprintf` and the line functions return the text.
-- - Arp: the address cache of src/net/ethernet.c.
-- - Net: Net/Bytes has the byte order of src/net/net_core.c and the checksum of src/net/ipv4.c, Net/State
--   the structures of src/include/net.h and src/net/tcp.c, Net/Core src/net/net_core.c, Net/Ethernet
--   src/net/ethernet.c, Net/Ipv4 src/net/ipv4.c, Net/Udp src/net/udp.c, Net/Tcp src/net/tcp.c.
--   Net/Stack has the input functions of net_core.c, ethernet.c and ipv4.c, which call those of the
--   layers above. A packet's buffer is the byte at each offset.
-- - Qfs: src/fs/qfs.c. `Qfs` holds the static variables; the functions keep their names.
-- - Vfs: the list of file systems of src/fs/vfs.c.
-- - Paging: src/arch/x86_64/paging/paging.c, on the memory and the levels of tables of Vmm.
-- - Elf: src/kernel/elf_loader.c, over an interface to the page allocator and `vmm_map_page` of
--   src/arch/x86_64/paging/paging.c.
--
-- Integers are numbers with the wrap-around of their C types written out. Loops recur on the number
-- of rounds that are left, so they need no fuel, with these exceptions: the loop that unmaps a range
-- (Vmm) has the number of pages that the range can meet, and its own test ends it within them; the
-- folding loop of the checksum has two rounds, enough for a sum of 32 bits; the digits of a number have
-- 64 rounds, enough for 64 bits in any base; the loopback device, which delivers what it is given at
-- once, nests up to a depth that is an argument.
--
-- Not modelled: what drivers and the processor do, the contents of memory blocks and stacks, the TLB,
-- and log lines; the parsing of the boot loader's memory map in pmm.c; the functions of string.c that
-- run to a terminator; the freeing of packets; the journal's blocks of QFS. The other files of the
-- repository are not part of this library: drivers, processor set-up, system call dispatch, the
-- display server, the inodes of the virtual file system and the application interfaces.
pub mod Arp
pub mod Base
pub mod Bitmap
pub mod Elf
pub mod Events
pub mod Kheap
pub mod Net
pub mod Paging
pub mod Pmm
pub mod Print
pub mod Qfs
pub mod Scheduler
pub mod Strings
pub mod Vfs
pub mod Vmm
