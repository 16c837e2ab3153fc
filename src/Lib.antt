-- ===== src/Lib.antt =====
-- The paging system of a teaching kernel (OS/161 with on-demand paging), and theorems about it.
--
-- The program and how its parts interact. All code is below os161/os161-base-2.0.2/kern; the paths here
-- start there. A TLB miss enters vm_fault (vm/addrspace.c), which finds the segment and the page-table
-- entry of the address, gets a frame from the coremap (vm/coremap.c), fills it from the swap file
-- (vm/swapfile.c), from the program file (syscall/loadelf.c) or with zeros, and loads the TLB
-- (vm/vm_tlb.c). When no frame is free, the coremap evicts a page of the same address space to the swap
-- file. Each of these events is counted (vm/vmstats.c).
--
-- Which file models which part:
--   Base          lists with native indices, Boolean tests, writes into arrays
--   Machine       32-bit words, the outcome of a kernel function, error codes; Machine/Platform the
--                 interfaces to code that is not in the repository: the TLB, lib/bitmap, and memory with
--                 VOP_READ and VOP_WRITE, each a record of operations and a record of documented laws;
--                 Machine/Threadlists the same for threadlist.h, Machine/Bits single bits of a word
--   Stats         vm/vmstats.c and checkcanLock; Stats/Count what is counted
--   Tlb           vm/vm_tlb.c; Tlb/Load and Tlb/Invalidate
--   Swap          vm/swapfile.c and load_segment; Swap/Trip the way of a page out and back, Swap/Locks
--                 the paths that keep the lock
--   Coremap       vm/coremap.c without getPage's eviction; Coremap/Scan the search loops, Inv the
--                 invariant, Alloc and Release the operations, Victim the round-robin walk, Init booting
--   Space         include/pt.h, include/segment.h and the regions and page tables of vm/addrspace.c;
--                 Space/Layout and Space/Lookup the table that is built and the searches in it
--   Elf           load_elf_ondemand
--   Kernel        the state of all parts together, and commands of one part on it
--   Pt            vm/pt.c
--   Vm            getPage, getPages, ptAlloc, alloc_kpages, free_kpages and vm_fault, on the kernel;
--                 Vm/Pages, Vm/Fault and Vm/Resident
--   Life          as_prepare_load, as_activate, as_destroy and vm_bootstrap of vm/addrspace.c; Life/Prepare
--                 and Life/Destroy, Life/Reaped proc_destroy with as_destroy
--   Synch         thread/synch.c: semaphores, locks and a condition variable, as steps of threads that
--                 interleave; Synch/Channels the wait channels, Synch/Invariant what holds in
--                 every state that threads reach, Synch/Steps, Signals, Releases and Every its
--                 preservation, Synch/Exclusion what follows, Synch/Mutex each step as one of a mutex
--   Files         syscall/file_syscalls.c and proc_file_table_copy; Files/Counts the reference counts,
--                 Files/Close, Files/Open and Files/Copy
--   Proc          proc/proc.c and syscall/proc_syscalls.c; Proc/Index the search for a free pid,
--                 Proc/Table and Proc/Wait the table, Proc/Reap and Proc/Status destruction and waitpid
--   Loader        load_elf of syscall/loadelf.c; Loader/Regions the loop over the headers, Loader/Loaded
--                 the whole function
--   Clone         as_create and as_copy of vm/addrspace.c; Clone/Pages the loop over the pages
--   Thread        thread/thread.c on several processors: Thread/Ipi the interrupts between them, Thread/Queue
--                 run queues and wait channels, Thread/Switch creating, switching and destroying threads,
--                 Thread/Migrate thread_consider_migration; proofs in Thread/Balance, Collect, Handout and
--                 Spread (migration), Running and Fifo (switching), Waking and Wakeall (wait channels),
--                 Shootdown (interrupts) and Forking
--   Dispatch      arch/mips/syscall/syscall.c, and sys_reboot of main/main.c; Dispatch/Registers
--                 open and close as the user program sees them
--   Start         syscall/runprogram.c; Start/Strings and Start/Words the two loops that fill the user
--                 stack, Start/Arguments the stack that a program finds
--   Fork          sys_fork of syscall/proc_syscalls.c, on processes, files, memory and threads; Fork/Swapped
--                 what it does to the files
--   Menu          main/menu.c: cmd_dispatch, menu_execute, common_prog, cmd_prog and cmd_shell;
--                 Menu/Dispatched which command a line runs
--   Witness       the theorems at concrete inputs, over concrete devices
--
-- How state and operations correspond to the code. The globals of a C file are the record of its module,
-- and a function is a command `S → Outcome S A` under the function's name in lower case with dashes
-- below; getPage is get_page, freeAs is free_as. A struct is a record, an array a list whose length is the
-- number of its elements, a pointer to an address space a number (0 is NULL) that indexes the address
-- spaces of the kernel. A sleep lock or spinlock is a Boolean field: taking a held spinlock is the fault
-- `deadlock`, lock_acquire of a held lock fails its KASSERT (one thread runs at a time, so the holder is
-- the caller). A panic, a failed assertion and an access outside an array are faults. `unsigned` and
-- `paddr_t` arithmetic is modulo 2 ^ 32, `unsigned short` modulo 2 ^ 16. A result that comes from code
-- outside the repository (ram_getsize, vfs_swapon), and whether an allocation worked (kmalloc, lock_create),
-- is an argument. The user's memory is a parameter too (Start): copyout and copyoutstr with the bytes
-- that they write. A system call that does not return now, since its thread ends or sleeps, makes the
-- dispatch return no registers.
--
-- Bounds and fuel. Most loops are recursions on the number of rounds that the C loop has left, so they
-- need no fuel. The other loops are these. The search for a free pid has as many rounds as the table of
-- pids has entries, and the loop of P is a step of Synch. getPage's `while(1)` has as many rounds as the
-- table has frames, which is enough whenever there is a frame to evict; otherwise the loop of the source
-- does not end, and here the fuel runs out. A loop of thread.c that empties a list has
-- one round more than the list has threads. The wait of thread_switch for a thread to run is one round,
-- which ends `idling`, and idle_return is the next round.
--
-- Threads. Synch is the only part in which threads interleave: a function is cut into steps at the points
-- where another thread can run, what a thread does while it holds a spinlock is one step, and `later` of
-- `Reach` takes any thread. In Proc a thread that sleeps in P makes its command return `none`, and calls it
-- again when it is woken. In Thread each field of `struct thread` and `struct cpu` is a function from
-- threads and processors, and a command runs to its end, so that no other processor acts meanwhile.
-- thread_switch is cut where the assembler switches the context; switch_end is what follows in the thread
-- that is switched to. The code under OPT_FILE and OPT_SYNCH is modelled as if these options were set;
-- conf/PAGING sets the second only.
--
-- A thread counts in p_numthreads of its process, and t_proc is a field of the thread: Thread and Proc
-- both keep these two, and Fork hands those of the processes to the commands of Thread and takes them
-- back.
--
-- What is not modelled: the start of the processors in thread/thread.c, the boot functions of main/main.c
-- but for vm_bootstrap, the other commands of the menu, and input and output. Interrupts that arrive while
-- a command runs, and other processors, are left out but in Synch: a command runs to its end. A write to the swap file
-- that returns 0 is taken to be complete; swap_out does not look at uio_resid.
pub mod Base
pub mod Machine
pub mod Stats
pub mod Tlb
pub mod Swap
pub mod Coremap
pub mod Space
pub mod Elf
pub mod Kernel
pub mod Pt
pub mod Vm
pub mod Life
pub mod Synch
pub mod Files
pub mod Proc
pub mod Loader
pub mod Clone
pub mod Thread
pub mod Dispatch
pub mod Start
pub mod Fork
pub mod Menu
pub mod Witness
