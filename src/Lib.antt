-- ===== src/Lib.antt =====
-- The kernel of the last lab of this repository (OSLab7-Mitjoslab4), a JOS kernel with preemptive
-- multitasking and user-level copy-on-write fork, and the programs of the first labs beside it.
--
-- Parts and files. Paths are below OSLab7-Mitjoslab4, if they do not name another lab.
--   Base, Base/*     Boolean tests, lists over native numbers, bit masks by binary digits
--   Mmu              address macros and memory layout (inc/mmu.h, inc/memlayout.h, inc/types.h)
--   Kernel           struct Env, struct Trapframe, error codes and the state of the kernel; commands
--                    over it (inc/env.h, inc/trap.h, inc/error.h, kern/cpu.h)
--   Pmap, Pmap/*     the page allocator, page tables, reference counts, user_mem_check (kern/pmap.c)
--   Env, Env/*       environment lookup and creation (kern/env.c)
--   EnvFree, EnvFree/*  region_alloc, env_free and env_destroy (kern/env.c)
--   Sched, Sched/*   sched_yield, sched_halt, and env_run of kern/env.c (kern/sched.c)
--   Syscall, Syscall/*  the system call handlers (kern/syscall.c)
--   Trap, Trap/*     syscall() of kern/syscall.c, trap, trap_dispatch, page_fault_handler (kern/trap.c)
--   LoadIcode, LoadIcode/*, Elf  load_icode and env_create (kern/env.c), and the ELF image (inc/elf.h)
--   Boot, Boot/*     the boot loader (boot/main.c)
--   EntryPgdir, EntryPgdir/*  the first page tables (kern/entrypgdir.c)
--   MpConfig, MpConfig/*  the multiprocessor configuration table (kern/mpconfig.c)
--   Fork, Fork/*     copy-on-write fork and message passing of user programs (lib/fork.c, lib/pgfault.c, lib/ipc.c)
--   Console, Console/*  the input buffer and the text screen (kern/console.c)
--   Keyboard         the keyboard decoder with its tables (kern/console.c)
--   Monitor, Monitor/*  the command lines of the kernel monitor, showmappings and setm (kern/monitor.c)
--   Numbers, Numbers/*  printnum (lib/printfmt.c), strtol (lib/string.c) and xtoi (kern/monitor.c)
--   Conversion, Format, Format/*  vprintfmt and vsnprintf (lib/printfmt.c)
--   Print, Print/*   cprintf of user programs and of the kernel (lib/printf.c, kern/printf.c)
--   Readline         the line input (lib/readline.c)
--   Debug, Debug/*   the search in the debugging tables, and debuginfo_eip (kern/kdebug.c)
--   SpinLock, SpinLock/*  the big kernel lock among the CPUs (kern/spinlock.c)
--   PThread, PThread/*  producer and customer threads (OSLab2-PThread/main.c)
--   Shell, Shell/*   the line handling of the mini shell (OSLab3-MiniShell/main.c)
--   Strings, Strings/*  the string functions (lib/string.c)
--   Sample           a small machine for the tests
--
-- A kernel function is a command `Cmd A`: it maps a state to a result and a state, leaves the kernel
-- (to user mode, by hlt, or into the monitor), or panics. Trap calls Syscall, which calls Env, Pmap and Sched; Env
-- and Sched call Pmap. A physical page is its number, its contents are 32-bit words; an
-- environment is its index in `envs`; a pointer that may be NULL is an Option. Numbers of 32 bits
-- are native numbers with `% 2 ^ 32` where the source may wrap; signed ones are bit patterns.
--
-- Fork puts the calls of a user program one after the other; an address space is the map `translate` of Pmap/Space,
-- and Pmap/Isolation and Pmap/Fresh say what a change of one leaves of another.
--
-- The loops count their rounds: 1024 slots in the scheduler, 1024 entries in each of the user tables,
-- and `(end - begin) / PGSIZE` pages in user_mem_check, region_alloc and boot_map_region. Each count is
-- what the loop's own condition gives, so no run ends for want of rounds. The string functions that
-- run to a null byte have a bound on their rounds; one more than the length of the string is enough.
--
-- Boot takes the disk as a function from the bytes in its registers, and the loops of readseg have a bound on their rounds; two more than
-- the number of the segment's sectors is enough. The search for the multiprocessor table makes at most as many rounds as
-- its range has bytes. showmappings has a bound on its rounds, since it may not end.
--
-- Pmap/Frame says what the operations on memory leave alone; EnvFree and LoadIcode use it.
--
-- The format loop has a bound on the chars that it reads, of which each round reads one.
--
-- Not modelled: the effect of cprintf calls of the kernel, port and register I/O, the contents of the hardware TLB (the
-- addresses given to invlpg are logged), other CPUs inside the kernel (the lock keeps them out),
-- the assembly files, the commands of the monitor that only print, the user programs, and the earlier labs, which hold earlier states of these files.
pub mod Base
pub mod Mmu
pub mod Kernel
pub mod Pmap
pub mod Sample
pub mod Readline
pub mod Monitor
pub mod Numbers
pub mod Conversion
pub mod Format
pub mod Print
pub mod Env
pub mod Sched
pub mod EnvFree
pub mod Syscall
pub mod Trap
pub mod Fork
pub mod Console
pub mod Keyboard
pub mod Elf
pub mod LoadIcode
pub mod Boot
pub mod EntryPgdir
pub mod MpConfig
pub mod Debug
pub mod SpinLock
pub mod PThread
pub mod Shell
pub mod Strings
