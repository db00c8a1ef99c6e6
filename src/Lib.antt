-- ===== src/Lib.antt =====
-- Simplix, a small multitasking kernel for the PC.
--
-- The parts of the kernel and the modules that model them (paths from the repository's root):
--   Ring     include/simplix/list.h, the circular doubly linked lists that every other part uses.
--            A ring is two arrays of links and a head pointer; each macro (`list_append`,
--            `list_remove`, ...) is the function of that name, with the macro's writes in order.
--   Str      lib/string.c on a memory that maps addresses to bytes. Str/Format is vsnprintf, with
--            OUTPUTCHAR as `put` and the cases of its switch as `convert` and `convert_number`.
--   RamDisk  drivers/ramdisk.c: the block functions of the RAM disk driver. RamDisk/Driver is the
--            creation and the end of a disk.
--   BlkDev   kernel/blkdev.c: registration and reference counts of block devices.
--            BlkDev/Io is blkdev_read, BlkDev/Put is blkdev_write, over a driver.
--   PhysMem  kernel/physmem.c: block descriptors in arrays indexed by page number, linked by a
--            ring. `alloc_physmem_block_raw` is __alloc_physmem_block; `take_block`, `merge_next`
--            and `merge_prev` are parts of the functions that call them. PhysMem/Layout says what
--            the descriptors stand for: the blocks of memory in order, without gap or overlap.
--            PhysMem/Boot is init_physmem, PhysMem/Realloc is realloc_physmem_block.
--   Kmem     kernel/kmem.c, the kernel heap: slabs, caches and objects. `kmalloc_raw` is __kmalloc;
--            `grow_slab`, `new_cache`, `add_objects` and `take_object` are parts of it.
--   Ksync    kernel/ksync.c: semaphores and mutexes. ksema_down is `ksema_down` up to its call of
--            schedule and `ksema_resume` behind it.
--   Screen   drivers/gfx.c: the text-mode screen as a video memory and a cursor.
--   Ide      drivers/ide.c: the IDE driver over a machine: ports, and the calls of kernel/ksync.c.
--            Ide/Sync is the machine of the kernel, whose mutexes and semaphores are those of Ksync,
--            and in which sequences of events run while a task sleeps. Ide/Transfer is ide_read_write_blocks, Ide/Address the block address that
--            it sends, Ide/Identify is identify_ide_device.
--   BigReal  kernel/main.c: the big reals with which the demonstration task computes pi.
--   Segment  include/simplix/segment.h: segment descriptors, selectors, user memory areas.
--   Timer    kernel/timer.c: the computation of Unix time from the real time clock.
--   Sched    kernel/sched.c, include/simplix/task.h and the interrupt handler of kernel/timer.c:
--            tasks, pids, the election of a task. Sched/Life is kernel/task.c: sleeping, exit and
--            waiting for a child; Sched/Thread is kernel_thread of that file.
--   Sys      kernel/sys.c: the system calls. Sys/Fork is sys_fork, with `finish_fork` for its second
--            half and `fail` for what is behind its label `error`.
-- Exit gives memory back to PhysMem at the address that Segment reads from a descriptor; PhysMem
-- clears memory by memset and keeps its blocks in a Ring. Kmem makes its caches in blocks that
-- PhysMem hands out and keeps the objects in Rings; Ksync queues tasks in a Ring over the links of
-- the task list, and the driver of Ide takes them to guard a controller. Sys composes them: sys_fork takes a descriptor from Kmem, a pid from Sched, a stack
-- and an image from PhysMem and builds their segments by Segment; sys_brk resizes a block of PhysMem.
-- Sched keeps the task list as the list of the elements that its ring stands for, as
-- Ring relates rings and lists.
--
-- Numbers: `unsigned`, `addr_t` and `time_t` have 32 bits, with `% 2 ^ 32` where the code can wrap.
-- A shift is a product or a quotient with a power of two, and a mask is a remainder.
--
-- Fuel: a loop over a ring takes one unit for each element and one to stop; PhysMem gives it one
-- unit for each page and one more. `bcd_loop` has eight rounds, one for each digit of a 32-bit
-- number. `alloc_pid_loop` has MAX_PID rounds, which try
-- every pid. `strlen`, `strcpy` and `strcmp` take one round for each character and one for the zero.
-- The loop of `new_cache` has one round for each byte of a cache, and a slot has twelve at least.
-- A number that vsnprintf prints has ten digits at most, or eight; its loops over a format and over a
-- string take a number of rounds, and what is said of them is said for any number.
-- A theorem about a loop that takes its fuel as an argument names the fuel that is enough.
--
-- Steps: the functions of the scheduler run with interrupts disabled, so each is one step. A task
-- switch, which is assembly, is the change of `current`. `do_waitpid` is given by the round that it
-- repeats each time it is awoken. What the scheduler and the tasks print is left out.
--
-- Not modelled: assembly, the drivers of the keyboard and of the interrupt controller, the descriptor
-- tables that are loaded into the processor, the start of the IDE driver, and, so far, the user-space
-- heap, printk and the demonstration tasks.
pub mod Base
pub mod BigReal
pub mod BlkDev
pub mod Ide
pub mod Kmem
pub mod Ksync
pub mod PhysMem
pub mod RamDisk
pub mod Ring
pub mod Sched
pub mod Screen
pub mod Segment
pub mod Str
pub mod Sys
pub mod Timer
