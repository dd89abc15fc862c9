-- ===== src/Lib.antt =====
-- disastrOS with message queues: a simulated operating system in one process of the host, with
-- processes, timers, resources, descriptors and queues of messages between processes.
--
-- Parts, each in a file of the same place in the tree:
--   LinkedList      linked_list.c: lists through links inside the items.
--   PoolAllocator   pool_allocator.c: blocks of one size in a static buffer.
--   Timer           disastrOS_timer.c: the timers, sorted by the time at which they elapse.
--   Process         disastrOS_pcb.c: process control blocks and the pointers to them.
--   Descriptor      disastrOS_descriptor.c: the descriptors of processes and the pointers to them.
--   Message         disastrOS_message_queue.c (m_alloc, m_free): the messages.
--   Resource        disastrOS_resource.c, disastrOS_resource_OS.c: resources by type.
--   MessageQueue    disastrOS_message_queue.c (mq_alloc, mq_free, mq_set_mode, mq_delete_mode).
--   Constants       disastrOS_constants.h.
--   Kernel          disastrOS_globals.h, the state, with the system calls below it:
--     Mailbox       disastrOS_message_queue_write.c, disastrOS_message_queue_read.c
--     Scheduling    disastrOS_schedule.c, disastrOS_preempt.c, disastrOS_sleep.c,
--                   disastrOS_shutdown.c
--     Files         disastrOS_open_resource.c, disastrOS_close_resource.c,
--                   disastrOS_destroy_resource.c
--     Creation      disastrOS_fork.c, disastrOS_spawn.c
--     Termination   disastrOS_exit.c
--     Waiting       disastrOS_wait.c
--     Dispatch      disastrOS.c: disastrOS_syscall, disastrOS_trap, timerInterrupt
--     Api           disastrOS.c: the functions that the processes call, which pass their arguments
--                   on to disastrOS_syscall
--     Start         disastrOS.c: disastrOS_start, and the initialisers
--   Printing        the print functions of disastrOS_pcb.c, disastrOS_timer.c,
--                   disastrOS_descriptor.c, disastrOS_resource.c and disastrOS_message_queue.c, and
--                   disastrOS_printStatus of disastrOS.c
--   TestMq          disastrOS_test_mq.c: initFunction, the writer and the reader
--   Prelude         native numbers, integers, lists and maps that all parts share.
--   Examples        small states on which the operations are run.
--
-- State and operations. The memory of each type of object is a map from addresses to records, and
-- the links of the objects are a map of their own, since the links stand at the start of every
-- struct. NULL is the address 0. A function that changes the state takes it and returns it; `none`
-- is a fault: an access through NULL or out of the bounds of an array, an assertion that fails, or
-- a loop out of fuel. The model keeps the source's names in lower case with underscores, so
-- internal_openResource is internal_open_resource. A resource has the fields of a message queue
-- always; those of a standard resource are not used.
--
-- Integers. A conversion to `int` from a pointer difference, a `size_t` or a `long` wraps to 32 bits
-- (to_int). Otherwise an `int` is an unbounded integer: the counters (sizes of lists and pools, the
-- time, the numbers of processes and descriptors) are not wrapped.
--
-- Fuel. A walk over a list has one round more than the size that the list's head counts; on a
-- well-formed list that is enough, as is stated where the walks are used.
--
-- The system calls change the memory of the processes through the pointers that they are given;
-- the pointers are taken to be valid.
--
-- Scheduling keeps one invariant (Kernel/Scheduling/Tick, IsRunning): one process runs, the ready
-- and the waiting ones are two lists without a common process, and every timer stands for a process
-- that waits. What is printed is a text, the list of its codes; what printf writes for a number is a
-- parameter. The processes of the test program are machines: the state says which call is next, and
-- its result gives the next state; fuel is the list of the results.
--
-- Not modelled: contexts and signals, which belong to the C library (a step ends where the source
-- jumps), the log, and of the test program what it prints, the sleeper, which only prints, and main.
pub mod Prelude
pub mod LinkedList
pub mod PoolAllocator
pub mod Timer
pub mod Process
pub mod Descriptor
pub mod Constants
pub mod Message
pub mod Resource
pub mod MessageQueue
pub mod Kernel
pub mod Printing
pub mod TestMq
pub mod Examples
