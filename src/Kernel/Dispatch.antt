-- ===== src/Kernel/Dispatch.antt =====
-- The system call interface and the timer interrupt of disastrOS.c. Contexts are switched by the C
-- library: a step ends where the source jumps to the context of the running process.
pub mod Calling
use messages_queue_disastros.Prelude.{
  ℕ, ◌||◌, Option, none, some, ◌>>=◌, ◌==◌, if◌then◌else◌, ltb, List, [], ◌∷◌, set, get_elem?,
  replicate, ℤ, pos, pos_part, negsuc, ◌+ℤ◌, ltb_ℤ, eqb_ℤ,
}
use messages_queue_disastros.Constants.{
  max_syscalls, call_preempt, call_fork, call_spawn, call_wait, call_exit, call_sleep,
  call_open_resource, call_close_resource, call_destroy_resource, call_shutdown,
  call_message_queue_read, call_message_queue_write, e_syscall_out_of_range,
  e_syscall_not_implemented,
}
use messages_queue_disastros.Kernel.{Kernel, pcb_of, set_pcb, set_retvalue}
use messages_queue_disastros.Kernel.Scheduling.{
  internal_schedule, internal_preempt, internal_sleep, internal_shutdown,
}
use messages_queue_disastros.Kernel.Creation.{internal_fork, internal_spawn}
use messages_queue_disastros.Kernel.Termination.{internal_exit}
use messages_queue_disastros.Kernel.Waiting.{internal_wait}
use messages_queue_disastros.Kernel.Files.{
  internal_open_resource, internal_close_resource, internal_destroy_resource,
}
use messages_queue_disastros.Kernel.Mailbox.{
  internal_message_queue_read, internal_message_queue_write,
}

-- A vector after the assignments of disastrOS_start, in order, to the elements of the numbers.
unfoldable pub fill {ℓ} : {A : Type ℓ} → List A → List (ℤ × A) → List A
fill vector [] = vector
fill vector ((n, x) ∷ rest) = fill (set vector (pos_part n) x) rest

-- `syscall_numarg`, a global array of `max_syscalls` elements, which are 0 until one is stored.
unfoldable pub syscall_numarg : List ℕ
unfolding fill
syscall_numarg = fill (replicate 32 0) (
    (call_preempt, 0)
    ∷ (call_fork, 0)
    ∷ (call_spawn, 2)
    ∷ (call_wait, 2)
    ∷ (call_exit, 1)
    ∷ (call_sleep, 1)
    ∷ (call_open_resource, 3)
    ∷ (call_close_resource, 2)
    ∷ (call_destroy_resource, 1)
    ∷ (call_shutdown, 0)
    ∷ (call_message_queue_read, 3)
    ∷ (call_message_queue_write, 3)
    ∷ [])

-- `syscall_vector`, of `max_syscalls` pointers to functions, NULL where none is stored.
unfoldable pub syscall_vector : List (Option (Kernel → Option Kernel))
unfolding fill
syscall_vector = fill (replicate 32 none) (
    (call_preempt, some internal_preempt)
    ∷ (call_fork, some internal_fork)
    ∷ (call_spawn, some internal_spawn)
    ∷ (call_wait, some internal_wait)
    ∷ (call_exit, some internal_exit)
    ∷ (call_sleep, some internal_sleep)
    ∷ (call_open_resource, some internal_open_resource)
    ∷ (call_close_resource, some internal_close_resource)
    ∷ (call_destroy_resource, some internal_destroy_resource)
    ∷ (call_shutdown, some λ k. some (internal_shutdown k))
    ∷ (call_message_queue_read, some internal_message_queue_read)
    ∷ (call_message_queue_write, some internal_message_queue_write)
    ∷ [])

-- disastrOS_syscall up to the jump into the trap: an error that is returned at once, or the kernel
-- with the number and the arguments stored. A read behind the end of a vector faults.
pub data Entry : Type 0 where
  returned : ℤ → Entry
  trapped : Kernel → Entry

unfoldable pub disastros_syscall : Kernel → ℤ → (ℕ → ℤ) → Option Entry
disastros_syscall k syscall_num args =
    if k.current == 0
    then none
    else if ltb_ℤ syscall_num (pos 0) || ltb_ℤ max_syscalls syscall_num
    then some (returned e_syscall_out_of_range)
    else do
      nargs ← get_elem? syscall_numarg (pos_part syscall_num)
      let pcb = pcb_of k k.current
      some (
          trapped (
            set_pcb k k.current (record pcb {
              syscall_args = λ i. if ltb i nargs then args i else pcb.syscall_args i;
              syscall_num = syscall_num;
            })))

-- The function of the vector is called, or the error that there is none.
unfoldable pub call_handler : Kernel → Option (Kernel → Option Kernel) → Option Kernel
call_handler k none = some (set_retvalue k e_syscall_not_implemented)
call_handler k (some my_syscall) = my_syscall k

-- disastrOS_trap
unfoldable pub disastros_trap : Kernel → Option Kernel
disastros_trap k =
    let n = (pcb_of k k.current).syscall_num in
    if k.current == 0
    then none
    else if ltb_ℤ n (pos 0) || ltb_ℤ max_syscalls n
    then some (set_retvalue k e_syscall_out_of_range)
    else (get_elem? syscall_vector (pos_part n) >>= call_handler k)

-- disastrOS_getpid
unfoldable pub disastros_getpid : Kernel → ℤ
disastros_getpid k = if k.current == 0 then negsuc 0 else (pcb_of k k.current).pid

-- timerInterrupt
unfoldable pub timer_interrupt : Kernel → Option Kernel
timer_interrupt k = do
  k' ← internal_schedule (record k { time = k.time +ℤ pos 1 })
  if k'.current == 0 then none else some k'
