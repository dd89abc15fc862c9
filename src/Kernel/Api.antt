-- ===== src/Kernel/Api.antt =====
-- The functions of disastrOS.c that the processes call. Each one passes its arguments on to
-- disastrOS_syscall; what they return is the result that is stored when the process goes on.
pub mod Reaching
use messages_queue_disastros.Prelude.{ℕ, zero, suc, Option, List, [], ◌∷◌, ℤ, pos}
use messages_queue_disastros.Constants.{
  call_preempt, call_fork, call_spawn, call_wait, call_exit, call_sleep, call_open_resource,
  call_close_resource, call_destroy_resource, call_shutdown, call_message_queue_read,
  call_message_queue_write,
}
use messages_queue_disastros.Kernel.{Kernel}
use messages_queue_disastros.Kernel.Dispatch.{Entry, disastros_syscall}

-- A call of one of the functions, with its arguments.
pub data Call : Type 0 where
  fork preempt shutdown : Call
  wait : (pid retval : ℤ) → Call
  exit : (exitval : ℤ) → Call
  spawn : (f args : ℤ) → Call
  sleep : (sleep_time : ℤ) → Call
  open_resource : (resource_id type mode : ℤ) → Call
  close_resource : (fd mode : ℤ) → Call
  destroy_resource : (resource_id : ℤ) → Call
  mq_read mq_write : (resource_id text size : ℤ) → Call

-- The variable arguments of a call by their position; behind the last one nothing is read.
abbrev pub va_args : List ℤ → ℕ → ℤ
va_args [] i = pos 0
va_args (x ∷ xs) zero = x
va_args (x ∷ xs) (suc i) = va_args xs i

-- disastrOS_fork
unfoldable pub disastros_fork : Kernel → Option Entry
disastros_fork k = disastros_syscall k call_fork (va_args [])

-- disastrOS_wait
unfoldable pub disastros_wait : Kernel → (pid retval : ℤ) → Option Entry
disastros_wait k pid retval = disastros_syscall k call_wait (va_args (pid ∷ retval ∷ []))

-- disastrOS_exit
unfoldable pub disastros_exit : Kernel → (exitval : ℤ) → Option Entry
disastros_exit k exitval = disastros_syscall k call_exit (va_args (exitval ∷ []))

-- disastrOS_preempt
unfoldable pub disastros_preempt : Kernel → Option Entry
disastros_preempt k = disastros_syscall k call_preempt (va_args [])

-- disastrOS_spawn
unfoldable pub disastros_spawn : Kernel → (f args : ℤ) → Option Entry
disastros_spawn k f args = disastros_syscall k call_spawn (va_args (f ∷ args ∷ []))

-- disastrOS_shutdown
unfoldable pub disastros_shutdown : Kernel → Option Entry
disastros_shutdown k = disastros_syscall k call_shutdown (va_args [])

-- disastrOS_sleep
unfoldable pub disastros_sleep : Kernel → (sleep_time : ℤ) → Option Entry
disastros_sleep k sleep_time = disastros_syscall k call_sleep (va_args (sleep_time ∷ []))

-- disastrOS_openResource
unfoldable pub disastros_open_resource : Kernel → (resource_id type mode : ℤ) → Option Entry
disastros_open_resource k resource_id type mode =
    disastros_syscall k call_open_resource (va_args (resource_id ∷ type ∷ mode ∷ []))

-- disastrOS_closeResource
unfoldable pub disastros_close_resource : Kernel → (fd mode : ℤ) → Option Entry
disastros_close_resource k fd mode =
    disastros_syscall k call_close_resource (va_args (fd ∷ mode ∷ []))

-- disastrOS_destroyResource
unfoldable pub disastros_destroy_resource : Kernel → (resource_id : ℤ) → Option Entry
disastros_destroy_resource k resource_id =
    disastros_syscall k call_destroy_resource (va_args (resource_id ∷ []))

-- disastrOS_mq_read
unfoldable pub disastros_mq_read : Kernel → (resource_id buf_msg length : ℤ) → Option Entry
disastros_mq_read k resource_id buf_msg length =
    disastros_syscall k call_message_queue_read (va_args (resource_id ∷ buf_msg ∷ length ∷ []))

-- disastrOS_mq_write
unfoldable pub disastros_mq_write : Kernel → (resource_id msg length : ℤ) → Option Entry
disastros_mq_write k resource_id msg length =
    disastros_syscall k call_message_queue_write (va_args (resource_id ∷ msg ∷ length ∷ []))
