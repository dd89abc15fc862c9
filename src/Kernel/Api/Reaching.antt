-- ===== src/Kernel/Api/Reaching.antt =====
-- Every function of disastrOS.c that a process calls reaches the handler of its own call.
use messages_queue_disastros.Prelude.{ℕ, ◌<◌, ◌≡◌, ◌≢◌, Option, some, List, [], ◌∷◌, length, ◌≤◌, ℤ}
use messages_queue_disastros.Kernel.{Kernel, arg, pcb_of}
use messages_queue_disastros.LinkedList.{Addr}
use messages_queue_disastros.Kernel.Scheduling.{internal_preempt, internal_sleep, internal_shutdown}
use messages_queue_disastros.Kernel.Creation.{internal_fork, internal_spawn}
use messages_queue_disastros.Kernel.Termination.{internal_exit}
use messages_queue_disastros.Kernel.Waiting.{internal_wait}
use messages_queue_disastros.Kernel.Files.{
  internal_open_resource, internal_close_resource, internal_destroy_resource,
}
use messages_queue_disastros.Kernel.Mailbox.{
  internal_message_queue_read, internal_message_queue_write,
}
use messages_queue_disastros.Kernel.Dispatch.{Entry, trapped, disastros_trap}
use messages_queue_disastros.Kernel.Api.{
  Call, fork, preempt, shutdown, wait, exit, spawn, sleep, open_resource, close_resource,
  destroy_resource, mq_read, mq_write, va_args, disastros_fork, disastros_wait, disastros_exit,
  disastros_preempt, disastros_spawn, disastros_shutdown, disastros_sleep, disastros_open_resource,
  disastros_close_resource, disastros_destroy_resource, disastros_mq_read, disastros_mq_write,
}

unfoldable pub issue : Kernel → Call → Option Entry
issue k fork = disastros_fork k
issue k preempt = disastros_preempt k
issue k shutdown = disastros_shutdown k
issue k (wait pid retval) = disastros_wait k pid retval
issue k (exit exitval) = disastros_exit k exitval
issue k (spawn f args) = disastros_spawn k f args
issue k (sleep sleep_time) = disastros_sleep k sleep_time
issue k (open_resource resource_id type mode) = disastros_open_resource k resource_id type mode
issue k (close_resource fd mode) = disastros_close_resource k fd mode
issue k (destroy_resource resource_id) = disastros_destroy_resource k resource_id
issue k (mq_read resource_id text size) = disastros_mq_read k resource_id text size
issue k (mq_write resource_id text size) = disastros_mq_write k resource_id text size

-- What the handler is to find in the arguments, and the handler.
unfoldable pub call_arguments : Call → List ℤ
call_arguments fork = []
call_arguments preempt = []
call_arguments shutdown = []
call_arguments (wait pid retval) = pid ∷ retval ∷ []
call_arguments (exit exitval) = exitval ∷ []
call_arguments (spawn f args) = f ∷ args ∷ []
call_arguments (sleep sleep_time) = sleep_time ∷ []
call_arguments (open_resource resource_id type mode) = resource_id ∷ type ∷ mode ∷ []
call_arguments (close_resource fd mode) = fd ∷ mode ∷ []
call_arguments (destroy_resource resource_id) = resource_id ∷ []
call_arguments (mq_read resource_id text size) = resource_id ∷ text ∷ size ∷ []
call_arguments (mq_write resource_id text size) = resource_id ∷ text ∷ size ∷ []

unfoldable pub handler_of : Call → Kernel → Option Kernel
handler_of fork k = internal_fork k
handler_of preempt k = internal_preempt k
handler_of shutdown k = some (internal_shutdown k)
handler_of (wait pid retval) k = internal_wait k
handler_of (exit exitval) k = internal_exit k
handler_of (spawn f args) k = internal_spawn k
handler_of (sleep sleep_time) k = internal_sleep k
handler_of (open_resource resource_id type mode) k = internal_open_resource k
handler_of (close_resource fd mode) k = internal_close_resource k
handler_of (destroy_resource resource_id) k = internal_destroy_resource k
handler_of (mq_read resource_id text size) k = internal_message_queue_read k
handler_of (mq_write resource_id text size) k = internal_message_queue_write k

-- A call enters the system with these arguments stored, in front of those that were there, and the
-- trap is then this handler.
abbrev pub Reaches :
    (k : Kernel) → Option Entry → (args : List ℤ) → (Kernel → Option Kernel) → Type 0
Reaches k called args handler =
    (k' : Kernel) × (called ≡ some (trapped k'))
    × ((i : ℕ) → i < length args → arg k' i ≡ va_args args i)
    × ((i : ℕ) → length args ≤ i → arg k' i ≡ arg k i)
    × ((p : Addr) → p ≢ k.current → pcb_of k' p ≡ pcb_of k p)
    × (k'.current ≡ k.current)
    × (k'.mail ≡ k.mail)
    × (k'.user ≡ k.user)
    × (disastros_trap k' ≡ handler k')
