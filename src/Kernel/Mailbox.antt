-- ===== src/Kernel/Mailbox.antt =====
-- disastrOS_message_queue_write.c and disastrOS_message_queue_read.c.
pub mod Write
pub mod Read
pub mod CopyOut
pub mod ByFd
pub mod Calls
pub mod Refusals
pub mod Fifo
pub mod Lost
use messages_queue_disastros.Prelude.{
  ℕ, zero, suc, Bool, not, ◌||◌, Option, none, some, ◌>>=◌, ◌==◌, if◌then◌else◌, update, List, [],
  ◌∷◌, get_elem?, ℤ, pos, negsuc, pos_part, ◌+ℤ◌, ltb_ℤ, eqb_ℤ, to_int,
}
use messages_queue_disastros.Constants.{
  message_queue_type, message_string_max_length, m_for_mq, message_length_not_valid,
  resource_not_found, e_resource_type_wrong, message_queue_full, waiting_for_message,
  message_queue_empty,
}
use messages_queue_disastros.LinkedList
use messages_queue_disastros.LinkedList.{Addr, ListHead}
use messages_queue_disastros.PoolAllocator.{PoolAllocatorResult}
use messages_queue_disastros.Descriptor.{descriptor_list_by_fd}
use messages_queue_disastros.Resource.{Resource}
use messages_queue_disastros.Message.{Message, m_alloc, m_free}
use messages_queue_disastros.Resource.Operations.{result_code}
use messages_queue_disastros.Kernel.{Kernel, pcb_of, set_pcb, arg, set_retvalue}

abbrev pub set_resource : Kernel → Addr → Resource → Kernel
set_resource k r res = record k {
  devices = record k.devices { resources = update k.devices.resources r res };
}

-- What both system calls do first: the resource that a file descriptor of the running process
-- stands for, if it is a message queue, and the error if there is none.
pub data Lookup : Type 0 where
  queue : Addr → Lookup
  refused : ℤ → Lookup

unfoldable pub lookup_queue : Kernel → ℤ → Option Lookup
lookup_queue k fd = do
  d ← descriptor_list_by_fd k.files (pcb_of k k.current).descriptors fd
  let resource = (k.files.descriptors d).resource
  if d == 0
      then some (refused resource_not_found)
      else if resource == 0
      then none
      else if not (eqb_ℤ (k.devices.resources resource).type message_queue_type)
      then some (refused e_resource_type_wrong)
      else some (queue resource)

-- The character at an index behind a pointer of the running process.
abbrev pub user_char : Kernel → ℤ → ℕ → ℕ
user_char k ptr i = k.user.chars (ptr +ℤ pos i)

-- internal_message_queue_write, from the test for a full queue on. The error goes into
-- `return_value`, not into `syscall_retvalue`.
unfoldable pub enqueue : Kernel → Addr → ℤ → ℤ → Option Kernel
enqueue k mq msg_ptr length =
    let res = k.devices.resources mq in
    if eqb_ℤ res.msgs.size (pos m_for_mq)
    then some
        (set_pcb k k.current (record (pcb_of k k.current) { return_value = message_queue_full }))
    else (do
      (m, mail) ← m_alloc k.mail (user_char k msg_ptr) length
      (items, head, _) ← LinkedList.insert mail.message_items res.msgs res.msgs.last m
      let k1 = record k { mail = record mail { message_items = items } }
      some (set_retvalue (set_resource k1 mq (record res { msgs = head })) length))

unfoldable pub write_found : Kernel → ℤ → ℤ → Lookup → Option Kernel
unfolding enqueue
write_found k msg_ptr length (refused error) = some (set_retvalue k error)
write_found k msg_ptr length (queue mq) = enqueue k mq msg_ptr length

-- internal_message_queue_write
unfoldable pub internal_message_queue_write : Kernel → Option Kernel
unfolding lookup_queue write_found
internal_message_queue_write k =
    let fd = to_int (arg k 0) in
    let msg_ptr = arg k 1 in
    let length = to_int (arg k 2) in
    if k.current == 0
    then none
    else if ltb_ℤ length (pos 0) || ltb_ℤ (pos message_string_max_length) length
    then some (set_retvalue k message_length_not_valid)
    else (do found ← lookup_queue k fd; write_found k msg_ptr length found)

-- `for (i = from; i < from + rounds; i++) msg_ptr[i] = m->msg[i];`
unfoldable pub copy_out : ℕ → ℕ → List ℕ → ℤ → (ℤ → ℕ) → Option (ℤ → ℕ)
copy_out zero from msg ptr chars = some chars
copy_out (suc rounds) from msg ptr chars = do
  c ← get_elem? msg from
  copy_out rounds (suc from) msg ptr (λ p. if eqb_ℤ p (ptr +ℤ pos from) then c else chars p)

-- internal_message_queue_read, on a queue.
unfoldable pub dequeue : Kernel → Addr → ℤ → ℤ → Option Kernel
unfolding copy_out
dequeue k mq msg_ptr length =
    let res = k.devices.resources mq in
    let first = res.msgs.first in
    let m = k.mail.messages first in
    if eqb_ℤ res.msgs.size (pos 0)
    then some (
        set_retvalue k
          (if not (res.writing_pid == 0) then waiting_for_message else message_queue_empty))
    else if first == 0
    then none
    else if ltb_ℤ length m.length
    then some (set_retvalue k message_length_not_valid)
    else (do
      chars ← copy_out (pos_part m.length) 0 m.msg msg_ptr k.user.chars
      (items, head, _) ← LinkedList.detach k.mail.message_items res.msgs first
      (result, mail) ← m_free (record k.mail { message_items = items }) first
      let k1 = record k { user = record k.user { chars = chars }; mail = mail }
      let k2 = set_retvalue (set_resource k1 mq (record res { msgs = head })) m.length
      if ltb_ℤ (result_code result) (pos 0) then none else some k2)

unfoldable pub read_found : Kernel → ℤ → ℤ → Lookup → Option Kernel
unfolding dequeue
read_found k msg_ptr length (refused error) = some (set_retvalue k error)
read_found k msg_ptr length (queue mq) = dequeue k mq msg_ptr length

-- internal_message_queue_read
unfoldable pub internal_message_queue_read : Kernel → Option Kernel
unfolding lookup_queue read_found
internal_message_queue_read k =
    let fd = to_int (arg k 0) in
    let msg_ptr = arg k 1 in
    let length = to_int (arg k 2) in
    if k.current == 0
    then none
    else (do found ← lookup_queue k fd; read_found k msg_ptr length found)
