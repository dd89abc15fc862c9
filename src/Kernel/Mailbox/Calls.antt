-- ===== src/Kernel/Mailbox/Calls.antt =====
-- The system calls internal_message_queue_write and internal_message_queue_read as a whole.
use messages_queue_disastros.Prelude.{
  ℕ, ◌≤◌, ◌<◌, ◌≡◌, refl, ◌∙◌, ◌≢◌, ap, true, false, some, List, ◌∷◌, arith, length, ==-eq-false,
  pos, ltb_ℤ, to_int,
}
use messages_queue_disastros.Constants.{message_queue_type, message_string_max_length, m_for_mq}
use messages_queue_disastros.LinkedList.{Addr}
use messages_queue_disastros.LinkedList.Chain.{has}
use messages_queue_disastros.Message.Queue.{IsMail, IsQueue}
use messages_queue_disastros.Kernel.{Kernel, arg}
use messages_queue_disastros.Kernel.Mailbox.{
  internal_message_queue_write, internal_message_queue_read, write_found, read_found, dequeue,
  lookup_queue, Lookup, queue,
}
use messages_queue_disastros.Kernel.Mailbox.ByFd.{HasDescriptors, lookup_queue-found}
use messages_queue_disastros.Kernel.Mailbox.Write.{Sent, enqueue-Sent, msgs_of}
use messages_queue_disastros.Kernel.Mailbox.Read.{Received, dequeue-Received}

pub write_runs :
    (k : Kernel) (n : ℕ) (found : Lookup)
    → k.current ≢ 0
    → to_int (arg k 2) ≡ pos n
    → n ≤ message_string_max_length
    → lookup_queue k (to_int (arg k 0)) ≡ some found
    → internal_message_queue_write k ≡ write_found k (arg k 1) (pos n) found
unfolding internal_message_queue_write
write_runs k n found nz e le looked =
    let fits : ltb_ℤ (pos message_string_max_length) (pos n) ≡ false = ground arith in
    let positive : ltb_ℤ (pos n) (pos 0) ≡ false = ground arith in
    rw (==-eq-false k.current 0 nz, e, fits, positive, looked) refl

pub read_runs :
    (k : Kernel) (found : Lookup)
    → k.current ≢ 0
    → lookup_queue k (to_int (arg k 0)) ≡ some found
    → internal_message_queue_read k ≡ read_found k (arg k 1) (to_int (arg k 2)) found
unfolding internal_message_queue_read
read_runs k found nz looked = rw (==-eq-false k.current 0 nz, looked) refl

-- A write through a descriptor of a queue that has fewer than 128 messages, of a length of 128 at
-- most, with a free block, where the links of all free blocks are clear: the message with these
-- characters is the last one of that queue, which keeps the others in their order, no other queue
-- changes, and the result is the length.
pub internal_message_queue_write-Sent :
    {k : Kernel} {j : ℕ} {js : List ℕ} {ds ms : List Addr} (d : Addr) (n : ℕ)
    → k.current ≢ 0
    → HasDescriptors k ds
    → has d ds ≡ true
    → to_int (arg k 0) ≡ (k.files.descriptors d).fd
    → (k.devices.resources (k.files.descriptors d).resource).type ≡ message_queue_type
    → to_int (arg k 2) ≡ pos n
    → n ≤ message_string_max_length
    → IsMail k.mail (j ∷ js)
    → IsQueue k.mail (j ∷ js) (msgs_of k (k.files.descriptors d).resource) ms
    → length ms < m_for_mq
    → (m : Addr) × (k' : Kernel) × (internal_message_queue_write k ≡ some k')
      × Sent k j js (k.files.descriptors d).resource ms (arg k 1) n m k'
unfolding write_found
internal_message_queue_write-Sent {k} d n nz h i fd t e le mail q room =
    let mq = (k.files.descriptors d).resource in
    let looked = ap (lookup_queue k) fd ∙ lookup_queue-found h d i t in
    let (m, k', sent, done) = enqueue-Sent mq (arg k 1) n mail q room le in
    (m, k', write_runs k n (queue mq) nz e le looked ∙ sent, done)

-- A read through a descriptor of a queue whose first message has `n` characters, with room for them:
-- the message is copied to the memory at the pointer, which is as before elsewhere, it is off the
-- queue, which keeps the others in their order, its block is free, and the result is the length.
pub internal_message_queue_read-Received :
    {k : Kernel} {free : List ℕ} {ds : List Addr} (d x : Addr) (rest : List Addr) (limit n : ℕ)
    → k.current ≢ 0
    → HasDescriptors k ds
    → has d ds ≡ true
    → to_int (arg k 0) ≡ (k.files.descriptors d).fd
    → (k.devices.resources (k.files.descriptors d).resource).type ≡ message_queue_type
    → to_int (arg k 2) ≡ pos limit
    → IsMail k.mail free
    → IsQueue k.mail free (msgs_of k (k.files.descriptors d).resource) (x ∷ rest)
    → (k.mail.messages x).length ≡ pos n
    → n ≤ limit
    → (k' : Kernel) × (internal_message_queue_read k ≡ some k')
      × Received k free (k.files.descriptors d).resource x rest (arg k 1) n k'
unfolding read_found
internal_message_queue_read-Received {k} d x rest limit n nz h i fd t e mail q l le =
    let mq = (k.files.descriptors d).resource in
    let looked = ap (lookup_queue k) fd ∙ lookup_queue-found h d i t in
    let (k', got, done) = dequeue-Received mq x rest (arg k 1) limit n mail q l le in
    (k', read_runs k (queue mq) nz looked ∙ ap (λ z. dequeue k mq (arg k 1) z) e ∙ got, done)
