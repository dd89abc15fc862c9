-- ===== src/Examples/Calls.antt =====
-- The system calls on messages, on a small kernel.
use messages_queue_disastros.Prelude.{
  ℕ, ◌≡◌, refl, ◌≢◌, some, List, [], ◌∷◌, ◌++◌, arith, ℤ, pos, ap, pos_part, to_int,
}
use messages_queue_disastros.Constants.{
  message_queue_type, message_length_not_valid, resource_not_found, e_resource_type_wrong,
  message_queue_full, waiting_for_message, standard_resource_type,
}
use messages_queue_disastros.LinkedList.{Addr, list_init, ListHead}
use messages_queue_disastros.Message.Text.{segment}
use messages_queue_disastros.Message.Queue.{texts}
use messages_queue_disastros.Kernel.{Kernel, pcb_of}
use messages_queue_disastros.Kernel.Mailbox.{
  enqueue, dequeue, user_char, internal_message_queue_write, internal_message_queue_read,
}
use messages_queue_disastros.Kernel.Mailbox.Write.{Sent}
use messages_queue_disastros.Kernel.Mailbox.Read.{Received}
use messages_queue_disastros.Kernel.Mailbox.Calls.{
  internal_message_queue_write-Sent, internal_message_queue_read-Received,
}
use messages_queue_disastros.Kernel.Mailbox.Refusals.{
  Refused, Answers, calls-missing, calls-wrong, write-full, read-empty, read-short,
}
use messages_queue_disastros.Kernel.Mailbox.Fifo.{
  Holds, enqueue-Holds, dequeue-Holds, enqueue-dequeue,
}
use messages_queue_disastros.Examples.Pools.{blocks_head}
use messages_queue_disastros.Examples.Mail.{
  calling, with_queue, one-HasDescriptors, two-IsMail, two-IsQueue, no-IsQueue,
}

pub not_null : ◌≢◌ {A = ℕ} 500 0
not_null e = omega (arith, e)

pub different : (a b : ℕ) → a ≢ b → ◌≢◌ {A = ℤ} (pos a) (pos b)
different a b ne e = ne (ap pos_part e)

abbrev full_head : ListHead
full_head = record { first = 1000; last = 1016; size = pos 128 }

internal_message_queue_write-Sent_example :
    (m : Addr) × (k' : Kernel) × (internal_message_queue_write with_queue ≡ some k')
    × Sent with_queue 2 [] 900 (1000 ∷ 1016 ∷ []) (pos 10000) 2 m k'
unfolding to_int
internal_message_queue_write-Sent_example =
    internal_message_queue_write-Sent 700 2 not_null
      (one-HasDescriptors (pos 3) (pos 2) message_queue_type blocks_head) refl refl refl refl
      (omega arith) two-IsMail two-IsQueue (omega arith)

internal_message_queue_read-Received_example :
    (k' : Kernel) × (internal_message_queue_read with_queue ≡ some k')
    × Received with_queue (2 ∷ []) 900 1000 (1016 ∷ []) (pos 10000) 2 k'
unfolding to_int
internal_message_queue_read-Received_example =
    internal_message_queue_read-Received 700 1000 (1016 ∷ []) 2 2 not_null
      (one-HasDescriptors (pos 3) (pos 2) message_queue_type blocks_head) refl refl refl refl
      two-IsMail two-IsQueue refl (omega arith)

abbrev two_texts : List (List ℕ)
two_texts = (65 ∷ 65 ∷ []) ∷ (65 ∷ 65 ∷ []) ∷ []

two-Holds : Holds with_queue (2 ∷ []) 900 two_texts
unfolding texts
two-Holds = record {
  messages = 1000 ∷ 1016 ∷ [];
  mail = two-IsMail;
  is_queue = two-IsQueue;
  contents = refl;
}

enqueue-Holds_example :
    (k' : Kernel) × (enqueue with_queue 900 (pos 10000) (pos 2) ≡ some k')
    × Holds k' [] 900 (two_texts ++ (segment (user_char with_queue (pos 10000)) 0 2 ∷ []))
    × ((pcb_of k' 500).syscall_retvalue ≡ pos 2)
enqueue-Holds_example = enqueue-Holds 900 (pos 10000) 2 two-Holds (omega arith) (omega arith)

dequeue-Holds_example :
    (k' : Kernel) × (j : ℕ) × (dequeue with_queue 900 (pos 10000) (pos 4) ≡ some k')
    × Holds k' (j ∷ 2 ∷ []) 900 ((65 ∷ 65 ∷ []) ∷ [])
    × (segment (user_char k' (pos 10000)) 0 2 ≡ 65 ∷ 65 ∷ [])
    × ((pcb_of k' 500).syscall_retvalue ≡ pos 2)
dequeue-Holds_example = dequeue-Holds 900 (pos 10000) 4 two-Holds (omega arith)

abbrev pub with_empty : Kernel
with_empty = calling (pos 3) (pos 2) message_queue_type list_init

none-Holds : Holds with_empty (2 ∷ []) 900 []
unfolding texts
none-Holds = record { messages = []; mail = two-IsMail; is_queue = no-IsQueue; contents = refl }

abbrev first_text : List ℕ
first_text = segment (user_char with_empty (pos 10000)) 0 2

after_write :
    (k' : Kernel) × (enqueue with_empty 900 (pos 10000) (pos 2) ≡ some k')
    × Holds k' [] 900 (first_text ∷ [])
    × ((pcb_of k' 500).syscall_retvalue ≡ pos 2)
after_write = enqueue-Holds 900 (pos 10000) 2 none-Holds (omega arith) (omega arith)

enqueue-dequeue_example :
    (k3 : Kernel) × (dequeue after_write.0 900 (pos 20000) (pos 2) ≡ some k3)
    × (segment (user_char k3 (pos 20000)) 0 2 ≡ first_text)
    × ((pcb_of k3 after_write.0.current).syscall_retvalue ≡ pos 2)
enqueue-dequeue_example =
    enqueue-dequeue after_write.0 after_write.0 900 (pos 10000) 2 (pos 20000) 2 none-Holds
      (omega arith) (omega arith) after_write.1 refl refl

abbrev with_missing : Kernel
with_missing = calling (pos 4) (pos 2) message_queue_type list_init

calls-missing_example :
    Answers with_missing (internal_message_queue_write with_missing) resource_not_found
    × Answers with_missing (internal_message_queue_read with_missing) resource_not_found
unfolding to_int
calls-missing_example =
    calls-missing not_null (one-HasDescriptors (pos 4) (pos 2) message_queue_type list_init)
      (λ a i e. different 3 4 (λ same. omega (arith, same)) e)

abbrev with_standard : Kernel
with_standard = calling (pos 3) (pos 2) standard_resource_type list_init

calls-wrong_example :
    Answers with_standard (internal_message_queue_write with_standard) e_resource_type_wrong
    × Answers with_standard (internal_message_queue_read with_standard) e_resource_type_wrong
unfolding to_int
calls-wrong_example =
    calls-wrong not_null (one-HasDescriptors (pos 3) (pos 2) standard_resource_type list_init) 700
      refl refl (different 0 1 λ same. omega (arith, same))

abbrev with_full : Kernel
with_full = calling (pos 3) (pos 2) message_queue_type full_head

write-full_example :
    (k' : Kernel) × (internal_message_queue_write with_full ≡ some k')
    × Refused with_full (record (pcb_of with_full 500) { return_value = message_queue_full }) k'
unfolding to_int
write-full_example =
    write-full not_null (one-HasDescriptors (pos 3) (pos 2) message_queue_type full_head) 700 2 refl
      refl refl refl (omega arith) refl

read-empty_example : Answers with_empty (internal_message_queue_read with_empty) waiting_for_message
unfolding to_int
read-empty_example =
    read-empty not_null (one-HasDescriptors (pos 3) (pos 2) message_queue_type list_init) 700 refl
      refl refl refl

read-short_example :
    Answers
      (calling (pos 3) (pos 1) message_queue_type blocks_head)
      (internal_message_queue_read (calling (pos 3) (pos 1) message_queue_type blocks_head))
      message_length_not_valid
unfolding to_int
read-short_example =
    read-short not_null (one-HasDescriptors (pos 3) (pos 1) message_queue_type blocks_head) 700 1000
      2 1 (2 ∷ []) (1016 ∷ []) refl refl refl refl two-IsQueue refl (omega arith)
