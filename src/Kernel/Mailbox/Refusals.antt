-- ===== src/Kernel/Mailbox/Refusals.antt =====
-- The errors of internal_message_queue_write and internal_message_queue_read.
use messages_queue_disastros.Prelude.{
  ℕ, Bool, ◌≤◌, ◌<◌, ◌≡◌, refl, ◌∙◌, ◌≢◌, ap, true, false, some, List, ◌∷◌, arith, length, ◌==◌,
  ==-eq-false, ℤ, pos, eqb_ℤ, ltb_ℤ, to_int, if◌then◌else◌, Option, not, ◌||◌, Bool-cases, inl, inr,
  update_same, update_other,
}
use messages_queue_disastros.Constants.{
  message_queue_type, message_string_max_length, m_for_mq, message_length_not_valid,
  resource_not_found, e_resource_type_wrong, message_queue_full, waiting_for_message,
  message_queue_empty,
}
use messages_queue_disastros.LinkedList.{Addr}
use messages_queue_disastros.LinkedList.Chain.{has}
use messages_queue_disastros.Message.Queue.{IsQueue}
use messages_queue_disastros.Process.{Pcb}
use messages_queue_disastros.Kernel.{Kernel, pcb_of, set_pcb, arg, set_retvalue}
use messages_queue_disastros.Kernel.Mailbox.{
  internal_message_queue_write, internal_message_queue_read, write_found, read_found, enqueue,
  dequeue, lookup_queue, queue, refused,
}
use messages_queue_disastros.Kernel.Mailbox.ByFd.{
  HasDescriptors, lookup_queue-found, lookup_queue-missing, lookup_queue-wrong,
}
use messages_queue_disastros.Kernel.Mailbox.Write.{msgs_of}
use messages_queue_disastros.Kernel.Mailbox.Calls.{write_runs, read_runs}

-- All that changes is the block of the running process, which is `pcb` then.
pub record Refused (k : Kernel) (pcb : Pcb) (k' : Kernel) : Type 0 where
  pub whole : k' ≡ record k { processes = record k.processes { pcbs = k'.processes.pcbs } }
  pub own : pcb_of k' k.current ≡ pcb
  pub processes : (p : Addr) → p ≢ k.current → pcb_of k' p ≡ pcb_of k p

set_pcb-Refused : (k : Kernel) (pcb : Pcb) → Refused k pcb (set_pcb k k.current pcb)
set_pcb-Refused k pcb = record {
  whole = refl;
  own = update_same k.processes.pcbs k.current pcb;
  processes = λ p ne. update_other k.processes.pcbs k.current p pcb ne;
}

-- The call answers `code` and does nothing else.
abbrev pub Answers : Kernel → Option Kernel → ℤ → Type 0
Answers k result code =
    (k' : Kernel) × (result ≡ some k')
    × Refused k (record (pcb_of k k.current) { syscall_retvalue = code }) k'

pub set_retvalue-Answers :
    (k : Kernel) (result : Option Kernel) (code : ℤ)
    → result ≡ some (set_retvalue k code)
    → Answers k result code
set_retvalue-Answers k result code e = (
  set_retvalue k code,
  e,
  set_pcb-Refused k (record (pcb_of k k.current) { syscall_retvalue = code }),
)

if_not : (b : Bool) (x y : ℤ) → (if not b then x else y) ≡ (if b then y else x)
if_not true x y = refl
if_not false x y = refl

-- The error of a write, whose length is checked first.
abbrev pub checked : (length code : ℤ) → ℤ
checked length code =
    if ltb_ℤ length (pos 0) || ltb_ℤ (pos message_string_max_length) length
    then message_length_not_valid
    else code

write_refused :
    {k : Kernel}
    → k.current ≢ 0
    → (code : ℤ) → lookup_queue k (to_int (arg k 0)) ≡ some (refused code)
    → Answers k (internal_message_queue_write k) (checked (to_int (arg k 2)) code)
unfolding internal_message_queue_write write_found
write_refused {k} nz code looked =
    let bad =
      ltb_ℤ (to_int (arg k 2)) (pos 0)
      || ltb_ℤ (pos message_string_max_length) (to_int (arg k 2)) in
    set_retvalue-Answers k (internal_message_queue_write k) (checked (to_int (arg k 2)) code)
      (elim (Bool-cases bad) [
        | inl refused_length ↦ rw (==-eq-false k.current 0 nz, refused_length) refl
        | inr valid ↦ rw (==-eq-false k.current 0 nz, valid, looked) refl
      ])

module _ {k : Kernel} {ds : List Addr} (nz : k.current ≢ 0) (h : HasDescriptors k ds) where
  -- Where no descriptor of the process has the number both calls answer that the resource is not
  -- found, a write of a length below 0 or above 128 that the length is not valid, and do nothing
  -- else.
  pub calls-missing :
      ((a : Addr) → has a ds ≡ true → (k.files.descriptors a).fd ≢ to_int (arg k 0))
      → Answers k (internal_message_queue_write k) (checked (to_int (arg k 2)) resource_not_found)
        × Answers k (internal_message_queue_read k) resource_not_found
  unfolding read_found
  calls-missing away =
      let looked = lookup_queue-missing h (to_int (arg k 0)) away in
      (
        write_refused nz resource_not_found looked,
        set_retvalue-Answers k _ _ (read_runs k (refused resource_not_found) nz looked),
      )

  -- Where the descriptor stands for a resource that is no queue both calls answer that the type is
  -- wrong, a write of a length below 0 or above 128 that the length is not valid, and do nothing
  -- else.
  pub calls-wrong :
      (d : Addr)
      → has d ds ≡ true
      → to_int (arg k 0) ≡ (k.files.descriptors d).fd
      → (k.devices.resources (k.files.descriptors d).resource).type ≢ message_queue_type
      → Answers k
          (internal_message_queue_write k)
          (checked (to_int (arg k 2)) e_resource_type_wrong)
        × Answers k (internal_message_queue_read k) e_resource_type_wrong
  unfolding read_found
  calls-wrong d i fd t =
      let looked = ap (lookup_queue k) fd ∙ lookup_queue-wrong h d i t in
      (
        write_refused nz e_resource_type_wrong looked,
        set_retvalue-Answers k _ _ (read_runs k (refused e_resource_type_wrong) nz looked),
      )

  -- A write of 128 characters at most through a descriptor of a queue of 128 messages changes nothing
  -- but the value that the running process returns when it ends, in which the error is stored: the
  -- result of the system call stays what it was before.
  pub write-full :
      (d : Addr) (n : ℕ)
      → has d ds ≡ true
      → to_int (arg k 0) ≡ (k.files.descriptors d).fd
      → (k.devices.resources (k.files.descriptors d).resource).type ≡ message_queue_type
      → to_int (arg k 2) ≡ pos n
      → n ≤ message_string_max_length
      → (msgs_of k (k.files.descriptors d).resource).size ≡ pos m_for_mq
      → (k' : Kernel) × (internal_message_queue_write k ≡ some k')
        × Refused k (record (pcb_of k k.current) { return_value = message_queue_full }) k'
  unfolding write_found enqueue
  write-full d n i fd t e le full =
      let mq = (k.files.descriptors d).resource in
      let pcb = record (pcb_of k k.current) { return_value = message_queue_full } in
      let looked = ap (lookup_queue k) fd ∙ lookup_queue-found h d i t in
      (
        set_pcb k k.current pcb,
        write_runs k n (queue mq) nz e le looked ∙ rw full refl,
        set_pcb-Refused k pcb,
      )

  -- A read through a descriptor of an empty queue answers that a message is awaited if the queue has a
  -- writer, and that the queue is empty if it has none, and does nothing else.
  pub read-empty :
      (d : Addr)
      → has d ds ≡ true
      → to_int (arg k 0) ≡ (k.files.descriptors d).fd
      → (k.devices.resources (k.files.descriptors d).resource).type ≡ message_queue_type
      → (msgs_of k (k.files.descriptors d).resource).size ≡ pos 0
      → Answers k (internal_message_queue_read k) (
          if (k.devices.resources (k.files.descriptors d).resource).writing_pid == 0
          then message_queue_empty
          else waiting_for_message)
  unfolding read_found dequeue
  read-empty d i fd t empty =
      let mq = (k.files.descriptors d).resource in
      let looked = ap (lookup_queue k) fd ∙ lookup_queue-found h d i t in
      set_retvalue-Answers k _ _ (
        read_runs k (queue mq) nz looked
        ∙ rw empty (
            ap (λ v. some (set_retvalue k v))
              (if_not ((k.devices.resources mq).writing_pid == 0) waiting_for_message
                message_queue_empty)))

  -- A read whose buffer is shorter than the first message is refused, and the message stays in the
  -- queue.
  pub read-short :
      (d x n limit : ℕ) (free : List ℕ) (rest : List Addr)
      → has d ds ≡ true
      → to_int (arg k 0) ≡ (k.files.descriptors d).fd
      → (k.devices.resources (k.files.descriptors d).resource).type ≡ message_queue_type
      → to_int (arg k 2) ≡ pos limit
      → IsQueue k.mail free (msgs_of k (k.files.descriptors d).resource) (x ∷ rest)
      → (k.mail.messages x).length ≡ pos n
      → limit < n
      → Answers k (internal_message_queue_read k) message_length_not_valid
  unfolding read_found dequeue
  read-short d x n limit free rest i fd t e q l lt =
      let mq = (k.files.descriptors d).resource in
      let looked = ap (lookup_queue k) fd ∙ lookup_queue-found h d i t in
      let short : ltb_ℤ (pos limit) (pos n) ≡ true = ground arith in
      let some_left : eqb_ℤ (pos (length (x ∷ rest))) (pos 0) ≡ false =
        ==-eq-false (length (x ∷ rest)) 0 (omega arith) in
      set_retvalue-Answers k _ _ (
        read_runs k (queue mq) nz looked
        ∙ rw (q.list.size, some_left, q.list.first, ==-eq-false x 0 q.list.chain.0, e, l, short)
            refl)
