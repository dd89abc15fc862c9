-- ===== src/Kernel/Mailbox/Write.antt =====
-- internal_message_queue_write on a queue that is found.
use messages_queue_disastros.Prelude.{
  ℕ, ◌≤◌, ◌<◌, ◌≡◌, refl, ◌∙◌, ◌≢◌, ap, sym, some, List, ◌∷◌, arith, length, ℤ, pos, eqb_ℤ,
  update_same, update_other, false, ==-eq-false, update,
}
use mathlib.Core.Path.{subst}
use messages_queue_disastros.Constants.{message_string_max_length, m_for_mq}
use messages_queue_disastros.LinkedList.{Addr, Items, ListHead, insert}
use messages_queue_disastros.Message.{Messages, m_alloc}
use messages_queue_disastros.Message.Queue.{IsMail, IsQueue}
use messages_queue_disastros.Message.Append.{Appended, m_alloc-Appended}
use messages_queue_disastros.Kernel.{Kernel, pcb_of, set_retvalue}
use messages_queue_disastros.Kernel.Mailbox.{enqueue, user_char, set_resource}

-- The queue of messages of a resource.
abbrev pub msgs_of : Kernel → Addr → ListHead
msgs_of k mq = (k.devices.resources mq).msgs

enqueue_runs :
    (k : Kernel) (mq m : Addr) (ptr : ℤ) (n : ℕ) (mail : Messages) (items : Items) (head : ListHead)
    → eqb_ℤ (msgs_of k mq).size (pos m_for_mq) ≡ false
    → m_alloc k.mail (user_char k ptr) (pos n) ≡ some (m, mail)
    → insert mail.message_items (msgs_of k mq) (msgs_of k mq).last m ≡ some (items, head, m)
    → enqueue k mq ptr (pos n)
      ≡ some (
          set_retvalue
            (set_resource
              (record k { mail = record mail { message_items = items } })
              mq
              (record (k.devices.resources mq) { msgs = head }))
            (pos n))
unfolding enqueue
enqueue_runs k mq m ptr n mail items head e1 e2 e3 = rw (e1, e2, e3) refl

-- What a write of `n` characters leaves of the kernel: the state of the messages, the queue, the
-- result for the running process, and all else as it was.
pub record Sent (k : Kernel) (j : ℕ) (js : List ℕ) (mq : Addr) (ms : List Addr) (ptr : ℤ) (n : ℕ)
    (m : Addr) (k' : Kernel) : Type 0 where
  pub appended : Appended k.mail j js ms (user_char k ptr) n m k'.mail (msgs_of k' mq)
  pub retvalue : (pcb_of k' k.current).syscall_retvalue ≡ pos n
  pub resources : (r : Addr) → r ≢ mq → k'.devices.resources r ≡ k.devices.resources r
  pub processes : (p : Addr) → p ≢ k.current → pcb_of k' p ≡ pcb_of k p
  pub readers : (k'.devices.resources mq).reading_pid ≡ (k.devices.resources mq).reading_pid
  pub writers : (k'.devices.resources mq).writing_pid ≡ (k.devices.resources mq).writing_pid
  pub current : k'.current ≡ k.current
  pub files : k'.files ≡ k.files
  pub user : k'.user ≡ k.user

-- A write of `n` characters, 128 at most, to a queue of fewer than 128 messages, with a free block:
-- the message with these characters is the last one of the queue, which keeps the others in their
-- order, no other queue changes, and the process is given the length.
pub enqueue-Sent :
    {k : Kernel} {j : ℕ} {js : List ℕ} {ms : List Addr} (mq : Addr) (ptr : ℤ) (n : ℕ)
    → IsMail k.mail (j ∷ js)
    → IsQueue k.mail (j ∷ js) (msgs_of k mq) ms
    → length ms < m_for_mq
    → n ≤ message_string_max_length
    → (m : Addr) × (k' : Kernel) × (enqueue k mq ptr (pos n) ≡ some k')
      × Sent k j js mq ms ptr n m k'
enqueue-Sent {k} {j} {js} {ms} mq ptr n mail q room le =
    let (m, s1, items, head, allocated, inserted, done) =
      m_alloc-Appended (user_char k ptr) n mail q le in
    let res = k.devices.resources mq in
    let new = record res { msgs = head } in
    let same : update k.devices.resources mq new mq ≡ new =
      update_same k.devices.resources mq new in
    let size : eqb_ℤ (msgs_of k mq).size (pos m_for_mq) ≡ false =
      ap (λ z. eqb_ℤ z (pos m_for_mq)) q.list.size
      ∙ ==-eq-false (length ms) m_for_mq (omega arith) in
    (
      m,
      set_retvalue
          (set_resource (record k { mail = record s1 { message_items = items } }) mq
            (record (k.devices.resources mq) { msgs = head }))
          (pos n),
      enqueue_runs k mq m ptr n s1 items head size allocated inserted,
      record {
        appended =
            subst
              (Appended k.mail j js ms (user_char k ptr) n m (record s1 { message_items = items }))
              (sym (ap (λ r. r.msgs) same)) done;
        retvalue = ap (λ p. p.syscall_retvalue) (update_same k.processes.pcbs k.current _);
        resources = λ r ne. update_other k.devices.resources mq r new ne;
        processes = λ p ne. update_other k.processes.pcbs k.current p _ ne;
        readers = ap (λ r. r.reading_pid) same;
        writers = ap (λ r. r.writing_pid) same;
        current = refl;
        files = refl;
        user = refl;
      },
    )
