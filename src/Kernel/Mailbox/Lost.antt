-- ===== src/Kernel/Mailbox/Lost.antt =====
-- enqueue where the block of the new message still has links.
use messages_queue_disastros.Prelude.{
  ℕ, ◌≤◌, ◌≡◌, refl, ◌∙◌, ◌≢◌, ap, sym, true, false, some, List, ◌∷◌, arith, ℤ, pos, eqb_ℤ,
  eqb_ℤ-eq-false, update, update_same, update_other, Bool-cases, inl, inr, ◌==◌, ==_iff,
}
use messages_queue_disastros.Constants.{message_string_max_length, m_for_mq}
use messages_queue_disastros.LinkedList.{Addr, insert}
use messages_queue_disastros.LinkedList.Insert.Guard.{has_links, insert_linked}
use messages_queue_disastros.PoolAllocator.{block_address}
use messages_queue_disastros.PoolAllocator.Free.{IsPool}
use messages_queue_disastros.PoolAllocator.Live.{get_block-Handed}
use messages_queue_disastros.Message.{Messages, m_alloc}
use messages_queue_disastros.Message.Queue.{m_alloc-eq}
use messages_queue_disastros.Resource.{Resource}
use messages_queue_disastros.Kernel.{Kernel, pcb_of, set_retvalue}
use messages_queue_disastros.Kernel.Mailbox.{enqueue, user_char, set_resource}
use messages_queue_disastros.Kernel.Mailbox.Write.{msgs_of}

-- The length is answered, a block is taken, and no queue has a message more.
pub record Lost (k : Kernel) (js : List ℕ) (n : ℕ) (k' : Kernel) : Type 0 where
  pub retvalue : (pcb_of k' k.current).syscall_retvalue ≡ pos n
  pub pool : IsPool k'.mail.m_allocator js
  pub links : k'.mail.message_items ≡ k.mail.message_items
  pub resources : (r : Addr) → k'.devices.resources r ≡ k.devices.resources r

enqueue_runs :
    (k : Kernel) (mq m : Addr) (ptr : ℤ) (n : ℕ) (mail : Messages)
    → eqb_ℤ (msgs_of k mq).size (pos m_for_mq) ≡ false
    → m_alloc k.mail (user_char k ptr) (pos n) ≡ some (m, mail)
    → insert mail.message_items (msgs_of k mq) (msgs_of k mq).last m
      ≡ some (mail.message_items, msgs_of k mq, 0)
    → enqueue k mq ptr (pos n)
      ≡ some (
          set_retvalue
            (set_resource
              (record k { mail = mail })
              mq
              (record (k.devices.resources mq) { msgs = msgs_of k mq }))
            (pos n))
unfolding enqueue
enqueue_runs k mq m ptr n mail e1 e2 e3 = rw (e1, e2, e3) refl

stored_back :
    (f : Addr → Resource) (mq r : Addr) → update f mq (record (f mq) { msgs = (f mq).msgs }) r ≡ f r
stored_back f mq r = elim (Bool-cases (r == mq)) [
  | inl same ↦
      let e : r ≡ mq = (==_iff r mq).0 same in
      ap (update f mq (f mq)) e ∙ update_same f mq (f mq) ∙ ap f (sym e)
  | inr other ↦ update_other f mq r (f mq) λ e. ground arith
]

-- A write of 128 characters at most to a queue that does not have 128 messages, where the first free
-- block of the pool still has a link, as the blocks that mq_free released may have: the call does
-- not fault and answers the length as if the message were sent, and the block is taken, but no list
-- and no link of a message changes: the message is in no queue.
pub enqueue-Lost :
    {k : Kernel} {j : ℕ} {js : List ℕ} (mq : Addr) (ptr : ℤ) (n : ℕ)
    → IsPool k.mail.m_allocator (j ∷ js)
    → has_links k.mail.message_items (block_address k.mail.m_allocator j) ≡ true
    → (msgs_of k mq).size ≢ pos m_for_mq
    → n ≤ message_string_max_length
    → (k' : Kernel) × (enqueue k mq ptr (pos n) ≡ some k') × Lost k js n k'
enqueue-Lost {k} {j} {js} mq ptr n pool stale room le =
    let (b, got, handed) = get_block-Handed j js pool in
    let m = block_address k.mail.m_allocator j in
    let res = k.devices.resources mq in
    let allocated = m_alloc-eq k.mail (user_char k ptr) n m b got handed.ne_null le in
    let refused =
      insert_linked {h = k.mail.message_items} {head = res.msgs} res.msgs.last m handed.ne_null
        stale in
    let size : eqb_ℤ res.msgs.size (pos m_for_mq) ≡ false =
      eqb_ℤ-eq-false res.msgs.size (pos m_for_mq) room in
    (
      _,
      enqueue_runs k mq m ptr n _ size allocated refused,
      record {
        retvalue = ap (λ p. p.syscall_retvalue) (update_same k.processes.pcbs k.current _);
        pool = handed.pool;
        links = refl;
        resources = stored_back k.devices.resources mq;
      },
    )
