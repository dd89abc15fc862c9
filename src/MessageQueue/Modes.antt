-- ===== src/MessageQueue/Modes.antt =====
-- mq_set_mode and mq_delete_mode: a queue has one reader and one writer at most.
use messages_queue_disastros.Prelude.{
  ℕ, ◌≡◌, refl, ◌∙◌, ◌≢◌, ap, sym, some, List, ◌∷◌, pos, ==-eq-false, update, update_same,
  update_other,
}
use messages_queue_disastros.Constants.{dsos_read, message_queue_type}
use messages_queue_disastros.LinkedList.{Addr}
use messages_queue_disastros.PoolAllocator.Free.{IsPool}
use messages_queue_disastros.Process.Alloc.{pcb_ptr_alloc-Pointed}
use messages_queue_disastros.Process.{Processes, pcb_ptr_alloc}
use messages_queue_disastros.Resource.{Resources}
use messages_queue_disastros.MessageQueue.{mq_set_mode}

-- A process has opened the queue `r` for reading, and the other fields are as they were.
pub record Reads (p : Processes) (s : Resources) (process r : Addr) (p' : Processes)
    (s' : Resources) : Type 0 where
  pub reader : p'.pcb_ptrs (s'.resources r).reading_pid ≡ process
  pub writer : (s'.resources r).writing_pid ≡ (s.resources r).writing_pid
  pub msgs : (s'.resources r).msgs ≡ (s.resources r).msgs
  pub type : (s'.resources r).type ≡ message_queue_type
  pub others : (q : Addr) → q ≢ r → s'.resources q ≡ s.resources q
  pub pcbs : p'.pcbs ≡ p.pcbs

set_runs :
    (p : Processes) (s : Resources) (process r ptr : Addr) (p' : Processes)
    → (s.resources r).type ≡ message_queue_type
    → (s.resources r).reading_pid ≡ 0
    → pcb_ptr_alloc p process ≡ some (ptr, p')
    → mq_set_mode p s process r dsos_read
      ≡ some (
        pos 1,
        p',
        record s {
          resources = update s.resources r (record (s.resources r) { reading_pid = ptr });
        },
      )
unfolding mq_set_mode
set_runs p s process r ptr p' t e run = rw (t, e, run) refl

refused_runs :
    (p : Processes) (s : Resources) (process r : Addr)
    → (s.resources r).type ≡ message_queue_type
    → (s.resources r).reading_pid ≢ 0
    → mq_set_mode p s process r dsos_read ≡ some (pos 0, p, s)
unfolding mq_set_mode
refused_runs p s process r t ne = rw (t, ==-eq-false (s.resources r).reading_pid 0 ne) refl

-- On a queue without a reader mq_set_mode for reading succeeds, with a free block for the pointer,
-- and makes the process the reader; it then refuses every process that asks for the same, and
-- changes nothing.
pub mq_set_mode-excludes :
    {p : Processes} {s : Resources} (k : ℕ) (ks : List ℕ) (process r : Addr) (q : Processes)
    (other : Addr)
    → IsPool p.pcb_ptr_allocator (k ∷ ks)
    → (s.resources r).type ≡ message_queue_type
    → (s.resources r).reading_pid ≡ 0
    → (p' : Processes) × (s' : Resources) × (mq_set_mode p s process r dsos_read
        ≡ some (pos 1, p', s'))
      × Reads p s process r p' s'
      × (mq_set_mode q s' other r dsos_read ≡ some (pos 0, q, s'))
mq_set_mode-excludes {p} {s} k ks process r q other i t e =
    let (ptr, p', run, done) = pcb_ptr_alloc-Pointed k ks process i in
    let new = record (s.resources r) { reading_pid = ptr } in
    let s' : Resources = record s { resources = update s.resources r new } in
    let same : s'.resources r ≡ new = update_same s.resources r new in
    let type : (s'.resources r).type ≡ message_queue_type = ap (λ m. m.type) same ∙ t in
    let reader : (s'.resources r).reading_pid ≡ ptr = ap (λ m. m.reading_pid) same in
    (
      p',
      s',
      set_runs p s process r ptr p' t e run,
      record {
        reader = ap p'.pcb_ptrs reader ∙ done.target;
        writer = ap (λ m. m.writing_pid) same;
        msgs = ap (λ m. m.msgs) same;
        type = type;
        others = λ a ne. update_other s.resources r a new ne;
        pcbs = done.pcbs;
      },
      refused_runs q s' other r type (λ null. done.ne_null (sym reader ∙ null)),
    )
