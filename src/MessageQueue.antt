-- ===== src/MessageQueue.antt =====
-- The message queues of disastrOS_message_queue.c. `none` is a fault or a failed assertion.
pub mod Modes
use messages_queue_disastros.Prelude.{
  ℕ, zero, suc, not, Option, none, some, ◌>>=◌, ◌==◌, if◌then◌else◌, update, ℤ, pos, eqb_ℤ,
}
use messages_queue_disastros.Constants.{dsos_read, dsos_write, message_queue_type}
use messages_queue_disastros.LinkedList.{Addr, list_init, rounds}
use messages_queue_disastros.PoolAllocator.{
  PoolAllocatorResult, success, not_enough_memory, unaligned_free, out_of_range, double_free,
  get_block, release_block,
}
use messages_queue_disastros.Message.{Messages, m_free}
use messages_queue_disastros.Process.{Processes, pcb_ptr_alloc}
use messages_queue_disastros.Resource.{Resources}

-- mq_alloc: of the block, the list of messages is set.
unfoldable pub mq_alloc : Resources → Option (Addr × Resources)
mq_alloc s = do
  (mq, pool) ← get_block s.mq_allocator
  if mq == 0
      then some (0, record s { mq_allocator = pool })
      else some (
        mq,
        record s {
          mq_allocator = pool;
          resources = update s.resources mq (record (s.resources mq) { msgs = list_init });
        },
      )

-- `assert(!result)`
abbrev pub assert_success {ℓ} : {A : Type ℓ} → PoolAllocatorResult → Option A → Option A
assert_success success k = k
assert_success not_enough_memory k = none
assert_success unaligned_free k = none
assert_success out_of_range k = none
assert_success double_free k = none

-- The loop of mq_free.
unfoldable pub free_messages : ℕ → Messages → Addr → Option Messages
free_messages zero s message = none
free_messages (suc fuel) s message = if message == 0 then some s else (do
  (result, s1) ← m_free s message
  let rest = free_messages fuel s1 (s1.message_items message).next
  assert_success result rest)

-- mq_free
unfoldable pub mq_free :
    Resources → Messages → Addr → Option (PoolAllocatorResult × Resources × Messages)
unfolding free_messages
mq_free s m r = do
  m1 ← free_messages (rounds (s.resources r).msgs) m (s.resources r).msgs.first
  (result, pool) ← release_block s.mq_allocator r
  some (result, record s { mq_allocator = pool }, m1)

-- mq_set_mode, with the running process as an argument.
unfoldable pub mq_set_mode :
    Processes → Resources → (running r : Addr) → ℤ → Option (ℤ × Processes × Resources)
mq_set_mode p s running r mode =
    let mq = s.resources r in
    if not (eqb_ℤ mq.type message_queue_type)
    then some (pos 0, p, s)
    else if eqb_ℤ mode dsos_read
    then (if not (mq.reading_pid == 0) then some (pos 0, p, s) else (do
      (ptr, p1) ← pcb_ptr_alloc p running
      some (
        pos 1,
        p1,
        record s { resources = update s.resources r (record mq { reading_pid = ptr }) },
      )))
    else if eqb_ℤ mode dsos_write
    then (if not (mq.writing_pid == 0) then some (pos 0, p, s) else (do
      (ptr, p1) ← pcb_ptr_alloc p running
      some (
        pos 1,
        p1,
        record s { resources = update s.resources r (record mq { writing_pid = ptr }) },
      )))
    else some (pos 1, p, s)

-- mq_delete_mode
unfoldable pub mq_delete_mode : Resources → Addr → ℤ → ℤ × Resources
mq_delete_mode s r mode =
    let mq = s.resources r in
    if not (eqb_ℤ mq.type message_queue_type)
    then (pos 0, s)
    else if eqb_ℤ mode dsos_read
    then (pos 1, record s { resources = update s.resources r (record mq { reading_pid = 0 }) })
    else if eqb_ℤ mode dsos_write
    then (pos 1, record s { resources = update s.resources r (record mq { writing_pid = 0 }) })
    else (pos 1, s)

-- getMessage
unfoldable pub get_message : Resources → Addr → Addr
get_message s r = if r == 0 then 0 else (s.resources r).msgs.first
