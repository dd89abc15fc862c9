-- ===== src/Resource/Operations.antt =====
-- disastrOS_resource.c: the operations that choose by the type of the resource. The vectors of
-- functions that Resource_init fills are tests on the type; a type that has no entry is a fault.
use messages_queue_disastros.Prelude.{
  Option, none, some, ◌>>=◌, ◌==◌, ◌||◌, not, if◌then◌else◌, update, ℤ, pos, negsuc, ◌+ℤ◌, eqb_ℤ,
  ltb_ℤ,
}
use messages_queue_disastros.Constants.{
  standard_resource_type, message_queue_type, max_type_resources, e_resource_type_not_existing,
}
use messages_queue_disastros.LinkedList.{Addr, list_init, unlink}
use messages_queue_disastros.PoolAllocator.{
  PoolAllocatorResult, success, not_enough_memory, unaligned_free, out_of_range, double_free,
}
use messages_queue_disastros.Message.{Messages}
use messages_queue_disastros.Process.{Processes}
use messages_queue_disastros.Resource.{Resources, sr_alloc, sr_free}
use messages_queue_disastros.MessageQueue.{mq_alloc, mq_free, mq_set_mode, mq_delete_mode}

-- `alloc_func[type]`
unfoldable pub alloc_func : ℤ → Resources → Option (Addr × Resources)
alloc_func type s =
    if eqb_ℤ type standard_resource_type
    then sr_alloc s
    else if eqb_ℤ type message_queue_type
    then mq_alloc s
    else none

-- `dealloc_func[type]`
unfoldable pub dealloc_func :
    ℤ → Resources → Messages → Addr → Option (PoolAllocatorResult × Resources × Messages)
dealloc_func type s m r =
    if eqb_ℤ type standard_resource_type
    then (do (result, s1) ← sr_free s r; some (result, s1, m))
    else if eqb_ℤ type message_queue_type
    then mq_free s m r
    else none

-- Resource_alloc
unfoldable pub resource_alloc : Resources → (id type : ℤ) → Option (Addr × Resources)
unfolding alloc_func
resource_alloc s id type = if ltb_ℤ max_type_resources (type +ℤ pos 1) then some (0, s) else (do
  (r, s1) ← alloc_func type s
  if r == 0
      then some (0, s1)
      else some (
        r,
        record s1 {
          resource_items = unlink s1.resource_items r;
          resources =
              update s1.resources r
                (record (s1.resources r) { id = id; type = type; descriptors_ptrs = list_init });
        },
      ))

-- Resource_open
unfoldable pub resource_open :
    Processes → Resources → (running r : Addr) → ℤ → Option (ℤ × Processes × Resources)
resource_open p s running r mode =
    let type = (s.resources r).type in
    if ltb_ℤ standard_resource_type type
    then if eqb_ℤ type message_queue_type then mq_set_mode p s running r mode else none
    else some (pos 0, p, s)

-- Resource_release
unfoldable pub resource_release : Resources → Addr → ℤ → Option (ℤ × Resources)
resource_release s r mode =
    let type = (s.resources r).type in
    if ltb_ℤ standard_resource_type type
    then if eqb_ℤ type message_queue_type then some (mq_delete_mode s r mode) else none
    else some (pos 0, s)

-- The number of a PoolAllocatorResult.
abbrev pub result_code : PoolAllocatorResult → ℤ
result_code success = pos 0
result_code not_enough_memory = negsuc 0
result_code unaligned_free = negsuc 1
result_code out_of_range = negsuc 2
result_code double_free = negsuc 3

-- Resource_free
unfoldable pub resource_free : Resources → Messages → Addr → Option (ℤ × Resources × Messages)
unfolding dealloc_func
resource_free s m r =
    let res = s.resources r in
    if ltb_ℤ max_type_resources (res.type +ℤ pos 1)
    then some (e_resource_type_not_existing, s, m)
    else if not (res.descriptors_ptrs.first == 0) || not (res.descriptors_ptrs.last == 0)
    then none
    else (do (result, s1, m1) ← dealloc_func res.type s m r; some (result_code result, s1, m1))
