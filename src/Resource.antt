-- ===== src/Resource.antt =====
-- The resources: disastrOS_resource.h, disastrOS_resource_OS.h, disastrOS_resource_OS.c and the
-- struct of disastrOS_message_queue.h. A MessageQueue and a StandardResource begin with a Resource,
-- and all are reached by its address: one record has the fields of both, and those of a queue are
-- used where `type` is `message_queue_type`.
pub mod Operations
use messages_queue_disastros.Prelude.{Option, ◌>>=◌, some, ℤ, eqb_ℤ}
use messages_queue_disastros.LinkedList.{Addr, Items, ListHead, rounds, scan}
use messages_queue_disastros.PoolAllocator.{
  PoolAllocator, PoolAllocatorResult, get_block, release_block,
}

pub record Resource : Type 0 where
  pub id : ℤ
  pub type : ℤ
  pub descriptors_ptrs : ListHead
  pub msgs : ListHead
  pub reading_pid : Addr
  pub writing_pid : Addr

pub record Resources : Type 0 where
  pub standard_resources_allocator : PoolAllocator
  pub mq_allocator : PoolAllocator
  pub resources : Addr → Resource
  pub resource_items : Items
  pub resources_list : ListHead

-- sr_alloc
unfoldable pub sr_alloc : Resources → Option (Addr × Resources)
sr_alloc s = do
  (r, pool) ← get_block s.standard_resources_allocator
  some (r, record s { standard_resources_allocator = pool })

-- sr_free
unfoldable pub sr_free : Resources → Addr → Option (PoolAllocatorResult × Resources)
sr_free s r = do
  (result, pool) ← release_block s.standard_resources_allocator r
  some (result, record s { standard_resources_allocator = pool })

-- ResourceList_byId
unfoldable pub resource_list_by_id : Resources → ListHead → ℤ → Option Addr
resource_list_by_id s l id =
    scan (λ aux. eqb_ℤ (s.resources aux).id id) (rounds l) s.resource_items l.first
