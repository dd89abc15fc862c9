-- ===== src/Descriptor.antt =====
-- disastrOS_descriptor.h and disastrOS_descriptor.c: the descriptors of the open resources, and the
-- pointers to them that a resource keeps.
pub mod Alloc
use messages_queue_disastros.Prelude.{Option, some, ◌>>=◌, ◌==◌, if◌then◌else◌, update, ℤ, eqb_ℤ}
use messages_queue_disastros.LinkedList.{Addr, Items, ListHead, unlink, rounds, scan}
use messages_queue_disastros.PoolAllocator.{
  PoolAllocator, PoolAllocatorResult, get_block, release_block,
}

pub record Descriptor : Type 0 where
  pub pcb : Addr
  pub resource : Addr
  pub fd : ℤ
  pub ptr : Addr

pub record Descriptors : Type 0 where
  pub descriptor_allocator : PoolAllocator
  pub descriptor_ptr_allocator : PoolAllocator
  pub descriptors : Addr → Descriptor
  pub descriptor_items : Items
  pub descriptor_ptrs : Addr → Addr
  pub descriptor_ptr_items : Items

-- Descriptor_alloc; `ptr` stays what it was in the block.
unfoldable pub descriptor_alloc : Descriptors → ℤ → (res pcb : Addr) → Option (Addr × Descriptors)
descriptor_alloc s fd res pcb = do
  (d, pool) ← get_block s.descriptor_allocator
  if d == 0
      then some (0, record s { descriptor_allocator = pool })
      else some (
        d,
        record s {
          descriptor_allocator = pool;
          descriptor_items = unlink s.descriptor_items d;
          descriptors =
              update s.descriptors d
                (record (s.descriptors d) { fd = fd; resource = res; pcb = pcb });
        },
      )

-- Descriptor_free
unfoldable pub descriptor_free : Descriptors → Addr → Option (PoolAllocatorResult × Descriptors)
descriptor_free s d = do
  (result, pool) ← release_block s.descriptor_allocator d
  some (result, record s { descriptor_allocator = pool })

-- DescriptorList_byFd
unfoldable pub descriptor_list_by_fd : Descriptors → ListHead → ℤ → Option Addr
descriptor_list_by_fd s l fd =
    scan (λ aux. eqb_ℤ (s.descriptors aux).fd fd) (rounds l) s.descriptor_items l.first

-- DescriptorPtr_alloc
unfoldable pub descriptor_ptr_alloc : Descriptors → Addr → Option (Addr × Descriptors)
descriptor_ptr_alloc s descriptor = do
  (d, pool) ← get_block s.descriptor_ptr_allocator
  if d == 0
      then some (0, record s { descriptor_ptr_allocator = pool })
      else some (
        d,
        record s {
          descriptor_ptr_allocator = pool;
          descriptor_ptr_items = unlink s.descriptor_ptr_items d;
          descriptor_ptrs = update s.descriptor_ptrs d descriptor;
        },
      )

-- DescriptorPtr_free
unfoldable pub descriptor_ptr_free : Descriptors → Addr → Option (PoolAllocatorResult × Descriptors)
descriptor_ptr_free s d = do
  (result, pool) ← release_block s.descriptor_ptr_allocator d
  some (result, record s { descriptor_ptr_allocator = pool })
