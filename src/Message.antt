-- ===== src/Message.antt =====
-- The messages of disastrOS_message_queue.h and disastrOS_message_queue.c.
pub mod Text
pub mod Queue
pub mod Append
pub mod Remove
use messages_queue_disastros.Prelude.{
  ℕ, zero, suc, Option, none, some, ◌>>=◌, ◌==◌, if◌then◌else◌, update, List, set, ℤ, pos, pos_part,
  ltb_ℤ,
}
use messages_queue_disastros.LinkedList.{Addr, Items}
use messages_queue_disastros.PoolAllocator.{
  PoolAllocator, PoolAllocatorResult, get_block, release_block,
}
use messages_queue_disastros.Constants.{message_string_max_length}

-- `msg` is the array of the characters.
pub record Message : Type 0 where
  pub msg : List ℕ
  pub length : ℤ

pub record Messages : Type 0 where
  pub m_allocator : PoolAllocator
  pub messages : Addr → Message
  pub message_items : Items

-- `for (i = from; i < from + rounds; i++) target[i] = source[i];`
unfoldable pub copy_chars : ℕ → ℕ → (ℕ → ℕ) → List ℕ → List ℕ
copy_chars zero from source target = target
copy_chars (suc rounds) from source target =
    copy_chars rounds (suc from) source (set target from (source from))

-- m_alloc: the links of the block stay what they were. A length that is refused leaves the block
-- allocated.
unfoldable pub m_alloc : Messages → (ℕ → ℕ) → ℤ → Option (Addr × Messages)
unfolding copy_chars
m_alloc s msg length = do
  (m, pool) ← get_block s.m_allocator
  let s1 = record s { m_allocator = pool }
  if m == 0
      then some (0, s1)
      else if ltb_ℤ (pos message_string_max_length) length
      then some (0, s1)
      else some (
        m,
        record s1 {
          messages = update s.messages m (record {
            msg = copy_chars (pos_part length) 0 msg (s.messages m).msg;
            length = length;
          });
        },
      )

-- m_free
unfoldable pub m_free : Messages → Addr → Option (PoolAllocatorResult × Messages)
m_free s m = do
  (result, pool) ← release_block s.m_allocator m
  some (result, record s { m_allocator = pool })
