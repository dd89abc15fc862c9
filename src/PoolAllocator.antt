-- ===== src/PoolAllocator.antt =====
-- pool_allocator.h and pool_allocator.c: blocks of one size in one buffer, with the free ones in a
-- list of indices that stands in an array behind them. Sizes are non-negative numbers, addresses
-- are numbers, 0 is NULL. `none` is a fault: an array access out of bounds, a division by zero.
pub mod Placed
pub mod Free
pub mod Foreign
pub mod GetBlock
pub mod Init
pub mod Live
pub mod ReleaseBlock
use messages_queue_disastros.Prelude.{
  ℕ, zero, suc, ◌+◌, ◌-◌, ◌*◌, ◌/◌, ◌%◌, Bool, not, ◌||◌, Option, none, some, List, [], ◌∷◌, ◌==◌,
  leb, if◌then◌else◌, ℤ, pos, negsuc, ◌+ℤ◌, ◌-ℤ◌, pos_part, neg_part, sub_ℕ, ltb_ℤ, eqb_ℤ, to_int,
  get_elem?, set, replicate,
}

pub data PoolAllocatorResult : Type 0 where
  success not_enough_memory unaligned_free out_of_range double_free : PoolAllocatorResult

abbrev pub Block : Type 0
Block = ℕ

abbrev pub null_idx : ℤ
null_idx = negsuc 0

abbrev pub detached_idx : ℤ
detached_idx = negsuc 1

-- sizeof(int)
abbrev pub int_size : ℕ
int_size = 4

-- `bucket_size` is never written or read, and has no field here.
pub record PoolAllocator : Type 0 where
  pub buffer : Block
  pub free_list : List ℤ
  pub buffer_size : ℕ
  pub size : ℤ
  pub size_max : ℕ
  pub item_size : ℕ
  pub first_idx : ℤ

-- `for (i = from; i < from + rounds; ++i) free_list[i] = i + 1;`
unfoldable pub populate : ℕ → ℕ → List ℤ → List ℤ
populate zero from cells = cells
populate (suc rounds) from cells = populate rounds (suc from) (set cells from (pos (suc from)))

-- PoolAllocator_init. `memory_size` is an int. Every element of the list is written, so it does not
-- matter that the list starts as zeroes here. With no items the last element that is set to "NULL"
-- is `free_list[-1]`.
unfoldable pub init :
    PoolAllocator → ℕ → ℕ → Block → ℤ → Option (PoolAllocatorResult × PoolAllocator)
unfolding populate
init a item_size num_items memory_block memory_size =
    if ltb_ℤ memory_size (to_int (pos (num_items * (item_size + int_size))))
    then some (not_enough_memory, a)
    else if num_items == 0
    then none
    else some (
      success,
      record {
        buffer = memory_block;
        free_list =
            set (populate (num_items - 1) 0 (replicate num_items (pos 0))) (num_items - 1) null_idx;
        buffer_size = item_size * num_items;
        size = pos num_items;
        size_max = num_items;
        item_size = item_size;
        first_idx = pos 0;
      },
    )

-- The address of the block of an index.
abbrev pub block_address : PoolAllocator → ℕ → Block
block_address a k = a.buffer + k * a.item_size

take_first : PoolAllocator → ℤ → Option (Block × PoolAllocator)
take_first a (negsuc k) = none
take_first a (pos detached) = elim (get_elem? a.free_list detached) [
  | none ↦ none
  | some next ↦ some (
    block_address a detached,
    record a {
      first_idx = next;
      size = a.size -ℤ pos 1;
      free_list = set a.free_list detached detached_idx;
    },
  )
]

-- PoolAllocator_getBlock
unfoldable pub get_block : PoolAllocator → Option (Block × PoolAllocator)
unfolding take_first
get_block a = if eqb_ℤ a.first_idx null_idx then some (0, a) else take_first a a.first_idx

-- C's `/` and `!= 0` of `%` on an int and a positive int: the quotient is cut towards zero.
unfoldable pub quotient : ℤ → ℕ → ℤ
quotient (pos n) d = pos (n / d)
quotient (negsuc n) d = sub_ℕ 0 (suc n / d)

unfoldable pub is_multiple : ℤ → ℕ → Bool
is_multiple n d = (pos_part n + neg_part n) % d == 0

-- The checks on the index and the release of its block.
unfoldable pub put_first : PoolAllocator → ℤ → Option (PoolAllocatorResult × PoolAllocator)
put_first a (negsuc k) = some (out_of_range, a)
put_first a (pos idx) =
    if leb a.size_max idx then some (out_of_range, a) else elim (get_elem? a.free_list idx) [
      | none ↦ none
      | some cell ↦
          if eqb_ℤ cell detached_idx
          then some (
            success,
            record a {
              free_list = set a.free_list idx a.first_idx;
              first_idx = pos idx;
              size = a.size +ℤ pos 1;
            },
          )
          else some (double_free, a)
    ]

-- What is done at the offset of the block in the buffer, in bytes.
unfoldable pub release_offset : PoolAllocator → ℤ → Option (PoolAllocatorResult × PoolAllocator)
unfolding quotient is_multiple put_first
release_offset a offset =
    if a.item_size == 0
    then none
    else if not (is_multiple offset a.item_size)
    then some (unaligned_free, a)
    else put_first a (quotient offset a.item_size)

-- PoolAllocator_releaseBlock
unfoldable pub release_block : PoolAllocator → Block → Option (PoolAllocatorResult × PoolAllocator)
unfolding release_offset
release_block a block = release_offset a (to_int (pos block -ℤ pos a.buffer))
