-- ===== src/Examples/Pools.antt =====
-- A pool of three blocks of 16 bytes at the address 1000.
use messages_queue_disastros.Prelude.{
  ◌-ℤ◌, Bool-cases, inl, inr, ◌==◌, ==_iff, if◌then◌else◌, ℕ, zero, suc, ◌<◌, ◌≡◌, refl, ◌≢◌, true,
  false, some, List, [], ◌∷◌, arith, ℤ, pos, get_elem?,
}
use messages_queue_disastros.LinkedList.Chain.{has, IsList}
use messages_queue_disastros.LinkedList.{Items, ListHead}
use messages_queue_disastros.PoolAllocator.{
  PoolAllocator, success, not_enough_memory, double_free, null_idx, detached_idx, block_address,
  get_block, release_block,
}
use messages_queue_disastros.PoolAllocator
use messages_queue_disastros.PoolAllocator.Free.{IsPool}
use messages_queue_disastros.PoolAllocator.Init.{indices, init-IsPool}
use messages_queue_disastros.PoolAllocator.GetBlock.{get_block-nil}
use messages_queue_disastros.PoolAllocator.ReleaseBlock.{
  release_block-free, release_block-get_block,
}
use messages_queue_disastros.PoolAllocator.Foreign.{Refused, release_block-foreign}
use messages_queue_disastros.PoolAllocator.Live.{
  IsLive, Handed, get_block-Handed, Returned, release_block-Returned,
}

abbrev pub pool_of : List ℤ → ℤ → ℤ → PoolAllocator
pool_of cells size first = record {
  buffer = 1000;
  free_list = cells;
  buffer_size = 48;
  size = size;
  size_max = 3;
  item_size = 16;
  first_idx = first;
}

-- All blocks are free; the first one is taken; all are.
abbrev pub all_free : PoolAllocator
all_free = pool_of (pos 1 ∷ pos 2 ∷ null_idx ∷ []) (pos 3) (pos 0)

abbrev pub one_taken : PoolAllocator
one_taken = pool_of (detached_idx ∷ pos 2 ∷ null_idx ∷ []) (pos 2) (pos 1)

abbrev pub all_taken : PoolAllocator
all_taken = pool_of (detached_idx ∷ detached_idx ∷ detached_idx ∷ []) (pos 0) null_idx

pub all_free-IsPool : IsPool all_free (0 ∷ 1 ∷ 2 ∷ [])
all_free-IsPool = record {
  first = refl;
  size = refl;
  cells = refl;
  chain = (refl, (refl, (refl, tt)));
  distinct = (refl, (refl, (refl, tt)));
  detached = λ k lt out. ground arith;
  item_pos = omega arith;
  buffer_pos = omega arith;
  in_int = omega arith;
}

one_detached :
    (k : ℕ)
    → k < 3
    → has k (1 ∷ 2 ∷ []) ≡ false
    → get_elem? one_taken.free_list k ≡ some detached_idx
one_detached zero lt out = refl
one_detached (suc k) lt out = ground arith

pub one_taken-IsPool : IsPool one_taken (1 ∷ 2 ∷ [])
one_taken-IsPool = record {
  first = refl;
  size = refl;
  cells = refl;
  chain = (refl, (refl, tt));
  distinct = (refl, (refl, tt));
  detached = one_detached;
  item_pos = omega arith;
  buffer_pos = omega arith;
  in_int = omega arith;
}

-- The last block is free.
abbrev pub two_taken : PoolAllocator
two_taken = pool_of (detached_idx ∷ detached_idx ∷ null_idx ∷ []) (pos 1) (pos 2)

two_detached :
    (k : ℕ) → k < 3 → has k (2 ∷ []) ≡ false → get_elem? two_taken.free_list k ≡ some detached_idx
two_detached zero lt out = refl
two_detached (suc zero) lt out = refl
two_detached (suc (suc k)) lt out = ground arith

pub two_taken-IsPool : IsPool two_taken (2 ∷ [])
two_taken-IsPool = record {
  first = refl;
  size = refl;
  cells = refl;
  chain = (refl, tt);
  distinct = (refl, tt);
  detached = two_detached;
  item_pos = omega arith;
  buffer_pos = omega arith;
  in_int = omega arith;
}

two-live :
    (a : ℕ) → has a (1000 ∷ 1016 ∷ []) ≡ true → (k : ℕ) × (k < 2) × (a ≡ block_address two_taken k)
two-live a i = elim (Bool-cases (a == 1000)) [
  | inl first ↦ (0, omega arith, (==_iff a 1000).0 first)
  | inr other ↦ (1, omega arith, (==_iff a 1016).0 (ground arith))
]

pub two-IsLive : (a : ℕ) → has a (1000 ∷ 1016 ∷ []) ≡ true → IsLive two_taken (2 ∷ []) a
two-IsLive a i =
    let (k, lt, e) = two-live a i in
    record { index = k; index-lt = omega (arith, lt); not_free = ground arith; address = e }

two-index :
    (k : ℕ)
    → k < 3
    → has k (2 ∷ []) ≡ false
    → has (block_address two_taken k) (1000 ∷ 1016 ∷ []) ≡ true
two-index zero lt out = refl
two-index (suc zero) lt out = refl
two-index (suc (suc k)) lt out = ground arith

pub two-used : (a : ℕ) → IsLive two_taken (2 ∷ []) a → has a (1000 ∷ 1016 ∷ []) ≡ true
two-used a l = rw l.address (two-index l.index l.index-lt l.not_free)

-- Its two taken blocks are linked.
abbrev pub linked_blocks : Items
linked_blocks a =
    if a == 1000
    then record { prev = 0; next = 1016 }
    else if a == 1016
    then record { prev = 1000; next = 0 }
    else record { prev = 0; next = 0 }

abbrev pub blocks_head : ListHead
blocks_head = record { first = 1000; last = 1016; size = pos 2 }

pub blocks-IsList : IsList linked_blocks blocks_head (1000 ∷ 1016 ∷ [])
blocks-IsList = record {
  first = refl;
  last = refl;
  size = refl;
  chain = (λ e. omega (arith, e), refl, refl, (λ e. omega (arith, e), refl, refl, tt));
  distinct = (refl, (refl, tt));
}

all_detached :
    (k : ℕ) → k < 3 → has k [] ≡ false → get_elem? all_taken.free_list k ≡ some detached_idx
all_detached zero lt out = refl
all_detached (suc zero) lt out = refl
all_detached (suc (suc zero)) lt out = refl
all_detached (suc (suc (suc k))) lt out = absurd (omega arith)

pub all_taken-IsPool : IsPool all_taken []
all_taken-IsPool = record {
  first = refl;
  size = refl;
  cells = refl;
  chain = tt;
  distinct = tt;
  detached = all_detached;
  item_pos = omega arith;
  buffer_pos = omega arith;
  in_int = omega arith;
}

abbrev pub first-IsLive : IsLive one_taken (1 ∷ 2 ∷ []) 1000
first-IsLive = record { index = 0; index-lt = omega arith; not_free = refl; address = refl }

init-IsPool_example :
    (a : PoolAllocator) × (PoolAllocator.init all_taken 16 3 2000 (pos 60) ≡ some (success, a))
    × IsPool a (indices 0 3)
    × (a.buffer ≡ 2000)
    × (a.item_size ≡ 16)
    × (a.size_max ≡ 3)
init-IsPool_example =
    init-IsPool all_taken 16 3 2000 60 (omega arith) (omega arith) (omega arith) (omega arith)
      (omega arith)

get_block-nil_example : get_block all_taken ≡ some (0, all_taken)
get_block-nil_example = get_block-nil all_taken-IsPool

get_block-Handed_example :
    (b : PoolAllocator) × (get_block one_taken ≡ some (block_address one_taken 1, b))
    × Handed one_taken (1 ∷ 2 ∷ []) b (2 ∷ []) (block_address one_taken 1)
get_block-Handed_example = get_block-Handed 1 (2 ∷ []) one_taken-IsPool

release_block-Returned_example :
    (b : PoolAllocator) × (release_block one_taken 1000 ≡ some (success, b))
    × Returned one_taken (1 ∷ 2 ∷ []) b (0 ∷ 1 ∷ 2 ∷ []) 1000
release_block-Returned_example = release_block-Returned 1000 one_taken-IsPool first-IsLive

release_block-get_block_example : release_block one_taken 1000 ≡ some (success, all_free)
unfolding get_block ◌-ℤ◌
release_block-get_block_example =
    release_block-get_block (0 ∷ 1 ∷ 2 ∷ []) all_free-IsPool refl (λ e. omega (arith, e))

release_block-free_example : release_block one_taken 1016 ≡ some (double_free, one_taken)
release_block-free_example = release_block-free one_taken-IsPool 1 (omega arith) refl

not_a_block : (k : ℕ) → k < 3 → 1001 ≢ block_address one_taken k
not_a_block k lt e = omega (arith, lt, e)

release_block-foreign_example : Refused one_taken (release_block one_taken 1001)
release_block-foreign_example =
    release_block-foreign 1001 one_taken-IsPool not_a_block (omega arith) (omega arith)
