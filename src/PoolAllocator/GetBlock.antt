-- ===== src/PoolAllocator/GetBlock.antt =====
-- PoolAllocator_getBlock: the first free block, NULL when there is none.
use messages_queue_disastros.Prelude.{
  ℕ, ◌<◌, ◌≡◌, refl, ◌∙◌, ◌≢◌, some, List, [], ◌∷◌, arith, get_elem?, set, length, length-set, pos,
  get_elem?-set_ne, -ℤ_one, Bool-cases, ◌==◌, get_elem?-set_self, ap, inl, inr, ==_iff,
}
use messages_queue_disastros.PoolAllocator.{
  PoolAllocator, block_address, detached_idx, get_block, take_first,
}
use messages_queue_disastros.PoolAllocator.Free.{IsPool, FreeChain-set, FreeChain-lt, index_of}

-- The buffer and the sizes stay as they were.
pub record SameBuffer (a b : PoolAllocator) : Type 0 where
  pub buffer : b.buffer ≡ a.buffer
  pub item_size : b.item_size ≡ a.item_size
  pub size_max : b.size_max ≡ a.size_max

-- The pool after its first free block `k`, which links to the rest `ks`, is taken.
abbrev pub taken : PoolAllocator → ℕ → List ℕ → PoolAllocator
taken a k ks = record a {
  first_idx = index_of ks;
  size = pos (length ks);
  free_list = set a.free_list k detached_idx;
}

module _ {a : PoolAllocator} {k : ℕ} {ks : List ℕ} (p : IsPool a (k ∷ ks)) where
  pub first-lt : k < a.size_max
  first-lt = omega (arith, FreeChain-lt a.free_list k (k ∷ ks) p.chain (ground arith), p.cells)

  pub taken-IsPool : IsPool (taken a k ks) ks
  taken-IsPool = record {
    first = refl;
    size = refl;
    cells = length-set a.free_list k detached_idx ∙ p.cells;
    chain = FreeChain-set a.free_list k detached_idx ks p.distinct.0 p.chain.1;
    distinct = p.distinct.1;
    detached = λ j lt o. elim (Bool-cases (j == k)) [
      | inl same ↦
          ap (get_elem? (set a.free_list k detached_idx)) ((==_iff j k).0 same)
          ∙ get_elem?-set_self a.free_list k detached_idx (omega (arith, first-lt, p.cells))
      | inr other ↦
          get_elem?-set_ne a.free_list detached_idx (λ e. ground arith)
          ∙ p.detached j lt (ground arith)
    ];
    item_pos = p.item_pos;
    buffer_pos = p.buffer_pos;
    in_int = p.in_int;
  }

  pub get_block-eq : get_block a ≡ some (block_address a k, taken a k ks)
  unfolding get_block
  get_block-eq = rw (p.first, take_first, p.chain.0, p.size, -ℤ_one) refl

  -- PoolAllocator_getBlock on a pool with a free block hands out the first one, which is not NULL,
  -- and leaves the others free in their order.
  pub get_block-cons :
      (b : PoolAllocator) × (get_block a ≡ some (block_address a k, b))
      × IsPool b ks
      × SameBuffer a b
      × (block_address a k ≢ 0)
  get_block-cons = (
    taken a k ks,
    get_block-eq,
    taken-IsPool,
    record { buffer = refl; item_size = refl; size_max = refl },
    λ e. omega (arith, p.buffer_pos),
  )

-- On an exhausted pool it returns NULL and changes nothing.
pub get_block-nil : {a : PoolAllocator} → IsPool a [] → get_block a ≡ some (0, a)
unfolding get_block
get_block-nil p = rw p.first refl
