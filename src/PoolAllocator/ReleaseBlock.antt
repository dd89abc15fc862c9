-- ===== src/PoolAllocator/ReleaseBlock.antt =====
-- PoolAllocator_releaseBlock: which addresses it takes back, and what it answers to the others.
use messages_queue_disastros.Prelude.{
  ℕ, suc, ◌+◌, ◌*◌, ◌^◌, ◌<◌, ◌≡◌, refl, ◌∙◌, ◌≢◌, true, false, some, List, [], ◌∷◌, arith, set,
  length, length-set, pos, get_elem?-set_ne, +ℤ_one, get_elem?-set_self, ap, ==-eq-false, leb, sym,
  some_pair, to_int-pos, ◌-ℤ◌, set-set, set_same,
}
use mathlib.Core.Path.{ap₂}
use native.Mathlib.Nat.{mul-mod_left, mul-div_cancel}
use messages_queue_disastros.LinkedList.Chain.{has}
use messages_queue_disastros.PoolAllocator.{
  PoolAllocator, Block, success, double_free, block_address, detached_idx, get_block, release_block,
  put_first, is_multiple,
}
use messages_queue_disastros.PoolAllocator.Free.{IsPool, FreeChain-set, FreeChain-cell, index_of}
use messages_queue_disastros.PoolAllocator.GetBlock.{
  SameBuffer, taken, get_block-eq, get_block-nil, first-lt, taken-IsPool,
}

-- The offset of a block of the pool leads back to its index.
leb-eq-false : {a b : ℕ} → a < b → leb b a ≡ false
leb-eq-false lt = ground arith

offset_of_block : (b n : ℕ) → pos (b + n) -ℤ pos b ≡ pos n
unfolding ◌-ℤ◌
offset_of_block b n = ground arith

module _ {a : PoolAllocator} {free : List ℕ} (p : IsPool a free) (k : ℕ) (lt : k < a.size_max) where
  in_int : k * a.item_size < 2 ^ 31
  in_int = grind (arith, p.in_int)

  -- The address of a block of the pool passes the checks on alignment.
  release_block-put_first : release_block a (block_address a k) ≡ put_first a (pos k)
  unfolding release_block
  release_block-put_first =
      rw
        (
          offset_of_block a.buffer (k * a.item_size),
          to_int-pos (k * a.item_size) in_int,
          ==-eq-false a.item_size 0 (λ e. omega (arith, p.item_pos)),
        )
        (rw is_multiple_of_size (ap (λ idx. put_first a (pos idx)) (mul-div_cancel k p.item_pos)))
    where
      is_multiple_of_size : is_multiple (pos (k * a.item_size)) a.item_size ≡ true
      is_multiple_of_size =
          let e : k * a.item_size + 0 ≡ k * a.item_size = omega arith in
          rw (e, mul-mod_left k a.item_size) refl

  -- Releasing a block of the pool that is in use succeeds: it becomes the first free block, and the
  -- other free ones keep their order.
  pub release_block-allocated :
      has k free ≡ false
      → (b : PoolAllocator) × (release_block a (block_address a k) ≡ some (success, b))
        × IsPool b (k ∷ free)
        × SameBuffer a b
  unfolding put_first
  release_block-allocated out = (
    record a {
      free_list = set a.free_list k a.first_idx;
      first_idx = pos k;
      size = pos (suc (length free));
    },
    release_block-put_first ∙ rw (p.detached k lt out, p.size, +ℤ_one) (ground arith),
    record {
      first = refl;
      size = refl;
      cells = length-set a.free_list k a.first_idx ∙ p.cells;
      chain = (
        get_elem?-set_self a.free_list k a.first_idx (omega (arith, p.cells)) ∙ ap some p.first,
        FreeChain-set a.free_list k a.first_idx free out p.chain,
      );
      distinct = (out, p.distinct);
      detached = λ j lt' o.
          get_elem?-set_ne a.free_list a.first_idx (λ e. ground arith)
          ∙ p.detached j lt' (ground arith);
      item_pos = p.item_pos;
      buffer_pos = p.buffer_pos;
      in_int = p.in_int;
    },
    record { buffer = refl; item_size = refl; size_max = refl },
  )

  -- Releasing a block that is free already is answered by DoubleFree and changes nothing.
  pub release_block-free :
      has k free ≡ true → release_block a (block_address a k) ≡ some (double_free, a)
  unfolding put_first
  release_block-free i =
      let (j, cell, ne) = FreeChain-cell a.free_list k free p.chain i in
      release_block-put_first ∙ rw (cell, ne) (ground arith)

release_block-taken :
    {a : PoolAllocator} {k : ℕ} {ks : List ℕ}
    → IsPool a (k ∷ ks)
    → release_block (taken a k ks) (block_address a k) ≡ some (success, a)
unfolding put_first
release_block-taken {a} {k} {ks} p =
    let cell = get_elem?-set_self a.free_list k detached_idx (omega (arith, first-lt p, p.cells)) in
    release_block-put_first (taken-IsPool p) k (first-lt p)
    ∙ rw cell (
        rw (leb-eq-false (first-lt p)) (λ i. some (
          success,
          record a {
            free_list =
                (set-set a.free_list k detached_idx (index_of ks)
                    ∙ set_same a.free_list k p.chain.0)
                  i;
            first_idx = sym p.first i;
            size = (+ℤ_one (length ks) ∙ sym p.size) i;
          },
        )))

-- A block that PoolAllocator_getBlock has just handed out can be released at once, and this brings
-- the allocator back to the state that it had before, cell by cell.
pub release_block-get_block :
    {a b : PoolAllocator} {block : Block} (free : List ℕ)
    → IsPool a free
    → get_block a ≡ some (block, b)
    → block ≢ 0
    → release_block b block ≡ some (success, a)
release_block-get_block [] p e ne = absurd (ne (ground (arith, get_block-nil p)))
release_block-get_block {a} {b} {block} (k ∷ ks) p e ne =
    let (same_block, same_pool) = some_pair (sym e ∙ get_block-eq p) in
    ap₂ (λ pool addr. release_block pool addr) same_pool same_block ∙ release_block-taken p
