-- ===== src/PoolAllocator/Foreign.antt =====
-- PoolAllocator_releaseBlock on an address that is no block of the pool.
use native.Mathlib.Decide.{dec_lt}
use messages_queue_disastros.Prelude.{
  ℕ, suc, ◌+◌, ◌-◌, ◌*◌, ◌/◌, ◌%◌, ◌^◌, ◌<◌, ◌≡◌, refl, ◌∙◌, ◌≢◌, ◌⊎◌, inl, inr, Option, some,
  arith, pos, negsuc, Bool-cases, ==-eq-false, to_int, sub_ℕ, to_int-pos, to_int-negsuc, ◌-ℤ◌, ap,
  List,
}
use messages_queue_disastros.PoolAllocator.{
  PoolAllocator, PoolAllocatorResult, Block, unaligned_free, out_of_range, block_address,
  release_block, release_offset, put_first, is_multiple,
}
use messages_queue_disastros.PoolAllocator.Free.{IsPool}

abbrev pub Refused : PoolAllocator → Option (PoolAllocatorResult × PoolAllocator) → Type 0
Refused a r = (r ≡ some (unaligned_free, a)) ⊎ (r ≡ some (out_of_range, a))

-- What is a multiple is the product of its quotient.
aligned-eq : (n d : ℕ) → n % d ≡ 0 → n ≡ (n / d) * d
aligned-eq n d e = omega arith

negative_out_of_range :
    (a : PoolAllocator) (q : ℕ) → 0 < q → put_first a (sub_ℕ 0 q) ≡ some (out_of_range, a)
unfolding put_first
negative_out_of_range a q pos_q = ground arith

quotient-pos : (n d : ℕ) → suc n % d ≡ 0 → 0 < suc n / d
quotient-pos n d e = grind (arith, aligned-eq (suc n) d)

module _ (a : PoolAllocator) (n : ℕ) (size : 0 < a.item_size) where
  release_offset-negsuc : Refused a (release_offset a (negsuc n))
  unfolding release_offset
  release_offset-negsuc = elim (Bool-cases (is_multiple (negsuc n) a.item_size)) [
    | inl aligned ↦ inr (
        rw (==-eq-false a.item_size 0 λ z. omega arith, aligned)
          (negative_out_of_range a (suc n / a.item_size)
            (quotient-pos n a.item_size (ground arith))))
    | inr odd ↦ inl (rw (==-eq-false a.item_size 0 λ z. omega arith, odd) refl)
  ]

  release_offset-pos :
      ((k : ℕ) → k < a.size_max → n ≢ k * a.item_size) → Refused a (release_offset a (pos n))
  unfolding release_offset
  release_offset-pos foreign = elim (Bool-cases (is_multiple (pos n) a.item_size)) [
    | inl aligned ↦ inr (
        rw (==-eq-false a.item_size 0 λ z. omega arith, aligned)
          (elim (dec_lt (n / a.item_size) a.size_max) [
            | yes lt ↦
                absurd (foreign (n / a.item_size) lt (aligned-eq n a.item_size (ground arith)))
            | no out ↦ ground arith
          ]))
    | inr odd ↦ inl (rw (==-eq-false a.item_size 0 λ z. omega arith, odd) refl)
  ]

offset_above : (b n : ℕ) → pos (b + n) -ℤ pos b ≡ pos n
unfolding ◌-ℤ◌
offset_above b n = ground arith

offset_below : (b n : ℕ) → pos b -ℤ pos (b + suc n) ≡ negsuc n
unfolding ◌-ℤ◌
offset_below b n = ground arith

-- An address within 2 GiB of the buffer that is not the address of a block of the pool is refused
-- as not aligned or as out of range, and the allocator stays as it was.
pub release_block-foreign :
    {a : PoolAllocator} {free : List ℕ} (block : Block)
    → IsPool a free
    → ((k : ℕ) → k < a.size_max → block ≢ block_address a k)
    → block < a.buffer + 2 ^ 31
    → a.buffer < block + 2 ^ 31
    → Refused a (release_block a block)
unfolding release_block
release_block-foreign {a} block p foreign above below = elim (dec_lt block a.buffer) [
  | yes lt ↦
      let n = a.buffer - block - 1 in
      let e : a.buffer ≡ block + suc n = omega arith in
      let z : to_int (pos block -ℤ pos a.buffer) ≡ negsuc n =
        ap (λ b. to_int (pos block -ℤ pos b)) e
        ∙ ap to_int (offset_below block n)
        ∙ to_int-negsuc n (omega arith) in
      rw z (release_offset-negsuc a n p.item_pos)
  | no ge ↦
      let n = block - a.buffer in
      let e : block ≡ a.buffer + n = omega arith in
      let z : to_int (pos block -ℤ pos a.buffer) ≡ pos n =
        ap (λ b. to_int (pos b -ℤ pos a.buffer)) e
        ∙ ap to_int (offset_above a.buffer n)
        ∙ to_int-pos n (omega arith) in
      rw z (release_offset-pos a n p.item_pos λ k lt same. foreign k lt (omega arith))
]
