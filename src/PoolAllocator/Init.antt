-- ===== src/PoolAllocator/Init.antt =====
-- PoolAllocator_init: all blocks are free, in the order of their addresses.
use messages_queue_disastros.Prelude.{
  ℕ, zero, suc, ◌+◌, ◌-◌, ◌*◌, ◌^◌, ◌≤◌, ◌<◌, ◌≡◌, refl, ◌∙◌, true, false, some, List, [], ◌∷◌,
  arith, get_elem?, set, length, length-set, replicate, length-replicate, ℤ, pos, get_elem?-set_ne,
  get_elem?-set_self, to_int-pos, ap, sym,
}
use native.Mathlib.Decide.{dec_lt}
use messages_queue_disastros.LinkedList.Chain.{has, Distinct}
use messages_queue_disastros.PoolAllocator.{
  PoolAllocator, Block, success, null_idx, populate, init, int_size,
}
use messages_queue_disastros.PoolAllocator.Free.{IsPool, FreeChain}

-- from, from + 1, …, `n` of them.
unfoldable pub indices : ℕ → ℕ → List ℕ
indices from zero = []
indices from (suc n) = from ∷ indices (suc from) n

length-indices : (from n : ℕ) → length (indices from n) ≡ n
unfolding indices
length-indices from zero = refl
length-indices from (suc n) = ap suc (length-indices (suc from) n)

has-indices_below : (k from n : ℕ) → k < from → has k (indices from n) ≡ false
unfolding indices
has-indices_below k from zero lt = refl
has-indices_below k from (suc n) lt = ground (arith, has-indices_below k (suc from) n)

has-indices : (k from n : ℕ) → from ≤ k → k < from + n → has k (indices from n) ≡ true
unfolding indices
has-indices k from zero le lt = absurd (omega arith)
has-indices k from (suc n) le lt = ground (arith, has-indices k (suc from) n)

Distinct-indices : (from n : ℕ) → Distinct (indices from n)
unfolding indices
Distinct-indices from zero = tt
Distinct-indices from (suc n) =
    (has-indices_below from (suc from) n (omega arith), Distinct-indices (suc from) n)

length-populate : (n from : ℕ) (cells : List ℤ) → length (populate n from cells) ≡ length cells
unfolding populate
length-populate zero from cells = refl
length-populate (suc n) from cells =
    length-populate n (suc from) (set cells from (pos (suc from)))
    ∙ length-set cells from (pos (suc from))

populate_below :
    (k n from : ℕ) (cells : List ℤ)
    → k < from
    → get_elem? (populate n from cells) k ≡ get_elem? cells k
unfolding populate
populate_below k zero from cells lt = refl
populate_below k (suc n) from cells lt =
    populate_below k n (suc from) (set cells from (pos (suc from))) (omega arith)
    ∙ get_elem?-set_ne cells (pos (suc from)) (omega arith)

populate_at :
    (k n from : ℕ) (cells : List ℤ)
    → from ≤ k
    → k < from + n
    → from + n ≤ length cells
    → get_elem? (populate n from cells) k ≡ some (pos (suc k))
unfolding populate
populate_at k zero from cells le lt fits = absurd (omega arith)
populate_at k (suc n) from cells le lt fits =
    let size = length-set cells from (pos (suc from)) in
    let written = get_elem?-set_self cells from (pos (suc from)) (omega arith) in
    elim (dec_lt from k) [
      | yes more ↦
          populate_at k n (suc from) (set cells from (pos (suc from))) more (omega arith)
            (omega (arith, size))
      | no stop ↦
          let e : k ≡ from = omega arith in
          rw e (
            populate_below from n (suc from) (set cells from (pos (suc from))) (omega arith)
            ∙ written)
    ]

FreeChain-indices :
    (cells : List ℤ) (from n : ℕ)
    → ((k : ℕ) → from ≤ k → k < from + n → get_elem? cells k ≡ some (pos (suc k)))
    → get_elem? cells (from + n) ≡ some null_idx
    → FreeChain cells (indices from (suc n))
unfolding indices
FreeChain-indices cells from zero links end = (ap (get_elem? cells) (omega arith) ∙ end, tt)
FreeChain-indices cells from (suc n) links end = (
  links from (omega arith) (omega arith),
  FreeChain-indices cells (suc from) n (λ k le lt. links k (omega arith) (omega arith))
      (ap (get_elem? cells) (omega arith) ∙ end),
)

-- The array that PoolAllocator_init writes for `suc m` items.
abbrev links_array : ℕ → List ℤ
links_array m = set (populate m 0 (replicate (suc m) (pos 0))) m null_idx

length-links_array : (m : ℕ) → length (links_array m) ≡ suc m
length-links_array m =
    length-set (populate m 0 (replicate (suc m) (pos 0))) m null_idx
    ∙ length-populate m 0 (replicate (suc m) (pos 0))
    ∙ length-replicate (suc m) (pos 0)

FreeChain-links_array : (m : ℕ) → FreeChain (links_array m) (indices 0 (suc m))
FreeChain-links_array m =
    let zeroes = replicate (suc m) (pos 0) in
    let size : length (populate m 0 zeroes) ≡ suc m =
      length-populate m 0 zeroes ∙ length-replicate (suc m) (pos 0) in
    FreeChain-indices (links_array m) 0 m
      (λ k le lt.
        get_elem?-set_ne (populate m 0 zeroes) null_idx (omega arith)
        ∙ populate_at k m 0 zeroes le lt (omega (arith, length-replicate (suc m) (pos 0))))
      (ap (get_elem? (links_array m)) (omega arith)
        ∙ get_elem?-set_self (populate m 0 zeroes) m null_idx (omega arith))

-- With room for `n` blocks and their list, and at least one block, PoolAllocator_init succeeds and
-- leaves the pool of the given buffer and sizes in which all of the blocks 0, …, n - 1 are free, in
-- this order.
pub init-IsPool :
    (old : PoolAllocator) (item_size n : ℕ) (block : Block) (memory_size : ℕ)
    → 0 < n
    → 0 < item_size
    → 0 < block
    → n * (item_size + int_size) < 2 ^ 31
    → n * (item_size + int_size) ≤ memory_size
    → (a : PoolAllocator) × (init old item_size n block (pos memory_size) ≡ some (success, a))
      × IsPool a (indices 0 n)
      × (a.buffer ≡ block)
      × (a.item_size ≡ item_size)
      × (a.size_max ≡ n)
unfolding init indices
init-IsPool old item_size zero block memory_size n_pos i_pos b_pos int fits = elim n_pos [ ]
init-IsPool old item_size (suc m) block memory_size n_pos i_pos b_pos int fits = (
  record {
    buffer = block;
    free_list = links_array m;
    buffer_size = item_size * suc m;
    size = pos (suc m);
    size_max = suc m;
    item_size = item_size;
    first_idx = pos 0;
  },
  (let last : suc m - 1 ≡ m = omega arith in
      rw (to_int-pos (suc m * (item_size + int_size)) int, last) (ground arith)),
  record {
    first = refl;
    size = ap pos (sym (length-indices 0 (suc m)));
    cells = length-links_array m;
    chain = FreeChain-links_array m;
    distinct = Distinct-indices 0 (suc m);
    detached = λ k lt o. ground (arith, has-indices k 0 (suc m));
    item_pos = i_pos;
    buffer_pos = b_pos;
    in_int = grind arith;
  },
  refl,
  refl,
  refl,
)
