-- ===== src/PoolAllocator/Free.antt =====
-- What a pool stands for: the sequence of the indices of its free blocks, the next one first.
use messages_queue_disastros.Prelude.{
  ℕ, ◌*◌, ◌^◌, ◌<◌, ◌≡◌, refl, ◌≢◌, true, false, some, List, [], ◌∷◌, arith, get_elem?, set, length,
  ℤ, pos, get_elem?-set_ne, lt-length, eqb_ℤ, Bool-cases, ◌==◌, inl, inr, ap, ◌∙◌, ==_iff,
}
use messages_queue_disastros.LinkedList.Chain.{has, Distinct}
use messages_queue_disastros.PoolAllocator.{PoolAllocator, null_idx, detached_idx}

abbrev pub index_of : List ℕ → ℤ
index_of [] = null_idx
index_of (k ∷ ks) = pos k

-- Each index leads to the next one.
abbrev pub FreeChain : List ℤ → List ℕ → Type 0
FreeChain cells [] = Unit {0}
FreeChain cells (k ∷ ks) = (get_elem? cells k ≡ some (index_of ks)) × FreeChain cells ks

-- The blocks `free` are free, and all others are marked as detached.
pub record IsPool (a : PoolAllocator) (free : List ℕ) : Type 0 where
  pub first : a.first_idx ≡ index_of free
  pub size : a.size ≡ pos (length free)
  pub cells : length a.free_list ≡ a.size_max
  pub chain : FreeChain a.free_list free
  pub distinct : Distinct free
  pub detached :
      (k : ℕ) → k < a.size_max → has k free ≡ false → get_elem? a.free_list k ≡ some detached_idx
  pub item_pos : 0 < a.item_size
  pub buffer_pos : 0 < a.buffer
  pub in_int : a.size_max * a.item_size < 2 ^ 31

-- The chain survives a write at an index outside it.
pub FreeChain-set :
    (cells : List ℤ) (i : ℕ) (v : ℤ) (ks : List ℕ)
    → has i ks ≡ false
    → FreeChain cells ks
    → FreeChain (set cells i v) ks
FreeChain-set cells i v [] o c = tt
FreeChain-set cells i v (k ∷ ks) o c =
    let ne : i ≢ k = λ e. ground arith in
    (rw (get_elem?-set_ne cells v ne) c.0, FreeChain-set cells i v ks (ground arith) c.1)

-- A free index is in range.
pub FreeChain-lt :
    (cells : List ℤ) (k : ℕ) (ks : List ℕ) → FreeChain cells ks → has k ks ≡ true → k < length cells
FreeChain-lt cells k [] c i = cc
FreeChain-lt cells k (j ∷ ks) c i =
    ground (arith, lt-length cells j c.0, FreeChain-lt cells k ks c.1)

index_of-ne_detached : (ks : List ℕ) → eqb_ℤ (index_of ks) detached_idx ≡ false
index_of-ne_detached [] = refl
index_of-ne_detached (k ∷ ks) = refl

-- The cell of a free block does not say that the block is detached.
pub FreeChain-cell :
    (cells : List ℤ) (k : ℕ) (ks : List ℕ)
    → FreeChain cells ks
    → has k ks ≡ true
    → (j : ℤ) × (get_elem? cells k ≡ some j) × (eqb_ℤ j detached_idx ≡ false)
FreeChain-cell cells k [] c i = cc
FreeChain-cell cells k (j ∷ ks) c i = elim (Bool-cases (k == j)) [
  | inl same ↦
      (index_of ks, ap (get_elem? cells) ((==_iff k j).0 same) ∙ c.0, index_of-ne_detached ks)
  | inr other ↦ FreeChain-cell cells k ks c.1 (ground arith)
]
