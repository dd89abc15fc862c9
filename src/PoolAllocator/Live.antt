-- ===== src/PoolAllocator/Live.antt =====
-- The blocks that are handed out, by address: what the clients of a pool see of it.
use native.Mathlib.Nat.{mul-div_cancel}
use messages_queue_disastros.Prelude.{
  ℕ, ◌*◌, ◌/◌, ◌<◌, ◌≡◌, refl, ◌∙◌, ◌≢◌, true, false, some, List, ◌∷◌, arith, ap, sym, Bool-cases,
  inl, inr, ◌==◌, ==_iff, ◌++◌,
}
use messages_queue_disastros.LinkedList.Chain.{has, has-insert}
use messages_queue_disastros.PoolAllocator.{
  PoolAllocator, Block, success, block_address, get_block, release_block,
}
use messages_queue_disastros.PoolAllocator.Free.{IsPool}
use messages_queue_disastros.PoolAllocator.GetBlock.{SameBuffer, get_block-cons, first-lt}
use messages_queue_disastros.PoolAllocator.ReleaseBlock.{release_block-allocated}

-- `block` is a block of the pool that is not free.
pub record IsLive (a : PoolAllocator) (free : List ℕ) (block : Block) : Type 0 where
  pub index : ℕ
  pub index-lt : index < a.size_max
  pub not_free : has index free ≡ false
  pub address : block ≡ block_address a index

-- Different blocks have different addresses.
pub block_address-injective :
    (a : PoolAllocator) (j k : ℕ) → 0 < a.item_size → block_address a j ≡ block_address a k → j ≡ k
block_address-injective a j k size e =
    let products : j * a.item_size ≡ k * a.item_size = omega arith in
    sym (mul-div_cancel j size) ∙ ap (λ n. n / a.item_size) products ∙ mul-div_cancel k size

pub SameBuffer-address :
    {a b : PoolAllocator} (k : ℕ) → SameBuffer a b → block_address a k ≡ block_address b k
SameBuffer-address k s = rw (s.buffer, s.item_size) refl

-- What a client sees of a PoolAllocator_getBlock that succeeds: the block is live, and was not
-- before; what was live still is.
pub record Handed (a : PoolAllocator) (free : List ℕ) (b : PoolAllocator) (rest : List ℕ)
    (block : Block) : Type 0 where
  pub pool : IsPool b rest
  pub buffer : SameBuffer a b
  pub ne_null : block ≢ 0
  pub live : IsLive b rest block
  pub fresh : (c : Block) → IsLive a free c → c ≢ block
  pub kept : (c : Block) → IsLive a free c → IsLive b rest c
  pub others : (c : Block) → IsLive b rest c → c ≢ block → IsLive a free c

-- On a pool with a free block PoolAllocator_getBlock hands out the first one: it was not live, is
-- live then, and what was live still is.
pub get_block-Handed :
    {a : PoolAllocator} (k : ℕ) (ks : List ℕ)
    → IsPool a (k ∷ ks)
    → (b : PoolAllocator) × (get_block a ≡ some (block_address a k, b))
      × Handed a (k ∷ ks) b ks (block_address a k)
get_block-Handed {a} k ks p =
    let (b, e, q, s, nn) = get_block-cons p in
    (
      b,
      e,
      record {
        pool = q;
        buffer = s;
        ne_null = nn;
        live = record {
          index = k;
          index-lt = omega (arith, first-lt p, s.size_max);
          not_free = p.distinct.0;
          address = SameBuffer-address k s;
        };
        fresh = λ c l same.
            let j-eq = block_address-injective a l.index k p.item_pos (sym l.address ∙ same) in
            let n = l.not_free in ground arith;
        kept = λ c l.
            let n = l.not_free in
            record {
              index = l.index;
              index-lt = omega (arith, l.index-lt, s.size_max);
              not_free = ground arith;
              address = l.address ∙ SameBuffer-address l.index s;
            };
        others = λ c l ne.
            let n = l.not_free in
            let back : c ≡ block_address a l.index =
              l.address ∙ sym (SameBuffer-address l.index s) in
            let other : l.index ≢ k = λ e. ne (back ∙ ap (block_address a) e) in
            record {
              index = l.index;
              index-lt = omega (arith, l.index-lt, s.size_max);
              not_free = ground arith;
              address = back;
            };
      },
    )

-- What it sees of a release: the block is no longer live, all others are as they were.
pub record Returned (a : PoolAllocator) (free : List ℕ) (b : PoolAllocator) (rest : List ℕ)
    (block : Block) : Type 0 where
  pub pool : IsPool b rest
  pub buffer : SameBuffer a b
  pub kept : (c : Block) → IsLive a free c → c ≢ block → IsLive b rest c
  pub others : (c : Block) → IsLive b rest c → IsLive a free c
  pub gone : (c : Block) → IsLive b rest c → c ≢ block

-- A live block is released: it is free then, and the other live blocks are as they were.
pub release_block-Returned :
    {a : PoolAllocator} {free : List ℕ} (block : Block)
    → IsPool a free
    → (l : IsLive a free block)
    → (b : PoolAllocator) × (release_block a block ≡ some (success, b))
      × Returned a free b (l.index ∷ free) block
release_block-Returned {a} {free} block p l =
    let (b, e, q, s) = release_block-allocated p l.index l.index-lt l.not_free in
    (
      b,
      ap (release_block a) l.address ∙ e,
      record {
        pool = q;
        buffer = s;
        kept = λ c m ne.
            let other : m.index ≢ l.index =
              λ e. ne (m.address ∙ ap (block_address a) e ∙ sym l.address) in
            let n = m.not_free in
            record {
              index = m.index;
              index-lt = omega (arith, m.index-lt, s.size_max);
              not_free = ground arith;
              address = m.address ∙ SameBuffer-address m.index s;
            };
        others = λ c m.
            let n = m.not_free in
            record {
              index = m.index;
              index-lt = omega (arith, m.index-lt, s.size_max);
              not_free = ground arith;
              address = m.address ∙ sym (SameBuffer-address m.index s);
            };
        gone = λ c m same.
            let n = m.not_free in
            let j-eq =
              block_address-injective a m.index l.index p.item_pos
                (SameBuffer-address m.index s ∙ sym m.address ∙ same ∙ l.address) in
            ground arith;
      },
    )

-- The new block stands among live ones.
pub live-insert :
    {a b : PoolAllocator} {free rest : List ℕ} {item : Block} (front back : List Block)
    → Handed a free b rest item
    → ((c : Block) → has c (front ++ back) ≡ true → IsLive a free c)
    → (c : Block) → has c (front ++ (item ∷ back)) ≡ true
    → IsLive b rest c
live-insert {item} front back handed old c m = elim (Bool-cases (c == item)) [
  | inl same ↦ rw ((==_iff c item).0 same) handed.live
  | inr other ↦ handed.kept c (old c (ground (arith, has-insert c item front back)))
]

-- A free block is not live.
pub free-not-IsLive :
    {a : PoolAllocator} {free : List ℕ} (k : ℕ)
    → IsPool a free
    → has k free ≡ true
    → ¬ IsLive a free (block_address a k)
free-not-IsLive {a} k p m l =
    let same = block_address-injective a k l.index p.item_pos l.address in
    let n = l.not_free in ground arith

-- The new block is in no sequence of blocks that were live before.
pub fresh-not-has :
    {a b : PoolAllocator} {free rest : List ℕ} {item : Block} (xs : List Block)
    → Handed a free b rest item
    → ((c : Block) → has c xs ≡ true → IsLive a free c)
    → has item xs ≡ false
fresh-not-has {item} xs handed live = elim (Bool-cases (has item xs)) [
  | inl taken ↦ absurd (handed.fresh item (live item taken) refl)
  | inr out ↦ out
]
