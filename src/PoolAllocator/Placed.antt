-- ===== src/PoolAllocator/Placed.antt =====
-- A block that an allocator has just handed out, inserted behind a list of blocks in use.
use messages_queue_disastros.Prelude.{
  ℕ, ◌≡◌, ◌∙◌, ◌≢◌, ap, true, false, some, List, [], ◌∷◌, ◌++◌, refl, ◌==◌, ==_iff, Bool-cases, inl,
  inr,
}
use messages_queue_disastros.LinkedList.{Addr, Items, ListHead, insert}
use messages_queue_disastros.LinkedList.Chain.{IsList, IsLoose, has, has-snoc}
use messages_queue_disastros.LinkedList.Insert.{insert_last-Inserted}
use messages_queue_disastros.LinkedList.Frame.{IsList-frame}
use messages_queue_disastros.PoolAllocator.{PoolAllocator}
use messages_queue_disastros.PoolAllocator.Live.{IsLive}

pub fresh-not-has :
    (p : Addr) (xs : List Addr) → ((a : Addr) → has a xs ≡ true → a ≢ p) → has p xs ≡ false
fresh-not-has p xs other = elim (Bool-cases (has p xs)) [
  | inl inside ↦ absurd (other p inside refl)
  | inr outside ↦ outside
]

pub record Placed (a : PoolAllocator) (free : List ℕ) (h : Items) (head : ListHead) (xs : List Addr)
    (x : Addr) (r : Items × ListHead) : Type 0 where
  pub inserted : insert h head head.last x ≡ some (r.0, r.1, x)
  pub list : IsList r.0 r.1 (xs ++ (x ∷ []))
  pub live : (q : Addr) → has q (xs ++ (x ∷ [])) ≡ true → IsLive a free q

pub insert_last-Placed :
    {a0 a : PoolAllocator} {free0 free : List ℕ} {h0 h : Items} {head : ListHead} {x : Addr}
    (xs : List Addr)
    → IsList h0 head xs
    → ((q : Addr) → has q xs ≡ true → IsLive a0 free0 q)
    → ((q : Addr) → IsLive a0 free0 q → IsLive a free q × (q ≢ x))
    → ((q : Addr) → q ≢ x → h q ≡ h0 q)
    → IsLoose h x
    → IsLive a free x
    → (r : Items × ListHead) × Placed a free h head xs x r
insert_last-Placed {h = h} {x = x} xs list live kept items loose new =
    let other : (q : Addr) → has q xs ≡ true → q ≢ x = λ q m. (kept q (live q m)).1 in
    let framed = IsList-frame h xs (λ q m. items q (other q m)) list in
    let (r, inserted, done) = insert_last-Inserted xs framed loose (fresh-not-has x xs other) in
    (
      (r.0, r.1),
      record {
        inserted = inserted ∙ ap (λ q. some (r.0, r.1, q)) done.returned;
        list = done.is_list;
        live = λ q m. elim (Bool-cases (q == x)) [
          | inl same ↦ rw ((==_iff q x).0 same) new
          | inr differs ↦ (kept q (live q (has-snoc q x xs m differs))).0
        ];
      },
    )
