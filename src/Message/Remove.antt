-- ===== src/Message/Remove.antt =====
-- The first message of a queue taken off it: List_detach and m_free.
use messages_queue_disastros.Prelude.{
  ℕ, ◌≡◌, refl, ◌∙◌, ap, true, false, Bool-cases, inl, inr, some, List, [], ◌∷◌, ◌==◌, ==_iff,
}
use messages_queue_disastros.LinkedList.{Addr, Items, ListHead, Linked, detach}
use messages_queue_disastros.LinkedList.Chain.{
  IsLoose, has, ne_of_has, has-first, has-cons, has-tail, ne_of_has-cons,
}
use messages_queue_disastros.LinkedList.Frame.{IsList-frame}
use messages_queue_disastros.LinkedList.Detach.{detach-Detached, Detached}
use messages_queue_disastros.PoolAllocator.{PoolAllocator, success, block_address}
use messages_queue_disastros.PoolAllocator.Live.{
  IsLive, Returned, release_block-Returned, free-not-IsLive, SameBuffer-address,
}
use messages_queue_disastros.Message.{Messages, m_free}
use messages_queue_disastros.Message.Queue.{IsMail, IsQueue}

-- The first message `x` of the queue `x ∷ rest` is off the queue and its block is free.
pub record Removed (s : Messages) (free : List ℕ) (x : Addr) (rest : List Addr) (s' : Messages)
    (head' : ListHead) : Type 0 where
  pub index : ℕ
  pub mail : IsMail s' (index ∷ free)
  pub queue : IsQueue s' (index ∷ free) head' rest
  pub same : s'.messages ≡ s.messages
  pub others :
      (head : ListHead) (ys : List Addr)
      → IsQueue s free head ys
      → ((a : Addr) → has a ys ≡ true → has a (x ∷ rest) ≡ false)
      → IsQueue s' (index ∷ free) head ys

module _ {s : Messages} {free : List ℕ} {x : Addr} {rest : List Addr} {head : ListHead}
    {b : PoolAllocator} {r : Linked} (mail : IsMail s free) (q : IsQueue s free head (x ∷ rest))
    (l : IsLive s.m_allocator free x) (back : Returned s.m_allocator free b (l.index ∷ free) x)
    (done : Detached s.message_items [] rest x r) where
  abbrev s' : Messages
  s' = record s { m_allocator = b; message_items = r.0 }

  free_outside :
      (k a : ℕ) → has k free ≡ true → a ≡ block_address s.m_allocator k → has a (x ∷ rest) ≡ false
  free_outside k a i e = elim (Bool-cases (has a (x ∷ rest))) [
    | inl inside ↦ absurd (free-not-IsLive k mail.pool i (rw (← e) (q.live a inside)))
    | inr outside ↦ outside
  ]

  clear-new : IsLoose s'.message_items (block_address b l.index)
  clear-new = rw (← SameBuffer-address l.index back.buffer, ← l.address) done.loose

  clear-old : (k : ℕ) → has k free ≡ true → IsLoose s'.message_items (block_address b k)
  clear-old k i =
      let a = block_address s.m_allocator k in
      let old = mail.clear k i in
      let same : s'.message_items a ≡ s.message_items a = done.frame a (free_outside k a i refl) in
      rw (← SameBuffer-address k back.buffer) (record {
        ne_null = old.ne_null;
        no_prev = rw same old.no_prev;
        no_next = rw same old.no_next;
      })

  clear : (k : ℕ) → has k (l.index ∷ free) ≡ true → IsLoose s'.message_items (block_address b k)
  clear k i = elim (Bool-cases (k == l.index)) [
    | inl same ↦ rw ((==_iff k l.index).0 same) clear-new
    | inr other ↦ clear-old k (has-tail k l.index free i other)
  ]

  removed : Removed s free x rest s' r.1
  removed = record {
    index = l.index;
    mail = record { pool = back.pool; clear = clear; chars = mail.chars };
    queue = record {
      list = done.is_list;
      live = λ a i.
          back.kept a (q.live a (has-cons a x rest i)) (ne_of_has x a rest q.list.distinct.0 i);
      texts = λ a i. q.texts a (has-cons a x rest i);
    };
    same = refl;
    others = λ head ys p apart. record {
      list = IsList-frame s'.message_items ys (λ a i. done.frame a (apart a i)) p.list;
      live = λ a i. back.kept a (p.live a i) (ne_of_has-cons a x rest (apart a i));
      texts = p.texts;
    };
  }

-- `List_detach(&msgs, m)` of the first message and m_free: the other messages stay in their order,
-- and no other queue changes.
pub detach-Removed :
    {s : Messages} {free : List ℕ} {head : ListHead} (x : Addr) (rest : List Addr)
    → IsMail s free
    → IsQueue s free head (x ∷ rest)
    → (items : Items) × (head' : ListHead) × (s' : Messages) × (detach s.message_items head x
        ≡ some (items, head', x))
      × (m_free (record s { message_items = items }) x ≡ some (success, s'))
      × Removed s free x rest s' head'
unfolding m_free
detach-Removed {s} x rest mail q =
    let l = q.live x (has-first x rest) in
    let (b, released, back) = release_block-Returned x mail.pool l in
    let (r, detached, done) = detach-Detached x [] rest q.list in
    (
      r.0,
      r.1,
      record s { m_allocator = b; message_items = r.0 },
      detached ∙ ap (λ a. some (r.0, r.1, a)) done.returned,
      rw released refl,
      removed mail q l back done,
    )
