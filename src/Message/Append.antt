-- ===== src/Message/Append.antt =====
-- A new message at the end of a queue: m_alloc and List_insert behind the last message.
use messages_queue_disastros.Prelude.{
  ℕ, ◌≤◌, ◌≡◌, refl, ◌∙◌, ◌≢◌, ap, sym, true, false, Bool-cases, inl, inr, some, List, [], ◌∷◌,
  ◌++◌, arith, length, pos, ◌==◌, update, update_same, update_other,
}
use mathlib.Core.List.{append-nil}
use messages_queue_disastros.LinkedList.{Addr, Items, ListHead, insert}
use messages_queue_disastros.LinkedList.Chain.{IsLoose, has, has-append, has-snoc, ne_of_has}
use messages_queue_disastros.LinkedList.Frame.{IsList-frame}
use messages_queue_disastros.LinkedList.Insert.{insert_last-Inserted, Inserted}
use messages_queue_disastros.PoolAllocator.{PoolAllocator, block_address}
use messages_queue_disastros.PoolAllocator.Live.{
  Handed, get_block-Handed, live-insert, fresh-not-has, free-not-IsLive, block_address-injective,
  SameBuffer-address,
}
use messages_queue_disastros.Constants.{message_string_max_length}
use messages_queue_disastros.Message.{Message, Messages, m_alloc, copy_chars}
use messages_queue_disastros.Message.Text.{segment, length-copy_chars}
use messages_queue_disastros.Message.Queue.{
  IsMail, IsQueue, HasText, texts, texts-append, texts-same, text-written, m_alloc-eq,
}

-- A message with `n` characters of `source` is allocated and stands at the end of the queue `ms`:
-- `s'` are the messages and `head'` is the queue then.
pub record Appended (s : Messages) (j : ℕ) (js : List ℕ) (ms : List Addr) (source : ℕ → ℕ) (n : ℕ)
    (m : Addr) (s' : Messages) (head' : ListHead) : Type 0 where
  pub mail : IsMail s' js
  pub queue : IsQueue s' js head' (ms ++ (m ∷ []))
  pub contents :
      texts s'.messages (ms ++ (m ∷ [])) ≡ texts s.messages ms ++ (segment source 0 n ∷ [])
  pub others :
      (head : ListHead) (ys : List Addr)
      → IsQueue s (j ∷ js) head ys
      → ((a : Addr) → has a ys ≡ true → has a ms ≡ false)
      → IsQueue s' js head ys × (texts s'.messages ys ≡ texts s.messages ys)

has-nil : (a : Addr) (xs : List Addr) → has a (xs ++ []) ≡ has a xs
has-nil a xs = rw append-nil refl

-- The parts of the proof, over the new message `m` in the pool `b` and the links `r` that
-- List_insert leaves.
module _ {s : Messages} {j : ℕ} {js : List ℕ} {ms : List Addr} {head : ListHead} {b : PoolAllocator}
    {r : Items × ListHead × Addr} (source : ℕ → ℕ) (n : ℕ) (mail : IsMail s (j ∷ js))
    (q : IsQueue s (j ∷ js) head ms) (le : n ≤ message_string_max_length)
    (handed : Handed s.m_allocator (j ∷ js) b js (block_address s.m_allocator j))
    (done : Inserted s.message_items ms [] (block_address s.m_allocator j) r) where
  abbrev m : Addr
  m = block_address s.m_allocator j

  abbrev message : Message
  message = record { msg = copy_chars n 0 source (s.messages m).msg; length = pos n }

  abbrev s' : Messages
  s' = record { m_allocator = b; messages = update s.messages m message; message_items = r.0 }

  out : has m ms ≡ false
  out = fresh-not-has ms handed q.live

  same_message : (a : Addr) → a ≢ m → s'.messages a ≡ s.messages a
  same_message a ne = update_other s.messages m a message ne

  same_links : (a : Addr) → a ≢ m → has a ms ≡ false → s'.message_items a ≡ s.message_items a
  same_links a ne o = done.frame a (ground (arith, has-append a ms []))

  free_outside :
      (k a : ℕ) → has k (j ∷ js) ≡ true → a ≡ block_address s.m_allocator k → has a ms ≡ false
  free_outside k a i e = elim (Bool-cases (has a ms)) [
    | inl inside ↦ absurd (free-not-IsLive k mail.pool i (rw (← e) (q.live a inside)))
    | inr outside ↦ outside
  ]

  new_contents :
      texts s'.messages (ms ++ (m ∷ [])) ≡ texts s.messages ms ++ (segment source 0 n ∷ [])
  unfolding texts
  new_contents =
      rw
        (
          texts-append s'.messages ms (m ∷ []),
          texts-same s.messages s'.messages ms λ a i. same_message a (ne_of_has m a ms out i),
          update_same s.messages m message,
          text-written m source n mail le,
        )
        refl

  clear : (k : ℕ) → has k js ≡ true → IsLoose s'.message_items (block_address b k)
  clear k i =
      let a = block_address s.m_allocator k in
      let e : a ≡ block_address b k = SameBuffer-address k handed.buffer in
      let old = mail.clear k (ground arith) in
      let ne : a ≢ m = λ same.
        ne_of_has j k js mail.pool.distinct.0 i
          (block_address-injective s.m_allocator k j mail.pool.item_pos same) in
      let o : has a ms ≡ false = free_outside k a (ground arith) refl in
      rw (← e) (record {
        ne_null = old.ne_null;
        no_prev = rw (same_links a ne o) old.no_prev;
        no_next = rw (same_links a ne o) old.no_next;
      })

  chars : (a : Addr) → length (s'.messages a).msg ≡ message_string_max_length
  chars a = elim (Bool-cases (a == m)) [
    | inl same ↦ rw same (length-copy_chars n 0 source (s.messages m).msg ∙ mail.chars m)
    | inr other ↦ rw other (mail.chars a)
  ]

  new-texts : (a : Addr) → has a (ms ++ (m ∷ [])) ≡ true → HasText (s'.messages a)
  new-texts a i = elim (Bool-cases (a == m)) [
    | inl same ↦ rw same (n, refl, le)
    | inr other ↦ rw other (q.texts a (has-snoc a m ms i other))
  ]

  other-IsQueue :
      (head : ListHead) (ys : List Addr)
      → IsQueue s (j ∷ js) head ys
      → ((a : Addr) → has a ys ≡ true → has a ms ≡ false)
      → IsQueue s' js head ys × (texts s'.messages ys ≡ texts s.messages ys)
  other-IsQueue head ys p apart =
      let ne : (a : Addr) → has a ys ≡ true → a ≢ m =
        λ a i. ne_of_has m a ys (fresh-not-has ys handed p.live) i in
      (
        record {
          list = IsList-frame s'.message_items ys (λ a i. same_links a (ne a i) (apart a i)) p.list;
          live = λ a i. handed.kept a (p.live a i);
          texts = λ a i. rw (same_message a (ne a i)) (p.texts a i);
        },
        texts-same s.messages s'.messages ys λ a i. same_message a (ne a i),
      )

  appended : Appended s j js ms source n m s' r.1
  appended = record {
    mail = record { pool = handed.pool; clear = clear; chars = chars };
    queue = record {
      list = done.is_list;
      live = live-insert ms [] handed λ a i. q.live a (sym (has-nil a ms) ∙ i);
      texts = new-texts;
    };
    contents = new_contents;
    others = other-IsQueue;
  }

-- m_alloc followed by `List_insert(&msgs, msgs.last, m)`, where there is a free block and the text
-- fits: the new message is the last one of the queue, and no other queue changes.
pub m_alloc-Appended :
    {s : Messages} {j : ℕ} {js : List ℕ} {ms : List Addr} {head : ListHead} (source : ℕ → ℕ) (n : ℕ)
    → IsMail s (j ∷ js)
    → IsQueue s (j ∷ js) head ms
    → n ≤ message_string_max_length
    → (m : Addr) × (s1 : Messages) × (items : Items) × (head' : ListHead) × (m_alloc s source
          (pos n)
        ≡ some (m, s1))
      × (insert s1.message_items head head.last m ≡ some (items, head', m))
      × Appended s j js ms source n m (record s1 { message_items = items }) head'
m_alloc-Appended {s} {j} {js} {ms} {head} source n mail q le =
    let (b, got, handed) = get_block-Handed j js mail.pool in
    let out = fresh-not-has ms handed q.live in
    let (r, inserted, done) = insert_last-Inserted ms q.list (mail.clear j (ground arith)) out in
    (
      block_address s.m_allocator j,
      record s {
        m_allocator = b;
        messages =
            update s.messages (block_address s.m_allocator j)
              (message source n mail q le handed done);
      },
      r.0,
      r.1,
      m_alloc-eq s source n (block_address s.m_allocator j) b got handed.ne_null le,
      inserted ∙ ap (λ a. some (r.0, r.1, a)) done.returned,
      appended source n mail q le handed done,
    )
