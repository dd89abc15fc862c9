-- ===== src/LinkedList/Insert.antt =====
-- List_insert: the item stands behind `prev`, and nothing but its neighbours is written.
pub mod Guard
use messages_queue_disastros.Prelude.{
  ◌≡◌, refl, ◌∙◌, ◌≢◌, true, false, some, List, [], ◌∷◌, ◌++◌, arith, ◌==◌, if◌then◌else◌, length,
  length-append, pos, +ℤ_one, ==-eq-false, ap, sym, suc,
}
use mathlib.Core.List.{append-nil}
use messages_queue_disastros.LinkedList.{
  Addr, Items, ListHead, Linked, insert, insert_between, link_prev, link_next, successor,
}
use messages_queue_disastros.LinkedList.Chain.{
  IsList, IsLoose, last_null_or_has, head_null_or_has, Chain, Distinct, has, has-append, head_or,
  last_or, has-last, has-last_or, has-head, Distinct-left, Distinct-right, Distinct-apart,
  Distinct-insert, Chain-append, Chain-left, Chain-right, Chain-ne_null, Chain-last_next,
  last_or-append, Chain-retarget_first, Chain-retarget_last,
}

-- The links after the insertion of `item` between `prev` and `next`.
abbrev linked : Items → Addr → Addr → Addr → Items
unfolding link_prev link_next
linked h prev next item = link_next (link_prev h prev item) next item

module _ (h : Items) (xs ys : List Addr) (item : Addr) where
  abbrev after : Items
  unfolding link_prev link_next
  after = linked h (last_or 0 xs) (head_or 0 ys) item

  module _ (c : Chain h 0 (xs ++ ys) 0) (d : Distinct (xs ++ ys)) (nz : item ≢ 0)
      (out : has item (xs ++ ys) ≡ false) (np : (h item).prev ≡ 0) (nn : (h item).next ≡ 0) where
    left_prev : (a : Addr) → has a xs ≡ true → (after a).prev ≡ (h a).prev
    unfolding link_prev link_next
    left_prev a i = ground (
      arith,
      has-append item xs ys,
      has-append 0 xs ys,
      Chain-ne_null h 0 0 (xs ++ ys) c,
      Distinct-apart xs ys d a,
      has-head a ys,
    )

    left_next :
        (a : Addr)
        → has a xs ≡ true
        → (after a).next ≡ (if a == last_or 0 xs then item else (h a).next)
    unfolding link_prev link_next
    left_next a i = ground (
      arith,
      has-append item xs ys,
      has-append a xs ys,
      has-append 0 xs ys,
      Chain-ne_null h 0 0 (xs ++ ys) c,
      has-last a xs,
    )

    right_next : (a : Addr) → has a ys ≡ true → (after a).next ≡ (h a).next
    unfolding link_prev link_next
    right_next a i = ground (
      arith,
      has-append item xs ys,
      has-append a xs ys,
      Distinct-apart xs ys d (last_or 0 xs),
      has-last a xs,
      last_null_or_has xs,
    )

    right_prev :
        (a : Addr)
        → has a ys ≡ true
        → (after a).prev ≡ (if a == head_or 0 ys then item else (h a).prev)
    unfolding link_prev link_next
    right_prev a i = ground (
      arith,
      has-append item xs ys,
      has-append 0 xs ys,
      Chain-ne_null h 0 0 (xs ++ ys) c,
      has-head a ys,
    )

    item_links : ((after item).prev ≡ last_or 0 xs) × ((after item).next ≡ head_or 0 ys)
    unfolding link_prev link_next
    item_links = ground (arith, has-append item xs ys, last_null_or_has xs, head_null_or_has ys)

    after-Chain : Chain after 0 (xs ++ (item ∷ ys)) 0
    after-Chain =
        Chain-append after 0 0 xs (item ∷ ys)
          (Chain-retarget_last h after 0 (head_or 0 ys) item xs left_prev left_next
            (Distinct-left xs ys d) (Chain-left h 0 0 xs ys c))
          (
            nz,
            item_links.0,
            item_links.1,
            Chain-retarget_first h after (last_or 0 xs) item 0 ys right_next right_prev
                (Distinct-right xs ys d) (Chain-right h 0 0 xs ys c),
          )

    after-frame : (a : Addr) → has a (item ∷ (xs ++ ys)) ≡ false → after a ≡ h a
    unfolding link_prev link_next
    after-frame a o = ground (arith, has-append a xs ys, last_null_or_has xs, head_null_or_has ys)

-- What List_insert leaves: the list with the item in its place, and all other links as they were.
pub record Inserted (h : Items) (xs ys : List Addr) (item : Addr) (r : Linked) : Type 0 where
  pub is_list : IsList r.0 r.1 (xs ++ (item ∷ ys))
  pub frame : (a : Addr) → has a (item ∷ (xs ++ ys)) ≡ false → r.0 a ≡ h a
  pub returned : r.2 ≡ item

first_after :
    (item : Addr) (xs ys : List Addr)
    → has 0 (xs ++ ys) ≡ false
    → (if last_or 0 xs == 0 then item else head_or 0 (xs ++ ys)) ≡ head_or 0 (xs ++ (item ∷ ys))
first_after item [] ys nz = refl
first_after item (x ∷ xs) ys nz = ground (arith, has-last_or x xs, has-append 0 xs ys)

last_after :
    (item : Addr) (xs ys : List Addr)
    → has 0 (xs ++ ys) ≡ false
    → (if head_or 0 ys == 0 then item else last_or 0 (xs ++ ys)) ≡ last_or 0 (xs ++ (item ∷ ys))
last_after item xs [] nz = sym (last_or-append 0 xs (item ∷ []))
last_after item xs (y ∷ ys) nz = ground (
  arith,
  last_or-append 0 xs (y ∷ ys),
  last_or-append 0 xs (item ∷ y ∷ ys),
  has-append 0 xs (y ∷ ys),
)

length_after :
    (item : Addr) (xs ys : List Addr) → suc (length (xs ++ ys)) ≡ length (xs ++ (item ∷ ys))
length_after item xs ys = omega (arith, length-append xs ys, length-append xs (item ∷ ys))

between-Inserted :
    {h : Items} {head : ListHead} {item : Addr} (xs ys : List Addr)
    → IsList h head (xs ++ ys)
    → IsLoose h item
    → has item (xs ++ ys) ≡ false
    → Inserted h xs ys item (insert_between h head (last_or 0 xs) (head_or 0 ys) item)
unfolding insert_between
between-Inserted {h} {head} {item} xs ys l e out = record {
  is_list = record {
    first = rw l.first (first_after item xs ys (Chain-ne_null h 0 0 (xs ++ ys) l.chain));
    last = rw l.last (last_after item xs ys (Chain-ne_null h 0 0 (xs ++ ys) l.chain));
    size = rw (l.size, +ℤ_one) (ap pos (length_after item xs ys));
    chain = after-Chain h xs ys item l.chain l.distinct e.ne_null out e.no_prev e.no_next;
    distinct = Distinct-insert item xs ys out l.distinct;
  };
  frame = after-frame h xs ys item l.chain l.distinct e.ne_null out e.no_prev e.no_next;
  returned = refl;
}

successor-eq :
    {h : Items} {head : ListHead} (xs ys : List Addr)
    → IsList h head (xs ++ ys)
    → successor h head (last_or 0 xs) ≡ head_or 0 ys
unfolding successor
successor-eq [] ys l = l.first
successor-eq {h} (x ∷ xs) ys l =
    rw
      (==-eq-false (last_or x xs) 0 λ e.
        ground (
          arith,
          Chain-ne_null h 0 0 (x ∷ (xs ++ ys)) l.chain,
          has-last_or x xs,
          has-append 0 xs ys,
        ))
      (Chain-last_next h 0 (head_or 0 ys) x xs (Chain-left h 0 0 (x ∷ xs) ys l.chain))

-- List_insert with `prev` the last of `xs` (NULL if there is none) puts a loose item that is not in
-- the list between `xs` and `ys`, and writes no links but those of the list and the item.
pub insert-Inserted :
    {h : Items} {head : ListHead} {item : Addr} (xs ys : List Addr)
    → IsList h head (xs ++ ys)
    → IsLoose h item
    → has item (xs ++ ys) ≡ false
    → (r : Linked) × (insert h head (last_or 0 xs) item ≡ some r) × Inserted h xs ys item r
unfolding insert
insert-Inserted {h} {head} {item} xs ys l e out = (
  insert_between h head (last_or 0 xs) (head_or 0 ys) item,
  rw (==-eq-false item 0 e.ne_null, e.no_next, e.no_prev, successor-eq xs ys l),
  between-Inserted xs ys l e out,
)

-- `List_insert(&l, l.last, item)` appends.
pub insert_last-Inserted :
    {h : Items} {head : ListHead} {item : Addr} (xs : List Addr)
    → IsList h head xs
    → IsLoose h item
    → has item xs ≡ false
    → (r : Linked) × (insert h head head.last item ≡ some r) × Inserted h xs [] item r
insert_last-Inserted {h} {head} {item} xs l e out =
    let (r, eq, done) = insert-Inserted xs [] (rw append-nil l) e (rw append-nil out) in
    (r, ap (λ prev. insert h head prev item) l.last ∙ eq, done)
