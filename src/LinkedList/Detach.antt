-- ===== src/LinkedList/Detach.antt =====
-- List_detach: the item is taken out, its neighbours are joined and its links are cleared.
use messages_queue_disastros.Prelude.{
  suc, ◌≡◌, refl, true, false, some, List, [], ◌∷◌, ◌++◌, arith, ◌==◌, if◌then◌else◌, length,
  length-append, -ℤ_one, ==-eq-false,
}
use messages_queue_disastros.LinkedList.{
  Addr, Items, ListHead, Linked, detach, detach_between, bypass_next, bypass_prev, unlink,
}
use messages_queue_disastros.LinkedList.Chain.{
  IsList, IsLoose, Chain, Distinct, has, has-append, head_or, last_or, last_or-append, has-last,
  has-last_or, has-head, last_null_or_has, head_null_or_has, Distinct-left, Distinct-right,
  Distinct-apart, Distinct-remove, Chain-append, Chain-left, Chain-right, Chain-ne_null,
  Chain-retarget_first, Chain-retarget_last,
}

-- The links after `item` between `prev` and `next` is taken out.
abbrev unlinked : Items → Addr → Addr → Addr → Items
unfolding bypass_next bypass_prev unlink
unlinked h prev next item = unlink (bypass_prev (bypass_next h prev next) next prev) item

module _ (h : Items) (xs ys : List Addr) (item : Addr) where
  abbrev after : Items
  unfolding bypass_next bypass_prev unlink
  after = unlinked h (last_or 0 xs) (head_or 0 ys) item

  module _ (c : Chain h 0 (xs ++ (item ∷ ys)) 0) (d : Distinct (xs ++ (item ∷ ys)))
      (out : has item (xs ++ ys) ≡ false) (nz : has 0 (xs ++ ys) ≡ false) where
    apart : Distinct (xs ++ ys)
    apart = (Distinct-remove item xs ys d).1

    left_prev : (a : Addr) → has a xs ≡ true → (after a).prev ≡ (h a).prev
    unfolding bypass_next bypass_prev unlink
    left_prev a i = ground (
      arith,
      has-append item xs ys,
      has-append 0 xs ys,
      Distinct-apart xs ys apart a,
      has-head a ys,
      head_null_or_has ys,
    )

    left_next :
        (a : Addr)
        → has a xs ≡ true
        → (after a).next ≡ (if a == last_or 0 xs then head_or 0 ys else (h a).next)
    unfolding bypass_next bypass_prev unlink
    left_next a i = ground (arith, has-append item xs ys, has-append 0 xs ys, has-last a xs)

    right_next : (a : Addr) → has a ys ≡ true → (after a).next ≡ (h a).next
    unfolding bypass_next bypass_prev unlink
    right_next a i = ground (
      arith,
      has-append item xs ys,
      Distinct-apart xs ys apart (last_or 0 xs),
      last_null_or_has xs,
    )

    right_prev :
        (a : Addr)
        → has a ys ≡ true
        → (after a).prev ≡ (if a == head_or 0 ys then last_or 0 xs else (h a).prev)
    unfolding bypass_next bypass_prev unlink
    right_prev a i = ground (arith, has-append item xs ys, has-append 0 xs ys, has-head a ys)

    after-Chain : Chain after 0 (xs ++ ys) 0
    after-Chain =
        Chain-append after 0 0 xs ys
          (Chain-retarget_last h after 0 item (head_or 0 ys) xs left_prev left_next
            (Distinct-left xs ys apart) (Chain-left h 0 0 xs (item ∷ ys) c))
          (Chain-retarget_first h after item (last_or 0 xs) 0 ys right_next right_prev
            (Distinct-right xs ys apart) (Chain-right h 0 0 xs (item ∷ ys) c).3)

    item_links : ((after item).prev ≡ 0) × ((after item).next ≡ 0)
    unfolding bypass_next bypass_prev unlink
    item_links = ground arith

    after-frame : (a : Addr) → has a (item ∷ (xs ++ ys)) ≡ false → after a ≡ h a
    unfolding bypass_next bypass_prev unlink
    after-frame a o = ground (arith, has-append a xs ys, last_null_or_has xs, head_null_or_has ys)

-- What List_detach leaves: the list without the item, the item with no links, and all other links
-- as they were.
pub record Detached (h : Items) (xs ys : List Addr) (item : Addr) (r : Linked) : Type 0 where
  pub is_list : IsList r.0 r.1 (xs ++ ys)
  pub loose : IsLoose r.0 item
  pub frame : (a : Addr) → has a (item ∷ (xs ++ ys)) ≡ false → r.0 a ≡ h a
  pub returned : r.2 ≡ item

first_after :
    (item : Addr) (xs ys : List Addr)
    → has item (xs ++ ys) ≡ false
    → (if item == head_or 0 (xs ++ (item ∷ ys))
        then head_or 0 ys
        else head_or 0 (xs ++ (item ∷ ys)))
      ≡ head_or 0 (xs ++ ys)
first_after item [] ys out = ground arith
first_after item (x ∷ xs) ys out = ground arith

last_after :
    (item : Addr) (xs ys : List Addr)
    → has item (xs ++ ys) ≡ false
    → (if item == last_or 0 (xs ++ (item ∷ ys))
        then last_or 0 xs
        else last_or 0 (xs ++ (item ∷ ys)))
      ≡ last_or 0 (xs ++ ys)
last_after item xs [] out = ground (arith, last_or-append 0 xs [], last_or-append 0 xs (item ∷ []))
last_after item xs (y ∷ ys) out = ground (
  arith,
  last_or-append 0 xs (y ∷ ys),
  last_or-append 0 xs (item ∷ y ∷ ys),
  has-append item xs (y ∷ ys),
  has-last_or y ys,
)

length_after :
    (item : Addr) (xs ys : List Addr) → length (xs ++ (item ∷ ys)) ≡ suc (length (xs ++ ys))
length_after item xs ys = omega (arith, length-append xs ys, length-append xs (item ∷ ys))

has_after :
    (a item : Addr) (xs ys : List Addr)
    → has a (xs ++ (item ∷ ys)) ≡ false
    → has a (xs ++ ys) ≡ false
has_after a item xs ys o = ground (arith, has-append a xs ys, has-append a xs (item ∷ ys))

module _ {h : Items} {head : ListHead} (item : Addr) (xs ys : List Addr)
    (l : IsList h head (xs ++ (item ∷ ys))) where
  fresh : has item (xs ++ ys) ≡ false
  fresh = (Distinct-remove item xs ys l.distinct).0

  no_null : has 0 (xs ++ ys) ≡ false
  no_null = has_after 0 item xs ys (Chain-ne_null h 0 0 (xs ++ (item ∷ ys)) l.chain)

  here : Chain h (last_or 0 xs) (item ∷ ys) 0
  here = Chain-right h 0 0 xs (item ∷ ys) l.chain

  between-Detached :
      Detached h xs ys item (detach_between h head (last_or 0 xs) (head_or 0 ys) item)
  unfolding detach_between
  between-Detached =
      let links = item_links h xs ys item l.chain l.distinct fresh no_null in
      record {
        is_list = record {
          first = rw l.first (first_after item xs ys fresh);
          last = rw l.last (last_after item xs ys fresh);
          size = rw (l.size, length_after item xs ys, -ℤ_one);
          chain = after-Chain h xs ys item l.chain l.distinct fresh no_null;
          distinct = (Distinct-remove item xs ys l.distinct).1;
        };
        loose = record { ne_null = here.0; no_prev = links.0; no_next = links.1 };
        frame = after-frame h xs ys item l.chain l.distinct fresh no_null;
        returned = refl;
      }

  -- List_detach of an item of the list takes out this item and no other, keeps the order of the
  -- rest, clears the item's links, and writes no links but those of the list.
  pub detach-Detached : (r : Linked) × (detach h head item ≡ some r) × Detached h xs ys item r
  unfolding detach
  detach-Detached = (
    detach_between h head (last_or 0 xs) (head_or 0 ys) item,
    rw (==-eq-false item 0 here.0, here.1, here.2),
    between-Detached,
  )
