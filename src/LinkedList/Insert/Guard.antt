-- ===== src/LinkedList/Insert/Guard.antt =====
-- List_insert of any item that is not in the list: the guard on the links of the item.
use messages_queue_disastros.Prelude.{
  ◌≡◌, refl, ◌≢◌, true, false, some, Bool, not, ◌||◌, ◌⊎◌, inl, inr, Bool-cases, List, ◌++◌, arith,
  ◌==◌, ==-eq-false,
}
use messages_queue_disastros.LinkedList.{Addr, Items, ListHead, Linked, insert}
use messages_queue_disastros.LinkedList.Chain.{IsList, IsLoose, has, last_or}
use messages_queue_disastros.LinkedList.Insert.{Inserted, insert-Inserted}

-- Either the item has no links and stands in its place, or it has one and nothing is written.
abbrev pub Decided : (h : Items) → ListHead → (xs ys : List Addr) → (item : Addr) → Linked → Type 0
Decided h head xs ys item r =
    (IsLoose h item × Inserted h xs ys item r) ⊎ (¬ (IsLoose h item) × (r ≡ (h, head, 0)))

-- What the guard of List_insert reads.
abbrev pub has_links : Items → Addr → Bool
has_links h item = not ((h item).next == 0) || not ((h item).prev == 0)

IsLoose-has_links : (h : Items) (item : Addr) → IsLoose h item → has_links h item ≡ false
IsLoose-has_links h item e = rw (e.no_next, e.no_prev) refl

has_links-IsLoose : (h : Items) (item : Addr) → item ≢ 0 → has_links h item ≡ false → IsLoose h item
has_links-IsLoose h item nz e = record {
  ne_null = nz;
  no_prev = ground (arith, e);
  no_next = ground (arith, e);
}

refused : (h : Items) (item : Addr) → IsLoose h item → has_links h item ≡ true → ⊥
refused h item e linked_item = let clear = IsLoose-has_links h item e in cc

pub insert_linked :
    {h : Items} {head : ListHead} (prev item : Addr)
    → item ≢ 0
    → has_links h item ≡ true
    → insert h head prev item ≡ some (h, head, 0)
unfolding insert
insert_linked prev item nz e = rw (==-eq-false item 0 nz, e) refl

-- List_insert, with `prev` the last of `xs` (NULL if there is none), of an item that is not NULL and
-- not in the list of `xs` and `ys`: an item without links is put between `xs` and `ys`, returned, and
-- no links are written but those of the list and the item; for an item with a link NULL is returned
-- and neither a link nor the list is written.
pub insert-Decided :
    {h : Items} {head : ListHead} {item : Addr} (xs ys : List Addr)
    → IsList h head (xs ++ ys)
    → item ≢ 0
    → has item (xs ++ ys) ≡ false
    → (r : Linked) × (insert h head (last_or 0 xs) item ≡ some r) × Decided h head xs ys item r
insert-Decided {h} {head} {item} xs ys l nz out = elim (Bool-cases (has_links h item)) [
  | inl linked_item ↦ (
    (h, head, 0),
    insert_linked (last_or 0 xs) item nz linked_item,
    inr ((λ e. refused h item e linked_item), refl),
  )
  | inr clear ↦
      let e = has_links-IsLoose h item nz clear in
      let (r, run, done) = insert-Inserted xs ys l e out in (r, run, inl (e, done))
]
