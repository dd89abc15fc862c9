-- ===== src/LinkedList.antt =====
-- linked_list.h and linked_list.c: doubly linked lists through links that stand inside the items.
-- An address is a number, 0 is NULL. `none` is a fault: a read or write through NULL, or a loop
-- that has used up its fuel.
pub mod Chain
pub mod Detach
pub mod Find
pub mod Frame
pub mod Insert
use messages_queue_disastros.Prelude.{
  ℕ, zero, suc, ◌+◌, Bool, not, ◌||◌, Option, none, some, ◌==◌, if◌then◌else◌, ℤ, pos, ◌+ℤ◌, ◌-ℤ◌,
  pos_part,
}

abbrev pub Addr : Type 0
Addr = ℕ

pub record ListItem : Type 0 where
  pub prev : Addr
  pub next : Addr

-- The links of all objects of one type, by address.
abbrev pub Items : Type 0
Items = Addr → ListItem

pub record ListHead : Type 0 where
  pub first : Addr
  pub last : Addr
  pub size : ℤ

-- List_init
abbrev pub list_init : ListHead
list_init = record { first = 0; last = 0; size = pos 0 }

unfoldable pub set_prev : Items → Addr → Addr → Items
set_prev h a v b = if b == a then record (h b) { prev = v } else h b

unfoldable pub set_next : Items → Addr → Addr → Items
set_next h a v b = if b == a then record (h b) { next = v } else h b

-- `while (aux) { if (test(aux)) return aux; aux = aux->next; } return 0;`, on fuel.
unfoldable pub scan : (Addr → Bool) → ℕ → Items → Addr → Option Addr
scan test zero h aux = none
scan test (suc fuel) h aux =
    let rest = scan test fuel h (h aux).next in
    if aux == 0 then some 0 else if test aux then some aux else rest

-- Enough rounds for a walk over the list of a well-formed head.
abbrev pub rounds : ListHead → ℕ
rounds head = suc (pos_part head.size)

-- List_find
unfoldable pub find : Items → ListHead → Addr → Option Addr
unfolding scan
find h head item = scan (λ aux. aux == item) (rounds head) h head.first

-- What a list operation leaves: the links, the head, and the pointer that is returned.
abbrev pub Linked : Type 0
Linked = Items × ListHead × Addr

-- The links that List_insert writes: those of `prev` and `item`, then those of `item` and `next`.
unfoldable pub link_prev : Items → Addr → Addr → Items
unfolding set_prev set_next
link_prev h prev item = if prev == 0 then h else set_next (set_prev h item prev) prev item

unfoldable pub link_next : Items → Addr → Addr → Items
unfolding set_prev set_next
link_next h next item = if next == 0 then h else set_prev (set_next h item next) next item

-- The element behind `prev`, or the first one.
unfoldable pub successor : Items → ListHead → Addr → Addr
successor h head prev = if prev == 0 then head.first else (h prev).next

insert_between : Items → ListHead → Addr → Addr → Addr → Linked
unfolding link_prev link_next
insert_between h head prev next item = (
  link_next (link_prev h prev item) next item,
  record {
    first = if prev == 0 then item else head.first;
    last = if next == 0 then item else head.last;
    size = head.size +ℤ pos 1;
  },
  item,
)

-- List_insert: an item whose links are set already is refused.
unfoldable pub insert : Items → ListHead → Addr → Addr → Option Linked
unfolding insert_between successor
insert h head prev item =
    if item == 0
    then none
    else if not ((h item).next == 0) || not ((h item).prev == 0)
    then some (h, head, 0)
    else some (insert_between h head prev (successor h head prev) item)

-- The links that List_detach writes.
unfoldable pub bypass_next : Items → Addr → Addr → Items
unfolding set_next
bypass_next h prev next = if prev == 0 then h else set_next h prev next

unfoldable pub bypass_prev : Items → Addr → Addr → Items
unfolding set_prev
bypass_prev h next prev = if next == 0 then h else set_prev h next prev

unfoldable pub unlink : Items → Addr → Items
unfolding set_prev set_next
unlink h item = set_prev (set_next h item 0) item 0

detach_between : Items → ListHead → Addr → Addr → Addr → Linked
unfolding bypass_next bypass_prev unlink
detach_between h head prev next item = (
  unlink (bypass_prev (bypass_next h prev next) next prev) item,
  record {
    first = if item == head.first then next else head.first;
    last = if item == head.last then prev else head.last;
    size = head.size -ℤ pos 1;
  },
  item,
)

-- List_detach
unfoldable pub detach : Items → ListHead → Addr → Option Linked
unfolding detach_between
detach h head item =
    if item == 0 then none else some (detach_between h head (h item).prev (h item).next item)
