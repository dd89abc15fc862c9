-- ===== src/Examples/Lists.antt =====
-- Lists of one and two items.
use messages_queue_disastros.Prelude.{◌≡◌, refl, some, [], ◌∷◌, arith, pos, ◌==◌, if◌then◌else◌}
use messages_queue_disastros.LinkedList.{Items, ListHead, Linked, insert, detach, find}
use messages_queue_disastros.LinkedList.Chain.{IsList}
use messages_queue_disastros.LinkedList.Insert.Guard.{Decided, insert-Decided}
use messages_queue_disastros.LinkedList.Detach.{Detached, detach-Detached}
use messages_queue_disastros.LinkedList.Find.{find-has}

-- The items 1 and 2 are linked, all others are loose.
abbrev pub two_items : Items
two_items a =
    if a == 1
    then record { prev = 0; next = 2 }
    else if a == 2
    then record { prev = 1; next = 0 }
    else record { prev = 0; next = 0 }

abbrev pub two_head : ListHead
two_head = record { first = 1; last = 2; size = pos 2 }

pub two-IsList : IsList two_items two_head (1 ∷ 2 ∷ [])
two-IsList = record {
  first = refl;
  last = refl;
  size = refl;
  chain = (λ e. omega (arith, e), refl, refl, (λ e. omega (arith, e), refl, refl, tt));
  distinct = (refl, (refl, tt));
}

insert-Decided_example :
    (r : Linked) × (insert two_items two_head 1 3 ≡ some r)
    × Decided two_items two_head (1 ∷ []) (2 ∷ []) 3 r
insert-Decided_example = insert-Decided (1 ∷ []) (2 ∷ []) two-IsList (λ e. omega (arith, e)) refl

detach-Detached_example :
    (r : Linked) × (detach two_items two_head 1 ≡ some r) × Detached two_items [] (2 ∷ []) 1 r
detach-Detached_example = detach-Detached 1 [] (2 ∷ []) two-IsList

find-has_example : find two_items two_head 2 ≡ some 2
find-has_example = find-has 2 (1 ∷ 2 ∷ []) two-IsList
