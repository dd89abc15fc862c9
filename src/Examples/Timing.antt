-- ===== src/Examples/Timing.antt =====
-- Two timers, which elapse at the times 5 and 9.
use messages_queue_disastros.Prelude.{
  ◌≡◌, refl, ◌≢◌, ◌⊎◌, true, some, List, [], ◌∷◌, pos, if◌then◌else◌, ◌==◌,
}
use messages_queue_disastros.LinkedList.{Addr}
use messages_queue_disastros.LinkedList.Chain.{has}
use messages_queue_disastros.Timer.{
  Timers, timer_list_add, timer_list_current, timer_list_remove_current,
}
use messages_queue_disastros.Timer.Sorted.{IsTimers}
use messages_queue_disastros.Timer.Add.{Added, timer_list_add-Added}
use messages_queue_disastros.Timer.Current.{
  HasElapsed, timer_list_current-HasElapsed, Removed, timer_list_remove_current-Removed,
}
use messages_queue_disastros.Examples.Pools.{
  two_taken, two_taken-IsPool, two-IsLive, two-used, linked_blocks, blocks_head, blocks-IsList,
}

abbrev pub two_timers : Timers
two_timers = record {
  timer_item_allocator = two_taken;
  timers = λ a. record { awakening_time = if a == 1000 then pos 5 else pos 9; pcb = 640 };
  timer_items = linked_blocks;
  timer_list = blocks_head;
}

pub two-IsTimers : IsTimers two_timers (2 ∷ []) (1000 ∷ 1016 ∷ [])
two-IsTimers = record {
  pool = two_taken-IsPool;
  list = blocks-IsList;
  live = two-IsLive;
  used = two-used;
  sorted = ((refl, tt), (tt, tt));
}

timer_list_add-Added_example :
    (item : Addr) × (s' : Timers) × (timer_list_add two_timers (pos 7) 600 ≡ some (item, s'))
    × Added two_timers (pos 7) 600 [] (1000 ∷ 1016 ∷ []) item s'
timer_list_add-Added_example = timer_list_add-Added 2 [] (pos 7) 600 two-IsTimers

timer_list_current-HasElapsed_example :
    ((timer_list_current two_timers (pos 6) ≡ 0)
      × ((a : Addr) → has a (1000 ∷ 1016 ∷ []) ≡ true → ¬ HasElapsed two_timers.timers (pos 6) a))
    ⊎ ((x : Addr) × (rest : List Addr) × (1000 ∷ 1016 ∷ [] ≡ x ∷ rest)
        × (timer_list_current two_timers (pos 6) ≡ x)
        × (x ≢ 0)
        × HasElapsed two_timers.timers (pos 6) x)
timer_list_current-HasElapsed_example = timer_list_current-HasElapsed (pos 6) two-IsTimers

timer_list_remove_current-Removed_example :
    (s' : Timers) × (timer_list_remove_current two_timers ≡ some (pos 0, s'))
    × Removed two_timers (2 ∷ []) 1000 (1016 ∷ []) s'
timer_list_remove_current-Removed_example =
    timer_list_remove_current-Removed 1000 (1016 ∷ []) two-IsTimers
