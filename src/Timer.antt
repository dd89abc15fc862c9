-- ===== src/Timer.antt =====
-- disastrOS_timer.h and disastrOS_timer.c: the timers, in a list sorted by the time at which they
-- elapse. `none` is a fault.
pub mod Sorted
pub mod Add
pub mod Current
use messages_queue_disastros.Prelude.{
  ℕ, zero, suc, Option, none, some, ◌>>=◌, ◌==◌, if◌then◌else◌, update, ℤ, pos, negsuc, ltb_ℤ,
}
use messages_queue_disastros.LinkedList
use messages_queue_disastros.LinkedList.{Addr, Items, ListHead, list_init, unlink, rounds}
use messages_queue_disastros.PoolAllocator.{
  PoolAllocator, PoolAllocatorResult, get_block, release_block,
}

pub record TimerItem : Type 0 where
  pub awakening_time : ℤ
  pub pcb : Addr

-- The allocator, its blocks and the list.
pub record Timers : Type 0 where
  pub timer_item_allocator : PoolAllocator
  pub timers : Addr → TimerItem
  pub timer_items : Items
  pub timer_list : ListHead

-- TimerItem_alloc
unfoldable pub timer_item_alloc : Timers → ℤ → Addr → Option (Addr × Timers)
timer_item_alloc s awakening_time pcb = do
  (item, pool) ← get_block s.timer_item_allocator
  if item == 0
      then some (0, record s { timer_item_allocator = pool })
      else some (
        item,
        record s {
          timer_item_allocator = pool;
          timer_items = unlink s.timer_items item;
          timers = update s.timers item (record { awakening_time = awakening_time; pcb = pcb });
        },
      )

-- TimerItem_free
unfoldable pub timer_item_free : Timers → Addr → Option (PoolAllocatorResult × Timers)
timer_item_free s item = do
  (result, pool) ← release_block s.timer_item_allocator item
  some (result, record s { timer_item_allocator = pool })

-- TimerList_init
unfoldable pub timer_list_init : Timers → Timers
timer_list_init s = record s { timer_list = list_init }

-- The loop of TimerList_add: the last item that does not elapse later than the new one.
unfoldable pub position : ℕ → Timers → ℤ → (aux previous_item : Addr) → Option Addr
position zero s awakening_time aux previous_item = none
position (suc fuel) s awakening_time aux previous_item =
    let rest = position fuel s awakening_time (s.timer_items aux).next aux in
    if aux == 0
    then some previous_item
    else if ltb_ℤ awakening_time (s.timers aux).awakening_time
    then some previous_item
    else rest

-- TimerList_add
unfoldable pub timer_list_add : Timers → ℤ → Addr → Option (Addr × Timers)
unfolding timer_item_alloc position
timer_list_add s awakening_time pcb = do
  previous_item ← position (rounds s.timer_list) s awakening_time s.timer_list.first 0
  (new_item, s1) ← timer_item_alloc s awakening_time pcb
  if new_item == 0 then some (0, s1) else (do
    (items, head, _) ← LinkedList.insert s1.timer_items s1.timer_list previous_item new_item
    some (new_item, record s1 { timer_items = items; timer_list = head }))

-- TimerList_current
unfoldable pub timer_list_current : Timers → ℤ → Addr
timer_list_current s current_time =
    if s.timer_list.first == 0
    then 0
    else if ltb_ℤ current_time (s.timers s.timer_list.first).awakening_time
    then 0
    else s.timer_list.first

-- TimerList_removeCurrent; List_detach never returns NULL, so the test for it stands for nothing.
unfoldable pub timer_list_remove_current : Timers → Option (ℤ × Timers)
unfolding timer_item_free
timer_list_remove_current s = do
  (items, head, item) ← LinkedList.detach s.timer_items s.timer_list s.timer_list.first
  if item == 0 then some (negsuc 0, record s { timer_items = items; timer_list = head }) else (do
    (_, s1) ← timer_item_free (record s { timer_items = items; timer_list = head }) item
    some (pos 0, s1))
