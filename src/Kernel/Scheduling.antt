-- ===== src/Kernel/Scheduling.antt =====
-- disastrOS_schedule.c, disastrOS_preempt.c, disastrOS_sleep.c and disastrOS_shutdown.c.
pub mod Switch
pub mod Wake
pub mod Sleepers
pub mod Awaken
pub mod Tick
pub mod Sleep
use messages_queue_disastros.Prelude.{
  ℕ, zero, suc, true, false, not, Option, none, some, ◌>>=◌, ◌==◌, if◌then◌else◌, ℤ, pos, ◌+ℤ◌,
  to_int,
}
use messages_queue_disastros.Constants.{e_sleep}
use messages_queue_disastros.LinkedList.{Addr, rounds}
use messages_queue_disastros.Process.{Pcb, ready, waiting, running}
use messages_queue_disastros.Timer.{timer_list_add, timer_list_current, timer_list_remove_current}
use messages_queue_disastros.Kernel.{
  Kernel, pcb_of, set_pcb, arg, set_retvalue, insert_pcb, detach_pcb,
}

-- One round of the loop of internal_schedule: the process of the elapsed timer leaves the waiting
-- list and enters the ready list behind the processes that were woken before it.
unfoldable pub wake_one : Kernel → (elapsed_timer previous_pcb : Addr) → Option (Addr × Kernel)
wake_one k elapsed_timer previous_pcb = do
  let pcb_to_wake = (k.timing.timers elapsed_timer).pcb
  (k1, waiting') ← detach_pcb k k.waiting_list pcb_to_wake
  let k2 = set_pcb k1 pcb_to_wake (record (pcb_of k1 pcb_to_wake) { status = ready; timer = 0 })
  (k3, ready') ← insert_pcb k2 k.ready_list previous_pcb pcb_to_wake
  (_, timing) ← timer_list_remove_current k.timing
  some (pcb_to_wake, record k3 { waiting_list = waiting'; ready_list = ready'; timing = timing })

-- The loop of internal_schedule.
unfoldable pub wake_elapsed : ℕ → Kernel → Addr → Option Kernel
unfolding wake_one
wake_elapsed zero k previous_pcb = none
wake_elapsed (suc fuel) k previous_pcb =
    let elapsed_timer = timer_list_current k.timing k.time in
    elim (elapsed_timer == 0) [
      | true ↦ some k
      | false ↦ wake_one k elapsed_timer previous_pcb >>= λ (woken, k'). wake_elapsed fuel k' woken
    ]

-- The second half of internal_schedule: the first ready process runs, and the one that ran becomes
-- the last ready one.
unfoldable pub switch : Kernel → Option Kernel
switch k = if k.ready_list.first == 0 then some k else (do
  let next_process = k.ready_list.first
  (k1, ready1) ← detach_pcb k k.ready_list next_process
  if k.current == 0 then none else (do
    let k2 = set_pcb k1 k.current (record (pcb_of k1 k.current) { status = ready })
    (k3, ready2) ← insert_pcb k2 ready1 ready1.last k.current
    let k4 = set_pcb k3 next_process (record (pcb_of k3 next_process) { status = running })
    some (record k4 { ready_list = ready2; current = next_process })))

-- internal_schedule
unfoldable pub internal_schedule : Kernel → Option Kernel
unfolding wake_elapsed switch
internal_schedule k = do k' ← wake_elapsed (rounds k.timing.timer_list) k 0; switch k'

-- internal_preempt
unfoldable pub internal_preempt : Kernel → Option Kernel
unfolding internal_schedule
internal_preempt k = internal_schedule k

-- internal_sleep. TimerList_add does not store the timer in the PCB.
unfoldable pub internal_sleep : Kernel → Option Kernel
internal_sleep k =
    if k.current == 0
    then none
    else if not ((pcb_of k k.current).timer == 0)
    then some (set_retvalue k e_sleep)
    else (do
      let wake_time = k.time +ℤ to_int (arg k 0)
      (new_timer, timing) ← timer_list_add k.timing wake_time k.current
      let k1 = record k { timing = timing }
      if new_timer == 0 then some (set_retvalue k1 e_sleep) else (do
        let k2 = set_pcb k1 k.current (record (pcb_of k1 k.current) { status = waiting })
        (k3, waiting') ← insert_pcb k2 k.waiting_list k.waiting_list.last k.current
        let k4 = record k3 { waiting_list = waiting' }
        if k.ready_list.first == 0 then some (record k4 { current = 0 }) else (do
          (k5, ready') ← detach_pcb k4 k.ready_list k.ready_list.first
          some (record k5 { ready_list = ready'; current = k.ready_list.first }))))

-- internal_shutdown, up to the jump to the main context.
unfoldable pub internal_shutdown : Kernel → Kernel
internal_shutdown k = record k { shutdown_now = true }
