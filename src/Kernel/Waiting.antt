-- ===== src/Kernel/Waiting.antt =====
-- disastrOS_wait.c.
pub mod Block
pub mod Unknown
use messages_queue_disastros.Prelude.{
  ℕ, zero, suc, Bool, true, false, not, ◌&&◌, ◌||◌, Option, none, some, ◌>>=◌, ◌==◌, if◌then◌else◌,
  ℤ, pos, ltb_ℤ, eqb_ℤ, to_int,
}
use messages_queue_disastros.Constants.{e_wait}
use messages_queue_disastros.LinkedList
use messages_queue_disastros.LinkedList.{Addr, rounds}
use messages_queue_disastros.Process.{
  ProcessStatus, invalid, created, running, ready, waiting, suspended, zombie, pcb_free,
  pcb_ptr_free,
}
use messages_queue_disastros.Kernel.{
  Kernel, pcb_of, set_pcb, arg, set_retvalue, insert_pcb, detach_pcb,
}
use messages_queue_disastros.Kernel.Termination.{store_result}

abbrev pub is_zombie : ProcessStatus → Bool
is_zombie zombie = true
is_zombie invalid = false
is_zombie created = false
is_zombie running = false
is_zombie ready = false
is_zombie waiting = false
is_zombie suspended = false

-- The tests at which the scan of the children stops, on the process of a child's pointer.
unfoldable pub is_awaited : Kernel → ℤ → Addr → Option Bool
is_awaited k pid_to_wait ptr =
    let awaited_pcb = k.processes.pcb_ptrs ptr in
    let pcb = pcb_of k awaited_pcb in
    if awaited_pcb == 0
    then none
    else some (
        (eqb_ℤ pid_to_wait (pos 0) && is_zombie pcb.status)
        || (not (eqb_ℤ pid_to_wait (pos 0)) && eqb_ℤ pcb.pid pid_to_wait))

-- The scan: the pointer at which it stops, or the last one that it has seen.
unfoldable pub scan_children : ℕ → Kernel → ℤ → (aux awaited_pcb_ptr : Addr) → Option Addr
unfolding is_awaited
scan_children zero k pid_to_wait aux awaited_pcb_ptr = none
scan_children (suc fuel) k pid_to_wait aux awaited_pcb_ptr =
    let rest = scan_children fuel k pid_to_wait (k.processes.pcb_ptr_items aux).next aux in
    if aux == 0
    then some awaited_pcb_ptr
    else (is_awaited k pid_to_wait aux >>= λ stop. if stop then some aux else rest)

-- The zombie's value is returned and its memory is freed.
unfoldable pub reap : Kernel → (ptr pcb : Addr) → Option Kernel
reap k ptr pcb = do
  let children = (pcb_of k k.current).children
  (items, children', _) ← LinkedList.detach k.processes.pcb_ptr_items children ptr
  (_, processes1) ← pcb_ptr_free (record k.processes { pcb_ptr_items = items }) ptr
  let k1 = record k { processes = processes1 }
  let k2 = set_pcb k1 k.current (record (pcb_of k1 k.current) { children = children' })
  (k3, zombies) ← detach_pcb k2 k2.zombie_list pcb
  let k4 = set_retvalue (record k3 { zombie_list = zombies }) (pcb_of k3 pcb).pid
  let k5 = store_result k4 (arg k 1) (pcb_of k4 pcb).return_value
  (_, processes2) ← pcb_free k5.processes pcb
  some (record k5 { processes = processes2 })

-- The process waits, and the first ready one runs.
unfoldable pub block_running : Kernel → Option Kernel
block_running k = do
  let k1 = set_pcb k k.current (record (pcb_of k k.current) { status = waiting })
  (k2, waiting') ← insert_pcb k1 k.waiting_list k.waiting_list.last k.current
  let next_running = k.ready_list.first
  (k3, ready') ← detach_pcb k2 k.ready_list next_running
  some (record k3 { waiting_list = waiting'; ready_list = ready'; current = next_running })

-- The error, the reaping or the wait, once the scan has ended at a child.
unfoldable pub await_child : Kernel → ℤ → Addr → Option Kernel
unfolding reap block_running
await_child k pid_to_wait awaited_pcb_ptr =
    let awaited_pcb = k.processes.pcb_ptrs awaited_pcb_ptr in
    if ltb_ℤ (pos 0) pid_to_wait && (awaited_pcb == 0)
    then some (set_retvalue k e_wait)
    else if not (awaited_pcb == 0) && is_zombie (pcb_of k awaited_pcb).status
    then reap k awaited_pcb_ptr awaited_pcb
    else block_running k

-- internal_wait
unfoldable pub internal_wait : Kernel → Option Kernel
unfolding scan_children await_child
internal_wait k =
    let pid_to_wait = to_int (arg k 0) in
    let children = (pcb_of k k.current).children in
    if k.current == 0
    then none
    else if children.first == 0
    then some (set_retvalue k e_wait)
    else (scan_children (rounds children) k pid_to_wait children.first 0
        >>= await_child k pid_to_wait)
