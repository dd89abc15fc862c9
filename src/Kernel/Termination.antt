-- ===== src/Kernel/Termination.antt =====
-- disastrOS_exit.c.
use Prim.Native.Nat.{bit_and, bit_or}
use messages_queue_disastros.Prelude.{
  ℕ, zero, suc, Bool, true, false, ◌&&◌, ◌||◌, Option, none, some, ◌>>=◌, ◌==◌, if◌then◌else◌, ℤ,
  pos, eqb_ℤ, to_int, update,
}
use messages_queue_disastros.Constants.{call_wait, dsos_sighup, dsos_sigchld}
use messages_queue_disastros.LinkedList
use messages_queue_disastros.LinkedList.{Addr, rounds}
use messages_queue_disastros.Process.{
  ProcessStatus, invalid, created, running, ready, waiting, suspended, zombie, pcb_free,
  pcb_ptr_by_pid,
}
use messages_queue_disastros.Timer.{timer_item_free}
use messages_queue_disastros.Descriptor.{descriptor_free, descriptor_ptr_free}
use messages_queue_disastros.Kernel.{Kernel, pcb_of, set_pcb, arg, insert_pcb, detach_pcb}

-- `pcb->signals |= (signal & pcb->signals_mask)`
abbrev pub send_signal : Kernel → Addr → ℕ → Kernel
send_signal k p signal =
    let pcb = pcb_of k p in
    set_pcb k p (record pcb { signals = bit_or pcb.signals (bit_and signal pcb.signals_mask) })

-- One round of the loop that hands the children over to init.
unfoldable pub reparent_one : Kernel → Option Kernel
reparent_one k = do
  let own = (pcb_of k k.current).children
  (items1, own', item) ← LinkedList.detach k.processes.pcb_ptr_items own own.first
  let k1 = set_pcb k k.current (record (pcb_of k k.current) { children = own' })
  let theirs = (pcb_of k1 k.init_pcb).children
  (items2, theirs', _) ← LinkedList.insert items1 theirs theirs.last item
  let k2 = set_pcb k1 k.init_pcb (record (pcb_of k1 k.init_pcb) { children = theirs' })
  some (
      send_signal (record k2 { processes = record k2.processes { pcb_ptr_items = items2 } })
        (k.processes.pcb_ptrs item) dsos_sighup)

unfoldable pub reparent : ℕ → Kernel → Option Kernel
unfolding reparent_one
reparent zero k = none
reparent (suc fuel) k = elim ((pcb_of k k.current).children.first == 0) [
  | true ↦ some k
  | false ↦ reparent_one k >>= λ k'. reparent fuel k'
]

-- The loop that releases the timers of the running process.
unfoldable pub release_timers : ℕ → Kernel → Addr → Option Kernel
release_timers zero k aux = none
release_timers (suc fuel) k aux = elim (aux == 0) [
  | true ↦ some k
  | false ↦
      let next = (k.timing.timer_items aux).next in
      elim ((k.timing.timers aux).pcb == k.current) [
        | false ↦ release_timers fuel k next
        | true ↦ (do
          (items, list, _) ← LinkedList.detach k.timing.timer_items k.timing.timer_list aux
          (_, timing) ←
              timer_item_free (record k.timing { timer_items = items; timer_list = list }) aux
          release_timers fuel (record k { timing = timing }) next)
      ]
]

-- One round of the loop that closes the descriptors of the running process.
unfoldable pub release_descriptor : Kernel → Option Kernel
release_descriptor k = do
  let own = (pcb_of k k.current).descriptors
  let des = own.first
  (items, own', _) ← LinkedList.detach k.files.descriptor_items own des
  let k1 = set_pcb k k.current (record (pcb_of k k.current) { descriptors = own' })
  let res = (k.files.descriptors des).resource
  let ptr = (k.files.descriptors des).ptr
  (ptr_items, theirs, _) ←
      LinkedList.detach k.files.descriptor_ptr_items (k.devices.resources res).descriptors_ptrs ptr
  (_, files1) ←
      descriptor_ptr_free
        (record k.files { descriptor_items = items; descriptor_ptr_items = ptr_items }) ptr
  (_, files2) ← descriptor_free files1 des
  some (record k1 {
    files = files2;
    devices = record k.devices {
      resources =
          update k.devices.resources res
            (record (k.devices.resources res) { descriptors_ptrs = theirs });
    };
  })

unfoldable pub release_descriptors : ℕ → Kernel → Option Kernel
unfolding release_descriptor
release_descriptors zero k = none
release_descriptors (suc fuel) k = elim ((pcb_of k k.current).descriptors.first == 0) [
  | true ↦ some k
  | false ↦ release_descriptor k >>= λ k'. release_descriptors fuel k'
]

abbrev pub is_waiting : ProcessStatus → Bool
is_waiting waiting = true
is_waiting invalid = false
is_waiting created = false
is_waiting running = false
is_waiting ready = false
is_waiting suspended = false
is_waiting zombie = false

-- The parent waits for this process, or for any.
unfoldable pub parent_waits : Kernel → Addr → Bool
parent_waits k parent =
    let p = pcb_of k parent in
    is_waiting p.status
    && eqb_ℤ p.syscall_num call_wait
    && (eqb_ℤ (p.syscall_args 0) (pos 0) || eqb_ℤ (p.syscall_args 0) (pcb_of k k.current).pid)

-- `if (result) *result = value;`
abbrev pub store_result : Kernel → ℤ → ℤ → Kernel
store_result k result value = if eqb_ℤ result (pos 0) then k else record k {
  user = record k.user { ints = λ p. if eqb_ℤ p result then value else k.user.ints p };
}

-- The waiting parent is woken, and the process dies at once.
unfoldable pub wake_parent : Kernel → Addr → Option Kernel
unfolding release_timers release_descriptors
wake_parent k parent = do
  let self = k.current
  (k1, waiting') ← detach_pcb k k.waiting_list parent
  let k2 =
      set_pcb (record k1 { waiting_list = waiting' }) parent
        (record (pcb_of k1 parent) { status = running })
  let children = (pcb_of k2 parent).children
  self_in_parent ← pcb_ptr_by_pid k2.processes children (pcb_of k2 self).pid
  (ptr_items, children', _) ← LinkedList.detach k2.processes.pcb_ptr_items children self_in_parent
  let k3 = record k2 { processes = record k2.processes { pcb_ptr_items = ptr_items } }
  let k4 =
      set_pcb k3 parent (record (pcb_of k3 parent) {
        children = children';
        syscall_retvalue = (pcb_of k3 self).pid;
      })
  let k5 = store_result k4 ((pcb_of k4 parent).syscall_args 1) (pcb_of k4 self).return_value
  k6 ← release_timers (rounds k5.timing.timer_list) k5 k5.timing.timer_list.first
  k7 ← release_descriptors (rounds (pcb_of k6 self).descriptors) k6
  (k8, zombies) ← detach_pcb k7 k7.zombie_list self
  (_, processes) ← pcb_free k8.processes self
  some (record k8 { processes = processes; zombie_list = zombies; current = parent })

-- The process stays a zombie, and the first ready one runs.
unfoldable pub leave_zombie : Kernel → Option Kernel
leave_zombie k = do
  let next_running = k.ready_list.first
  (k1, ready') ← detach_pcb k k.ready_list next_running
  let k2 = set_pcb k1 next_running (record (pcb_of k1 next_running) { status = running })
  some (record k2 { ready_list = ready'; current = next_running })

-- internal_exit
unfoldable pub internal_exit : Kernel → Option Kernel
unfolding reparent parent_waits wake_parent leave_zombie
internal_exit k = if (k.current == 0) || (k.init_pcb == 0) then none else (do
  let self = k.current
  let k0 = set_pcb k self (record (pcb_of k self) { return_value = to_int (arg k 0) })
  k1 ← reparent (rounds (pcb_of k0 self).children) k0
  let k2 = set_pcb k1 self (record (pcb_of k1 self) { status = zombie })
  (k3, zombies) ← insert_pcb k2 k2.zombie_list k2.zombie_list.last self
  let k4 = record k3 { zombie_list = zombies }
  let parent = (pcb_of k4 self).parent
  if parent == 0 then none else (do
    let k5 = send_signal k4 parent dsos_sigchld
    if parent_waits k5 parent then wake_parent k5 parent else leave_zombie k5))
