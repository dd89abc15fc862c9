-- ===== src/Kernel/Creation.antt =====
-- disastrOS_fork.c and disastrOS_spawn.c.
pub mod Child
pub mod Created
pub mod Calls
use messages_queue_disastros.Prelude.{Option, none, some, ◌>>=◌, ◌==◌, if◌then◌else◌}
use messages_queue_disastros.LinkedList
use messages_queue_disastros.LinkedList.{Addr}
use messages_queue_disastros.Process.{pcb_alloc, pcb_ptr_alloc, ready}
use messages_queue_disastros.Kernel.{Kernel, pcb_of, set_pcb, arg, set_retvalue, insert_pcb}

-- What both system calls do: a new ready process that is a child of the running one. PCB_alloc
-- and PCBPtr_alloc fault where they have no block, so the tests for NULL stand for nothing.
unfoldable pub new_process : Kernel → Option (Addr × Kernel)
new_process k = if k.current == 0 then none else (do
  (new_pcb, processes1) ← pcb_alloc k.processes
  let k1 = record k { processes = processes1 }
  let k2 = set_pcb k1 new_pcb (record (pcb_of k1 new_pcb) { status = ready; parent = k.current })
  (new_pcb_ptr, processes2) ← pcb_ptr_alloc k2.processes new_pcb
  let children = (pcb_of k2 k.current).children
  (ptr_items, children', _) ←
      LinkedList.insert processes2.pcb_ptr_items children children.last new_pcb_ptr
  let k3 = record k2 { processes = record processes2 { pcb_ptr_items = ptr_items } }
  let k4 = set_pcb k3 k.current (record (pcb_of k3 k.current) { children = children' })
  (k5, ready') ← insert_pcb k4 k4.ready_list k4.ready_list.last new_pcb
  some (new_pcb, set_retvalue (record k5 { ready_list = ready' }) (pcb_of k5 new_pcb).pid))

-- internal_fork
unfoldable pub internal_fork : Kernel → Option Kernel
unfolding new_process
internal_fork k = do (_, k') ← new_process k; some k'

-- internal_spawn: the new process starts the function of the first argument on the second one.
unfoldable pub internal_spawn : Kernel → Option Kernel
unfolding new_process
internal_spawn k = do
  (new_pcb, k') ← new_process k
  some (
      set_pcb k' new_pcb (record (pcb_of k' new_pcb) {
        cpu_state = record { function = arg k' 0; argument = arg k' 1 };
      }))
