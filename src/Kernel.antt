-- ===== src/Kernel.antt =====
-- disastrOS_globals.h: the state of the kernel, and the steps that the system calls share. `none`
-- is a fault: a field read or written through NULL, or an assertion that fails.
pub mod Mailbox
pub mod Files
pub mod Creation
pub mod Termination
pub mod Waiting
pub mod Dispatch
pub mod Api
pub mod Start
pub mod Scheduling
use messages_queue_disastros.Prelude.{
  ℕ, Bool, Option, none, some, ◌>>=◌, ◌==◌, if◌then◌else◌, update, ℤ,
}
use messages_queue_disastros.LinkedList
use messages_queue_disastros.LinkedList.{Addr, ListHead}
use messages_queue_disastros.Process.{Pcb, Processes}
use messages_queue_disastros.Timer.{Timers}
use messages_queue_disastros.Descriptor.{Descriptors}
use messages_queue_disastros.Resource.{Resources}
use messages_queue_disastros.Message.{Messages}

-- The memory of the processes, reached by the pointers that they pass: characters and ints.
pub record UserMemory : Type 0 where
  pub chars : ℤ → ℕ
  pub ints : ℤ → ℤ

pub record Kernel : Type 0 where
  pub processes : Processes
  pub timing : Timers
  pub files : Descriptors
  pub devices : Resources
  pub mail : Messages
  pub user : UserMemory
  pub current : Addr
  pub init_pcb : Addr
  pub ready_list : ListHead
  pub waiting_list : ListHead
  pub zombie_list : ListHead
  pub time : ℤ
  pub shutdown_now : Bool

-- The block that a pointer to a PCB points to.
abbrev pub pcb_of : Kernel → Addr → Pcb
pcb_of k p = k.processes.pcbs p

abbrev pub set_pcb : Kernel → Addr → Pcb → Kernel
set_pcb k p pcb = record k {
  processes = record k.processes { pcbs = update k.processes.pcbs p pcb };
}

-- `running->syscall_args[i]`
abbrev pub arg : Kernel → ℕ → ℤ
arg k i = (pcb_of k k.current).syscall_args i

-- `running->syscall_retvalue = value`
abbrev pub set_retvalue : Kernel → ℤ → Kernel
set_retvalue k value =
    set_pcb k k.current (record (pcb_of k k.current) { syscall_retvalue = value })

-- List_insert and List_detach on the lists of PCBs, all of which use the links in the PCBs.
unfoldable pub insert_pcb : Kernel → ListHead → (prev item : Addr) → Option (Kernel × ListHead)
insert_pcb k head prev item = do
  (items, head', _) ← LinkedList.insert k.processes.pcb_items head prev item
  some (record k { processes = record k.processes { pcb_items = items } }, head')

unfoldable pub detach_pcb : Kernel → ListHead → Addr → Option (Kernel × ListHead)
detach_pcb k head item = do
  (items, head', _) ← LinkedList.detach k.processes.pcb_items head item
  some (record k { processes = record k.processes { pcb_items = items } }, head')
