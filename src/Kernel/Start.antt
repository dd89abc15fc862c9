-- ===== src/Kernel/Start.antt =====
-- disastrOS_start and the initialisers that it calls: PCB_init, Timer_init, Descriptor_init,
-- mq_init, m_init and StandardResource_init. The addresses of the static buffers and the sizes of
-- the structs are the compiler's.
pub mod Boot
use messages_queue_disastros.Prelude.{ℕ, ◌*◌, ◌+◌, Option, some, ◌>>=◌, ℤ, pos, to_int}
use messages_queue_disastros.Constants.{
  max_num_processes, max_num_resources, max_num_descriptors_per_process, m_for_mq,
}
use messages_queue_disastros.LinkedList.{list_init}
use messages_queue_disastros.PoolAllocator.{PoolAllocator, Block, int_size, init}
use messages_queue_disastros.Process.{pcb_alloc, running}
use messages_queue_disastros.Timer.{timer_list_init}
use messages_queue_disastros.MessageQueue.{assert_success}
use messages_queue_disastros.Kernel.{Kernel, pcb_of, set_pcb}

-- A static buffer and the size of the struct that it holds.
pub record Area : Type 0 where
  pub block : Block
  pub struct_size : ℕ

pub record Layout : Type 0 where
  pub pcb_area : Area
  pub pcb_ptr_area : Area
  pub timer_item_area : Area
  pub descriptor_area : Area
  pub descriptor_ptr_area : Area
  pub mq_area : Area
  pub m_area : Area
  pub standard_resource_area : Area

-- PoolAllocator_init for `num_items` items in a buffer with room for `capacity`, and the assertion
-- on its result. The size of the buffer becomes the `int` of the parameter.
unfoldable pub init_pool : PoolAllocator → Area → (num_items capacity : ℕ) → Option PoolAllocator
init_pool old area num_items capacity = do
  (result, pool) ←
      init old area.struct_size num_items area.block
        (to_int (pos (capacity * (area.struct_size + int_size))))
  assert_success result (some pool)

-- MAX_NUM_DESCRIPTORS
abbrev pub max_num_descriptors : ℕ
max_num_descriptors = max_num_descriptors_per_process * max_num_processes

-- PCB_init
unfoldable pub init_processes : Layout → Kernel → Option Kernel
unfolding init_pool
init_processes l k = do
  pcbs ← init_pool k.processes.pcb_allocator l.pcb_area max_num_processes max_num_processes
  ptrs ← init_pool k.processes.pcb_ptr_allocator l.pcb_ptr_area max_num_processes max_num_processes
  some (record k {
    processes = record k.processes { pcb_allocator = pcbs; pcb_ptr_allocator = ptrs };
  })

-- Timer_init
unfoldable pub init_timers : Layout → Kernel → Option Kernel
unfolding init_pool
init_timers l k = do
  pool ←
      init_pool k.timing.timer_item_allocator l.timer_item_area max_num_processes max_num_processes
  some (record k { timing = record k.timing { timer_item_allocator = pool } })

-- Descriptor_init: the buffers have room for `max_num_descriptors`, the pools hold fewer.
unfoldable pub init_descriptors : Layout → Kernel → Option Kernel
unfolding init_pool
init_descriptors l k = do
  descriptors ←
      init_pool k.files.descriptor_allocator l.descriptor_area max_num_processes max_num_descriptors
  ptrs ←
      init_pool k.files.descriptor_ptr_allocator l.descriptor_ptr_area max_num_processes
        max_num_descriptors
  some (record k {
    files = record k.files { descriptor_allocator = descriptors; descriptor_ptr_allocator = ptrs };
  })

-- mq_init and m_init: the buffer has room for `m_for_mq` messages in each queue, the pool for one.
unfoldable pub init_queues : Layout → Kernel → Option Kernel
unfolding init_pool
init_queues l k = do
  queues ← init_pool k.devices.mq_allocator l.mq_area max_num_resources max_num_resources
  messages ← init_pool k.mail.m_allocator l.m_area max_num_resources (m_for_mq * max_num_resources)
  some (record k {
    devices = record k.devices { mq_allocator = queues };
    mail = record k.mail { m_allocator = messages };
  })

-- StandardResource_init
unfoldable pub init_standard_resources : Layout → Kernel → Option Kernel
unfolding init_pool
init_standard_resources l k = do
  pool ←
      init_pool k.devices.standard_resources_allocator l.standard_resource_area max_num_resources
        max_num_resources
  some (record k { devices = record k.devices { standard_resources_allocator = pool } })

-- `List_init` of the scheduling lists.
unfoldable pub init_lists : Kernel → Kernel
init_lists k = record k {
  current = 0;
  ready_list = list_init;
  waiting_list = list_init;
  zombie_list = list_init;
  devices = record k.devices { resources_list = list_init };
  timing = timer_list_init k.timing;
}

-- The first process, which runs `f` on `f_args`.
unfoldable pub start_first : Kernel → (f f_args : ℤ) → Option Kernel
start_first k f f_args = do
  (p, processes) ← pcb_alloc k.processes
  let k1 = record k { processes = processes; current = p; init_pcb = p }
  some (
      set_pcb k1 p (record (pcb_of k1 p) {
        status = running;
        cpu_state = record { function = f; argument = f_args };
      }))

-- disastrOS_start, up to the jump to the first process.
unfoldable pub disastros_start : Layout → Kernel → (f f_args : ℤ) → Option Kernel
unfolding init_processes init_timers init_descriptors init_queues init_standard_resources init_lists
    start_first
disastros_start l k f f_args = do
  k1 ← init_processes l k
  k2 ← init_timers l k1
  k3 ← init_descriptors l k2
  k4 ← init_queues l k3
  k5 ← init_standard_resources l (record k4 { init_pcb = 0 })
  start_first (init_lists k5) f f_args
