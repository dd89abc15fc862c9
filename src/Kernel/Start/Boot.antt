-- ===== src/Kernel/Start/Boot.antt =====
-- disastrOS_start: the pools, the lists and the first process that it leaves.
use messages_queue_disastros.Prelude.{ℕ, ◌+◌, ◌*◌, ◌^◌, ◌<◌, ◌≡◌, [], ℤ}
use messages_queue_disastros.Constants.{max_num_processes, max_num_resources, m_for_mq}
use messages_queue_disastros.LinkedList.{list_init}
use messages_queue_disastros.PoolAllocator.{PoolAllocator, int_size}
use messages_queue_disastros.PoolAllocator.Free.{IsPool}
use messages_queue_disastros.PoolAllocator.Init.{indices}
use messages_queue_disastros.PoolAllocator.Live.{IsLive}
use messages_queue_disastros.Process.{Pcb, running}
use messages_queue_disastros.Kernel.{Kernel, pcb_of}
use messages_queue_disastros.Kernel.Scheduling.Switch.{IsReady}
use messages_queue_disastros.Kernel.Start.{Area, Layout, max_num_descriptors}

-- A buffer has an address, its struct is not empty, and the buffer, which has room for `n` items,
-- has a size that is an int.
pub record Fits (area : Area) (n : ℕ) : Type 0 where
  pub block_pos : 0 < area.block
  pub size_pos : 0 < area.struct_size
  pub in_int : n * (area.struct_size + int_size) < 2 ^ 31

-- All `n` blocks of the buffer are free.
pub record IsFull (a : PoolAllocator) (area : Area) (n : ℕ) : Type 0 where
  pub pool : IsPool a (indices 0 n)
  pub buffer : a.buffer ≡ area.block
  pub item_size : a.item_size ≡ area.struct_size

-- Every buffer is as Fits says for the number of items that it has room for.
pub record IsLayout (l : Layout) : Type 0 where
  pub pcb : Fits l.pcb_area max_num_processes
  pub pcb_ptr : Fits l.pcb_ptr_area max_num_processes
  pub timer_item : Fits l.timer_item_area max_num_processes
  pub descriptor : Fits l.descriptor_area max_num_descriptors
  pub descriptor_ptr : Fits l.descriptor_ptr_area max_num_descriptors
  pub mq : Fits l.mq_area max_num_resources
  pub m : Fits l.m_area (m_for_mq * max_num_resources)
  pub standard_resource : Fits l.standard_resource_area max_num_resources

-- The kernel before the first process: its allocators are replaced and its lists are empty.
abbrev prepared :
    Kernel
    → (pcbs ptrs timer_items descriptors descriptor_ptrs queues messages standard : PoolAllocator)
    → Kernel
prepared k pcbs ptrs timer_items descriptors descriptor_ptrs queues messages standard = record k {
  processes = record k.processes { pcb_allocator = pcbs; pcb_ptr_allocator = ptrs };
  timing = record k.timing { timer_item_allocator = timer_items; timer_list = list_init };
  files = record k.files {
    descriptor_allocator = descriptors;
    descriptor_ptr_allocator = descriptor_ptrs;
  };
  devices = record k.devices {
    mq_allocator = queues;
    standard_resources_allocator = standard;
    resources_list = list_init;
  };
  mail = record k.mail { m_allocator = messages };
  current = 0;
  init_pcb = 0;
  ready_list = list_init;
  waiting_list = list_init;
  zombie_list = list_init;
}

-- The pools that the initialisers leave.
record Pools (l : Layout)
    (pcbs ptrs timer_items descriptors descriptor_ptrs queues messages standard : PoolAllocator)
    : Type 0 where
  pcb : IsFull pcbs l.pcb_area max_num_processes
  pcb_ptr : IsFull ptrs l.pcb_ptr_area max_num_processes
  timer_item : IsFull timer_items l.timer_item_area max_num_processes
  descriptor : IsFull descriptors l.descriptor_area max_num_processes
  descriptor_ptr : IsFull descriptor_ptrs l.descriptor_ptr_area max_num_processes
  mq : IsFull queues l.mq_area max_num_resources
  m : IsFull messages l.m_area max_num_resources
  standard_resource : IsFull standard l.standard_resource_area max_num_resources

-- The first process runs `f` on `f_args`, no other is ready or waits, and every block but its own
-- is free.
pub record Booted (l : Layout) (k : Kernel) (f f_args : ℤ) (k' : Kernel) : Type 0 where
  pub first_process : k'.init_pcb ≡ k'.current
  pub status : (pcb_of k' k'.current).status ≡ running
  pub entry : (pcb_of k' k'.current).cpu_state ≡ record { function = f; argument = f_args }
  pub pid : (pcb_of k' k'.current).pid ≡ k.processes.last_pid
  pub no_children : (pcb_of k' k'.current).children ≡ list_init
  pub no_descriptors : (pcb_of k' k'.current).descriptors ≡ list_init
  pub is_ready : IsReady k' []
  pub waiting_list : k'.waiting_list ≡ list_init
  pub zombie_list : k'.zombie_list ≡ list_init
  pub timer_list : k'.timing.timer_list ≡ list_init
  pub resources_list : k'.devices.resources_list ≡ list_init
  pub pcb_pool : IsPool k'.processes.pcb_allocator (indices 1 1023)
  pub live : IsLive k'.processes.pcb_allocator (indices 1 1023) k'.current
  pub pcb_ptr : IsFull k'.processes.pcb_ptr_allocator l.pcb_ptr_area max_num_processes
  pub timer_item : IsFull k'.timing.timer_item_allocator l.timer_item_area max_num_processes
  pub descriptor : IsFull k'.files.descriptor_allocator l.descriptor_area max_num_processes
  pub descriptor_ptr :
      IsFull k'.files.descriptor_ptr_allocator l.descriptor_ptr_area max_num_processes
  pub mq : IsFull k'.devices.mq_allocator l.mq_area max_num_resources
  pub m : IsFull k'.mail.m_allocator l.m_area max_num_resources
  pub standard_resource :
      IsFull k'.devices.standard_resources_allocator l.standard_resource_area max_num_resources

-- The block of the first process.
abbrev first_pcb : Pcb → ℤ → ℤ → Pcb
first_pcb pcb f f_args = record pcb {
  status = running;
  cpu_state = record { function = f; argument = f_args };
}
