-- ===== src/Examples/Boot.antt =====
-- A start of the system with all buffers one behind the other.
use messages_queue_disastros.Prelude.{ℕ}
use messages_queue_disastros.Kernel.{Kernel}
use messages_queue_disastros.Kernel.Start.{Area, Layout}

abbrev area : ℕ → ℕ → Area
area block struct_size = record { block = block; struct_size = struct_size }

abbrev layout : Layout
layout = record {
  pcb_area = area 0x1000000 18000;
  pcb_ptr_area = area 0x4000000 24;
  timer_item_area = area 0x5000000 32;
  descriptor_area = area 0x6000000 48;
  descriptor_ptr_area = area 0x7000000 24;
  mq_area = area 0x8000000 88;
  m_area = area 0x9000000 152;
  standard_resource_area = area 0xA000000 48;
}
