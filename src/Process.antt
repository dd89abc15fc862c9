-- ===== src/Process.antt =====
-- disastrOS_pcb.h and disastrOS_pcb.c: process control blocks and the pointers to them. `none` is a
-- fault, such as the writes of PCB_alloc through the NULL of an exhausted allocator.
pub mod Alloc
use messages_queue_disastros.Prelude.{
  ℕ, Option, none, some, ◌>>=◌, ◌==◌, if◌then◌else◌, update, ℤ, pos, ◌+ℤ◌, eqb_ℤ,
}
use messages_queue_disastros.LinkedList.{Addr, Items, ListHead, list_init, unlink, rounds, scan}
use messages_queue_disastros.PoolAllocator.{
  PoolAllocator, PoolAllocatorResult, get_block, release_block,
}

pub data ProcessStatus : Type 0 where
  invalid created running ready waiting suspended zombie : ProcessStatus

-- Of `cpu_state`, the entry point that makecontext stores: a function and its argument.
pub record CpuState : Type 0 where
  pub function : ℤ
  pub argument : ℤ

pub record Pcb : Type 0 where
  pub pid : ℤ
  pub return_value : ℤ
  pub status : ProcessStatus
  pub signals : ℕ
  pub signals_mask : ℕ
  pub parent : Addr
  pub children : ListHead
  pub cpu_state : CpuState
  pub timer : Addr
  pub last_fd : ℤ
  pub descriptors : ListHead
  pub syscall_num : ℤ
  pub syscall_args : ℕ → ℤ
  pub syscall_retvalue : ℤ

pub record Processes : Type 0 where
  pub pcb_allocator : PoolAllocator
  pub pcb_ptr_allocator : PoolAllocator
  pub pcbs : Addr → Pcb
  pub pcb_items : Items
  pub pcb_ptrs : Addr → Addr
  pub pcb_ptr_items : Items
  pub last_pid : ℤ

-- What PCB_alloc writes: the system call's number, arguments and result and the CPU's state stay
-- what they were in the block.
abbrev pub fresh_pcb : Pcb → ℤ → Pcb
fresh_pcb old pid = record old {
  pid = pid;
  return_value = pos 0;
  status = invalid;
  last_fd = pos 0;
  signals = 0;
  signals_mask = 0xFFFFFFFF;
  descriptors = list_init;
  parent = 0;
  timer = 0;
  children = list_init;
}

-- PCB_alloc
unfoldable pub pcb_alloc : Processes → Option (Addr × Processes)
pcb_alloc s = do
  (pcb, pool) ← get_block s.pcb_allocator
  if pcb == 0
      then none
      else some (
        pcb,
        record s {
          pcb_allocator = pool;
          pcb_items = unlink s.pcb_items pcb;
          pcbs = update s.pcbs pcb (fresh_pcb (s.pcbs pcb) s.last_pid);
          last_pid = s.last_pid +ℤ pos 1;
        },
      )

-- PCB_free
unfoldable pub pcb_free : Processes → Addr → Option (PoolAllocatorResult × Processes)
pcb_free s pcb = do
  (result, pool) ← release_block s.pcb_allocator pcb
  some (result, record s { pcb_allocator = pool })

-- PCBPtr_alloc
unfoldable pub pcb_ptr_alloc : Processes → Addr → Option (Addr × Processes)
pcb_ptr_alloc s pcb = do
  (ptr, pool) ← get_block s.pcb_ptr_allocator
  if ptr == 0
      then none
      else some (
        ptr,
        record s {
          pcb_ptr_allocator = pool;
          pcb_ptr_items = unlink s.pcb_ptr_items ptr;
          pcb_ptrs = update s.pcb_ptrs ptr pcb;
        },
      )

-- PCBPtr_free
unfoldable pub pcb_ptr_free : Processes → Addr → Option (PoolAllocatorResult × Processes)
pcb_ptr_free s ptr = do
  (result, pool) ← release_block s.pcb_ptr_allocator ptr
  some (result, record s { pcb_ptr_allocator = pool })

-- PCB_byPID
unfoldable pub pcb_by_pid : Processes → ListHead → ℤ → Option Addr
pcb_by_pid s head pid =
    scan (λ aux. eqb_ℤ (s.pcbs aux).pid pid) (rounds head) s.pcb_items head.first

-- PCBPtr_byPID
unfoldable pub pcb_ptr_by_pid : Processes → ListHead → ℤ → Option Addr
pcb_ptr_by_pid s head pid =
    scan (λ aux. eqb_ℤ (s.pcbs (s.pcb_ptrs aux)).pid pid) (rounds head) s.pcb_ptr_items head.first
