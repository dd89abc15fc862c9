-- ===== src/Process/Alloc.antt =====
-- PCB_alloc and PCBPtr_alloc with a free block.
use messages_queue_disastros.Prelude.{
  ℕ, ◌≡◌, refl, ◌≢◌, some, List, ◌∷◌, ◌+ℤ◌, ==-eq-false, pos, update, update_same, update_other,
}
use messages_queue_disastros.LinkedList.{Addr, unlink}
use messages_queue_disastros.LinkedList.Chain.{IsLoose}
use messages_queue_disastros.LinkedList.Frame.{unlink-IsLoose, unlink_ne}
use messages_queue_disastros.PoolAllocator.{block_address}
use messages_queue_disastros.PoolAllocator.Free.{IsPool}
use messages_queue_disastros.PoolAllocator.Live.{IsLive, get_block-Handed}
use messages_queue_disastros.Process.{Processes, fresh_pcb, pcb_alloc, pcb_ptr_alloc}

-- What PCB_alloc leaves of the processes.
pub record Allocated (s : Processes) (k : ℕ) (ks : List ℕ) (p : Addr) (s' : Processes)
    : Type 0 where
  pub live : IsLive s'.pcb_allocator ks p
  pub pool : IsPool s'.pcb_allocator ks
  pub ne_null : p ≢ 0
  pub loose : IsLoose s'.pcb_items p
  pub fresh : s'.pcbs p ≡ fresh_pcb (s.pcbs p) s.last_pid
  pub kept : (q : Addr) → IsLive s.pcb_allocator (k ∷ ks) q → IsLive s'.pcb_allocator ks q × (q ≢ p)
  pub others : (q : Addr) → q ≢ p → s'.pcbs q ≡ s.pcbs q
  pub items : (q : Addr) → q ≢ p → s'.pcb_items q ≡ s.pcb_items q
  pub last_pid : s'.last_pid ≡ s.last_pid +ℤ pos 1
  pub ptrs : s'.pcb_ptr_allocator ≡ s.pcb_ptr_allocator
  pub ptr_items : s'.pcb_ptr_items ≡ s.pcb_ptr_items

pub pcb_alloc-Allocated :
    {s : Processes} (k : ℕ) (ks : List ℕ)
    → IsPool s.pcb_allocator (k ∷ ks)
    → (p : Addr) × (s' : Processes) × (pcb_alloc s ≡ some (p, s')) × Allocated s k ks p s'
unfolding pcb_alloc
pcb_alloc-Allocated {s} k ks i =
    let (b, run, h) = get_block-Handed k ks i in
    let p = block_address s.pcb_allocator k in
    (
      p,
      record s {
        pcb_allocator = b;
        pcb_items = unlink s.pcb_items p;
        pcbs = update s.pcbs p (fresh_pcb (s.pcbs p) s.last_pid);
        last_pid = s.last_pid +ℤ pos 1;
      },
      rw (run, ==-eq-false p 0 h.ne_null) refl,
      record {
        live = h.live;
        pool = h.pool;
        ne_null = h.ne_null;
        loose = unlink-IsLoose s.pcb_items p h.ne_null;
        fresh = update_same s.pcbs p (fresh_pcb (s.pcbs p) s.last_pid);
        kept = λ q l. (h.kept q l, h.fresh q l);
        others = λ q ne. update_other s.pcbs p q (fresh_pcb (s.pcbs p) s.last_pid) ne;
        items = λ q ne. unlink_ne s.pcb_items p q ne;
        last_pid = refl;
        ptrs = refl;
        ptr_items = refl;
      },
    )

-- A pointer to the process is made in a block that was free.
pub record Pointed (p : Processes) (k : ℕ) (ks : List ℕ) (process ptr : Addr) (p' : Processes)
    : Type 0 where
  pub ne_null : ptr ≢ 0
  pub target : p'.pcb_ptrs ptr ≡ process
  pub pool : IsPool p'.pcb_ptr_allocator ks
  pub live : IsLive p'.pcb_ptr_allocator ks ptr
  pub loose : IsLoose p'.pcb_ptr_items ptr
  pub kept :
      (q : Addr)
      → IsLive p.pcb_ptr_allocator (k ∷ ks) q
      → IsLive p'.pcb_ptr_allocator ks q × (q ≢ ptr)
  pub ptr_items : (q : Addr) → q ≢ ptr → p'.pcb_ptr_items q ≡ p.pcb_ptr_items q
  pub ptrs : (q : Addr) → q ≢ ptr → p'.pcb_ptrs q ≡ p.pcb_ptrs q
  pub pcbs : p'.pcbs ≡ p.pcbs
  pub items : p'.pcb_items ≡ p.pcb_items
  pub pcb_allocator : p'.pcb_allocator ≡ p.pcb_allocator
  pub last_pid : p'.last_pid ≡ p.last_pid

pub pcb_ptr_alloc-Pointed :
    {p : Processes} (k : ℕ) (ks : List ℕ) (process : Addr)
    → IsPool p.pcb_ptr_allocator (k ∷ ks)
    → (ptr : Addr) × (p' : Processes) × (pcb_ptr_alloc p process ≡ some (ptr, p'))
      × Pointed p k ks process ptr p'
unfolding pcb_ptr_alloc
pcb_ptr_alloc-Pointed {p} k ks process i =
    let (b, run, h) = get_block-Handed k ks i in
    let ptr = block_address p.pcb_ptr_allocator k in
    (
      ptr,
      record p {
        pcb_ptr_allocator = b;
        pcb_ptr_items = unlink p.pcb_ptr_items ptr;
        pcb_ptrs = update p.pcb_ptrs ptr process;
      },
      rw (run, ==-eq-false ptr 0 h.ne_null) refl,
      record {
        ne_null = h.ne_null;
        target = update_same p.pcb_ptrs ptr process;
        pool = h.pool;
        live = h.live;
        loose = unlink-IsLoose p.pcb_ptr_items ptr h.ne_null;
        kept = λ q l. (h.kept q l, h.fresh q l);
        ptr_items = λ q ne. unlink_ne p.pcb_ptr_items ptr q ne;
        ptrs = λ q ne. update_other p.pcb_ptrs ptr q process ne;
        pcbs = refl;
        items = refl;
        pcb_allocator = refl;
        last_pid = refl;
      },
    )
