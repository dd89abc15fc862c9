-- ===== src/Kernel/Creation/Child.antt =====
-- The blocks and the pointers that internal_fork and internal_spawn write.
use messages_queue_disastros.Prelude.{
  ℕ, ◌≡◌, refl, ◌≢◌, sym, true, some, List, [], ◌∷◌, ◌++◌, ℤ, ==-eq-false, ==_refl, update,
}
use messages_queue_disastros.LinkedList.{Addr, Items, ListHead, insert}
use messages_queue_disastros.LinkedList.Chain.{IsList, has}
use messages_queue_disastros.PoolAllocator.Free.{IsPool}
use messages_queue_disastros.PoolAllocator.Placed.{insert_last-Placed}
use messages_queue_disastros.PoolAllocator.Live.{IsLive}
use messages_queue_disastros.Process.{Pcb, Processes, pcb_ptr_alloc, ready}
use messages_queue_disastros.Process.Alloc.{pcb_ptr_alloc-Pointed}

-- The blocks of processes after each write: those of PCB_alloc are `pcbs`.
abbrev pub child_pcbs : (Addr → Pcb) → (current p : Addr) → Addr → Pcb
child_pcbs pcbs current p = update pcbs p (record (pcbs p) { status = ready; parent = current })

abbrev pub parent_pcbs : (Addr → Pcb) → (current : Addr) → ListHead → Addr → Pcb
parent_pcbs pcbs current children =
    update pcbs current (record (pcbs current) { children = children })

abbrev pub answer_pcbs : (Addr → Pcb) → (current : Addr) → ℤ → Addr → Pcb
answer_pcbs pcbs current value =
    update pcbs current (record (pcbs current) { syscall_retvalue = value })

abbrev pub final_pcbs : (Addr → Pcb) → (current p : Addr) → ListHead → Addr → Pcb
final_pcbs pcbs current p children =
    let written = parent_pcbs pcbs current children in answer_pcbs written current (written p).pid

-- The blocks `final` of the two processes after all writes.
pub record Written (pcbs : Addr → Pcb) (current p : Addr) (new : Pcb) (children : ListHead)
    (final : Addr → Pcb) : Type 0 where
  pub child : final p ≡ record new { status = ready; parent = current }
  pub own :
      final current ≡ record (pcbs current) { children = children; syscall_retvalue = new.pid }
  pub others : (a : Addr) → a ≢ p → a ≢ current → final a ≡ pcbs a

pub child-Written :
    (pcbs : Addr → Pcb) (current p : Addr) (new : Pcb) (children : ListHead)
    → p ≢ current
    → pcbs p ≡ new
    → Written pcbs current p new children
        (final_pcbs (child_pcbs pcbs current p) current p children)
child-Written pcbs current p new children ne e =
    let z1 = ==-eq-false p current ne in
    let z2 = ==-eq-false current p (λ s. ne (sym s)) in
    record {
      child = rw (z1, ==_refl p, e) refl;
      own = rw (==_refl current, z1, z2, ==_refl p, e) refl;
      others = λ a n1 n2. rw (==-eq-false a p n1, ==-eq-false a current n2) refl;
    }

-- PCBPtr_alloc and List_insert behind the last child.
pub record Adopted (s : Processes) (hs : List ℕ) (own : ListHead) (cs : List Addr) (p ptr : Addr)
    (s' : Processes) (r : Items × ListHead × Addr) : Type 0 where
  pub ran : pcb_ptr_alloc s p ≡ some (ptr, s')
  pub inserted : insert s'.pcb_ptr_items own own.last ptr ≡ some (r.0, r.1, ptr)
  pub children : IsList r.0 r.1 (cs ++ (ptr ∷ []))
  pub child : s'.pcb_ptrs ptr ≡ p
  pub pool : IsPool s'.pcb_ptr_allocator hs
  pub live : (a : Addr) → has a (cs ++ (ptr ∷ [])) ≡ true → IsLive s'.pcb_ptr_allocator hs a
  pub pcbs : s'.pcbs ≡ s.pcbs
  pub items : s'.pcb_items ≡ s.pcb_items
  pub pcb_allocator : s'.pcb_allocator ≡ s.pcb_allocator
  pub last_pid : s'.last_pid ≡ s.last_pid

pub adopt :
    {s : Processes} {own : ListHead} (h : ℕ) (hs : List ℕ) (cs : List Addr) (p : Addr)
    → IsPool s.pcb_ptr_allocator (h ∷ hs)
    → IsList s.pcb_ptr_items own cs
    → ((a : Addr) → has a cs ≡ true → IsLive s.pcb_ptr_allocator (h ∷ hs) a)
    → (ptr : Addr) × (s' : Processes) × (r : Items × ListHead × Addr) × Adopted s hs own cs p ptr s'
        r
adopt {s} {own} h hs cs p pool list live =
    let (ptr, s', ran, d) = pcb_ptr_alloc-Pointed h hs p pool in
    let ((items, children), placed) =
      insert_last-Placed cs list live d.kept d.ptr_items d.loose d.live in
    (
      ptr,
      s',
      (items, children, ptr),
      record {
        ran = ran;
        inserted = placed.inserted;
        children = placed.list;
        child = d.target;
        pool = d.pool;
        live = placed.live;
        pcbs = d.pcbs;
        items = d.items;
        pcb_allocator = d.pcb_allocator;
        last_pid = d.last_pid;
      },
    )
