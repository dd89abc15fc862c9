-- ===== src/Kernel/Creation/Created.antt =====
-- The new process of internal_fork and internal_spawn.
use mathlib.Core.Path.{subst}
use messages_queue_disastros.Prelude.{
  ℕ, ◌≡◌, refl, ◌∙◌, ◌≢◌, ap, sym, true, false, some, List, [], ◌∷◌, ◌++◌, arith, pos, ◌+ℤ◌, ◌==◌,
  ==-eq-false, ==_iff, Bool-cases, inl, inr,
}
use messages_queue_disastros.LinkedList.{Addr, Items, ListHead, insert}
use messages_queue_disastros.LinkedList.Chain.{IsList, has, has-append, has-snoc}
use messages_queue_disastros.LinkedList.Insert.{Inserted, insert_last-Inserted}
use messages_queue_disastros.LinkedList.Frame.{IsList-frame}
use messages_queue_disastros.PoolAllocator.Free.{IsPool}
use messages_queue_disastros.PoolAllocator.Placed.{fresh-not-has}
use messages_queue_disastros.PoolAllocator.Live.{IsLive}
use messages_queue_disastros.Process.{Processes, fresh_pcb, pcb_alloc, pcb_ptr_alloc, ready}
use messages_queue_disastros.Process.Alloc.{Allocated, pcb_alloc-Allocated}
use messages_queue_disastros.Kernel.{Kernel, pcb_of, insert_pcb}
use messages_queue_disastros.Kernel.Scheduling.Wake.{Disjoint, not_in}
use messages_queue_disastros.Kernel.Scheduling.Tick.{IsRunning}
use messages_queue_disastros.Kernel.Creation.{new_process}
use messages_queue_disastros.Kernel.Creation.Child.{
  child_pcbs, parent_pcbs, answer_pcbs, final_pcbs, Written, child-Written, adopt,
}

abbrev created :
    Kernel
    → Processes
    → (p : Addr) → (children ready_list : ListHead) → (items ptr_items : Items) → Kernel
created k s p children ready_list items ptr_items =
    let pcbs = parent_pcbs s.pcbs k.current children in
    record k {
      processes = record s {
        pcb_ptr_items = ptr_items;
        pcb_items = items;
        pcbs = answer_pcbs pcbs k.current (pcbs p).pid;
      };
      ready_list = ready_list;
    }

new_process_runs :
    (k : Kernel) (p ptr : Addr) (s1 s2 : Processes) (own children ready_list : ListHead)
    (items ptr_items : Items)
    → k.current ≢ 0
    → pcb_alloc k.processes ≡ some (p, s1)
    → pcb_ptr_alloc (record s1 { pcbs = child_pcbs s1.pcbs k.current p }) p ≡ some (ptr, s2)
    → (child_pcbs s1.pcbs k.current p k.current).children ≡ own
    → insert s2.pcb_ptr_items own own.last ptr ≡ some (ptr_items, children, ptr)
    → insert s2.pcb_items k.ready_list k.ready_list.last p ≡ some (items, ready_list, p)
    → new_process k ≡ some (p, created k s2 p children ready_list items ptr_items)
unfolding new_process insert_pcb
new_process_runs k p ptr s1 s2 own children ready_list items ptr_items nz e1 e2 e3 e4 e5 =
    rw (==-eq-false k.current 0 nz, e1, e2, e3, e4, e5) refl

-- The running, ready and waiting processes `all` have blocks, and the running one the children `cs`.
pub record HasBlocks (k : Kernel) (js hs : List ℕ) (all cs : List Addr) : Type 0 where
  pub pool : IsPool k.processes.pcb_allocator js
  pub ptr_pool : IsPool k.processes.pcb_ptr_allocator hs
  pub live : (a : Addr) → has a all ≡ true → IsLive k.processes.pcb_allocator js a
  pub children : IsList k.processes.pcb_ptr_items (pcb_of k k.current).children cs
  pub live_ptrs : (a : Addr) → has a cs ≡ true → IsLive k.processes.pcb_ptr_allocator hs a

-- What the new process `p` is, and what it leaves.
pub record Created (k : Kernel) (free js hs : List ℕ) (ts ws rs cs : List Addr) (p ptr : Addr)
    (k' : Kernel) : Type 0 where
  pub running : IsRunning k' free ts ws (rs ++ (p ∷ []))
  pub blocks : HasBlocks k' js hs (k.current ∷ ((rs ++ (p ∷ [])) ++ ws)) (cs ++ (ptr ∷ []))
  pub child : k'.processes.pcb_ptrs ptr ≡ p
  pub parent : (pcb_of k' p).parent ≡ k.current
  pub status : (pcb_of k' p).status ≡ ready
  pub pid : (pcb_of k' p).pid ≡ k.processes.last_pid
  pub last_pid : k'.processes.last_pid ≡ k.processes.last_pid +ℤ pos 1
  pub retvalue : (pcb_of k' k.current).syscall_retvalue ≡ k.processes.last_pid
  pub args : (pcb_of k' k.current).syscall_args ≡ (pcb_of k k.current).syscall_args
  pub others : (a : Addr) → a ≢ p → a ≢ k.current → pcb_of k' a ≡ pcb_of k a
  pub current : k'.current ≡ k.current
  pub ne_current : p ≢ k.current

-- The links of the ready list after the new process stands at its end.
module _ {k : Kernel} {j : ℕ} {js : List ℕ} {free : List ℕ} {ts ws rs : List Addr} {p : Addr}
    {s1 : Processes} {r : Items × ListHead × Addr} (i : IsRunning k free ts ws rs)
    (live : (a : Addr)
      → has a (k.current ∷ (rs ++ ws)) ≡ true
      → IsLive k.processes.pcb_allocator (j ∷ js) a)
    (new : Allocated k.processes j js p s1) (done : Inserted s1.pcb_items rs [] p r) where
  not_new : (a : Addr) → has a (k.current ∷ (rs ++ ws)) ≡ true → a ≢ p
  not_new a m = (new.kept a (live a m)).1

  in_waiting : (a : Addr) → has a ws ≡ true → has a (k.current ∷ (rs ++ ws)) ≡ true
  in_waiting a m = ground (arith, has-append a rs ws, m)

  in_ready : (a : Addr) → has a rs ≡ true → has a (k.current ∷ (rs ++ ws)) ≡ true
  in_ready a m = ground (arith, has-append a rs ws, m)

  same_links :
      (a : Addr)
      → has a (k.current ∷ (rs ++ ws)) ≡ true
      → has a rs ≡ false
      → r.0 a ≡ k.processes.pcb_items a
  same_links a m o =
      let ne = ==-eq-false a p (not_new a m) in
      done.frame a (ground (arith, has-append a rs [])) ∙ new.items a (not_new a m)

  waiting_list : IsList r.0 k.waiting_list ws
  waiting_list =
      IsList-frame r.0 ws (λ a m. same_links a (in_waiting a m) (not_in a rs ws i.asleep.apart m))
        i.asleep.waiting

  out_ready : has k.current (rs ++ (p ∷ [])) ≡ false
  out_ready =
      let ne = ==-eq-false k.current p (not_new k.current (ground arith)) in
      ground (arith, has-append k.current rs (p ∷ []), i.out_ready)

  apart : has p ws ≡ false → Disjoint (rs ++ (p ∷ [])) ws
  apart o a m = elim (Bool-cases (a == p)) [
    | inl same ↦ ap (λ b. has b ws) ((==_iff a p).0 same) ∙ o
    | inr other ↦ i.asleep.apart a (has-snoc a p rs m other)
  ]

  new-IsRunning :
      (k' : Kernel)
      → k'.processes.pcb_items ≡ r.0
      → k'.ready_list ≡ r.1
      → k'.waiting_list ≡ k.waiting_list
      → k'.timing ≡ k.timing
      → k'.current ≡ k.current
      → has p ws ≡ false
      → IsRunning k' free ts ws (rs ++ (p ∷ []))
  new-IsRunning k' e1 e2 e3 e4 e5 o =
      let links = same_links k.current (ground arith) i.out_ready in
      record {
        asleep = record {
          timers = rw e4 i.asleep.timers;
          waiting = rw (e1, e3) waiting_list;
          ready = rw (e1, e2) done.is_list;
          apart = apart o;
          waits = rw e4 i.asleep.waits;
          distinct = rw e4 i.asleep.distinct;
        };
        loose =
            rw (e1, e5)
              (record {
                ne_null = i.loose.ne_null;
                no_prev = rw links i.loose.no_prev;
                no_next = rw links i.loose.no_next;
              });
        out_ready = rw e5 out_ready;
        out_waiting = rw e5 i.out_waiting;
      }

has-all :
    (a c p : Addr) (rs ws : List Addr)
    → (a == p) ≡ false
    → has a (c ∷ ((rs ++ (p ∷ [])) ++ ws)) ≡ true
    → has a (c ∷ (rs ++ ws)) ≡ true
has-all a c p rs ws ne i =
    ground
      (arith, has-append a (rs ++ (p ∷ [])) ws, has-append a rs (p ∷ []), has-append a rs ws, i)

-- With a free block for the process and one for the pointer the new process is the last ready one
-- and the last child of the running one, with the next number, which is the result; it has a block
-- that no other process has, and the scheduler's invariant is kept.
pub new_process-Created :
    (k : Kernel) (free : List ℕ) (j : ℕ) (js : List ℕ) (h : ℕ) (hs : List ℕ)
    (ts ws rs cs : List Addr)
    → IsRunning k free ts ws rs
    → HasBlocks k (j ∷ js) (h ∷ hs) (k.current ∷ (rs ++ ws)) cs
    → (p : Addr) × (ptr : Addr) × (k' : Kernel) × (new_process k ≡ some (p, k'))
      × Created k free js hs ts ws rs cs p ptr k'
new_process-Created k free j js h hs ts ws rs cs i b =
    let (p, s1, alloc, new) = pcb_alloc-Allocated {s = k.processes} j js b.pool in
    let c = k.current in
    let other : (a : Addr) → has a (c ∷ (rs ++ ws)) ≡ true → a ≢ p =
      λ a m. (new.kept a (b.live a m)).1 in
    let ne : p ≢ c = λ e. other c (ground arith) (sym e) in
    let own = (pcb_of k c).children in
    let (ptr, s2, r1, family) =
      adopt {s = record s1 { pcbs = child_pcbs s1.pcbs c p }} {own = own} h hs cs p
        (rw new.ptrs b.ptr_pool) (rw new.ptr_items b.children) (rw new.ptrs b.live_ptrs) in
    let ready_only : (a : Addr) → has a rs ≡ true → a ≢ p =
      λ a m. other a (ground (arith, has-append a rs ws, m)) in
    let waiting_only : (a : Addr) → has a ws ≡ true → a ≢ p =
      λ a m. other a (ground (arith, has-append a rs ws, m)) in
    let listed =
      IsList-frame s1.pcb_items rs (λ a m. new.items a (ready_only a m)) i.asleep.ready in
    let (r2, inserted, done) =
      insert_last-Inserted rs listed new.loose (fresh-not-has p rs ready_only) in
    let own_children : (child_pcbs s1.pcbs c p c).children ≡ own =
      rw (==-eq-false c p (λ e. ne (sym e)), new.others c (λ e. ne (sym e))) refl in
    let written =
      subst
        (λ z.
          Written s1.pcbs c p (fresh_pcb (k.processes.pcbs p) k.processes.last_pid) r1.1
            (final_pcbs z c p r1.1))
        (sym family.pcbs) (child-Written s1.pcbs c p _ r1.1 ne new.fresh) in
    let added : insert s2.pcb_items k.ready_list k.ready_list.last p ≡ some (r2.0, r2.1, p) =
      rw family.items (inserted ∙ ap (λ a. some (r2.0, r2.1, a)) done.returned) in
    let k' = created k s2 p r1.1 r2.1 r2.0 r1.0 in
    (
      p,
      ptr,
      k',
      new_process_runs k p ptr s1 s2 own r1.1 r2.1 r2.0 r1.0 i.loose.ne_null alloc family.ran
          own_children family.inserted added,
      record {
        running =
            new-IsRunning i b.live new done k' refl refl refl refl refl
              (fresh-not-has p ws waiting_only);
        blocks = record {
          pool = rw family.pcb_allocator new.pool;
          ptr_pool = family.pool;
          live = λ a m. elim (Bool-cases (a == p)) [
            | inl same ↦ rw (family.pcb_allocator, (==_iff a p).0 same) new.live
            | inr differs ↦
                rw family.pcb_allocator (new.kept a (b.live a (has-all a c p rs ws differs m))).0
          ];
          children =
              subst (λ z. IsList r1.0 z (cs ++ (ptr ∷ []))) (sym (ap (λ z. z.children) written.own))
                family.children;
          live_ptrs = family.live;
        };
        child = family.child;
        parent = ap (λ z. z.parent) written.child;
        status = ap (λ z. z.status) written.child;
        pid = ap (λ z. z.pid) written.child;
        last_pid = family.last_pid ∙ new.last_pid;
        retvalue = ap (λ z. z.syscall_retvalue) written.own;
        args =
            ap (λ z. z.syscall_args) (written.own)
            ∙ ap (λ z. z.syscall_args) (new.others c (λ e. ne (sym e)));
        others = λ a n1 n2. written.others a n1 n2 ∙ new.others a n1;
        current = refl;
        ne_current = ne;
      },
    )
