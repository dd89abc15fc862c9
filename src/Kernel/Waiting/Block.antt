-- ===== src/Kernel/Waiting/Block.antt =====
-- The end of internal_wait, where the caller waits and another process is ready.
use messages_queue_disastros.Prelude.{
  ℕ, ◌≡◌, refl, ◌∙◌, ◌≢◌, ap, true, some, List, [], ◌∷◌, ◌++◌, arith, update, update_same,
  update_other,
}
use messages_queue_disastros.LinkedList.{Addr, Items, ListHead, insert, detach}
use messages_queue_disastros.LinkedList.Chain.{has, has-append, has-cons}
use messages_queue_disastros.LinkedList.Insert.{insert_last-Inserted}
use messages_queue_disastros.LinkedList.Detach.{detach-Detached}
use messages_queue_disastros.LinkedList.Frame.{IsList-frame}
use messages_queue_disastros.Process.{waiting}
use messages_queue_disastros.Kernel.{Kernel, pcb_of, insert_pcb, detach_pcb}
use messages_queue_disastros.Kernel.Waiting.{block_running}
use messages_queue_disastros.Kernel.Scheduling.Tick.{IsRunning}
use messages_queue_disastros.Kernel.Scheduling.Sleep.{outside_sleep, outside_next}

abbrev blocked : Kernel → Addr → Items → (waiting_list ready_list : ListHead) → Kernel
blocked k next items waiting_list ready_list = record k {
  processes = record k.processes {
    pcb_items = items;
    pcbs = update k.processes.pcbs k.current (record (pcb_of k k.current) { status = waiting });
  };
  waiting_list = waiting_list;
  ready_list = ready_list;
  current = next;
}

block_runs :
    (k : Kernel) (next : Addr) (items1 items2 : Items) (waiting_list ready_list : ListHead)
    → insert k.processes.pcb_items k.waiting_list k.waiting_list.last k.current
      ≡ some (items1, waiting_list, k.current)
    → k.ready_list.first ≡ next
    → detach items1 k.ready_list next ≡ some (items2, ready_list, next)
    → block_running k ≡ some (blocked k next items2 waiting_list ready_list)
unfolding block_running insert_pcb detach_pcb
block_runs k next items1 items2 waiting_list ready_list e1 e2 e3 = simp (e1, e2, e3) refl

-- The caller is the last process that waits, and `next` runs; of all processes only the caller's
-- status changes, and of the kernel only the links and the lists of processes.
pub record Waits (k : Kernel) (free : List ℕ) (ts ws : List Addr) (next : Addr) (rest : List Addr)
    (k' : Kernel) : Type 0 where
  pub is_running : IsRunning k' free ts (ws ++ (k.current ∷ [])) rest
  pub current : k'.current ≡ next
  pub caller : pcb_of k' k.current ≡ record (pcb_of k k.current) { status = waiting }
  pub others : (p : Addr) → p ≢ k.current → pcb_of k' p ≡ pcb_of k p
  pub whole : k' ≡ record k {
    processes = record k.processes { pcb_items = k'.processes.pcb_items; pcbs = k'.processes.pcbs };
    waiting_list = k'.waiting_list;
    ready_list = k'.ready_list;
    current = k'.current;
  }

pub block_running-Waits :
    (k : Kernel) (free : List ℕ) (ts ws : List Addr) (n : Addr) (rest : List Addr)
    → IsRunning k free ts ws (n ∷ rest)
    → (k' : Kernel) × (block_running k ≡ some k') × Waits k free ts ws n rest k'
block_running-Waits k free ts ws n rest i =
    let (r1, inserted, d1) = insert_last-Inserted ws i.asleep.waiting i.loose i.out_waiting in
    let apart = i.asleep.apart in
    let ready =
      IsList-frame r1.0 (n ∷ rest)
        (λ a m. d1.frame a (outside_sleep a k.current n rest ws apart i.out_ready m).0)
        i.asleep.ready in
    let (r2, detached, d2) = detach-Detached n [] rest ready in
    let first : has n (n ∷ rest) ≡ true = ground arith in
    let new = record (pcb_of k k.current) { status = waiting } in
    (
      blocked k n r2.0 r1.1 r2.1,
      block_runs k n r1.0 r2.0 r1.1 r2.1 (inserted ∙ ap (λ a. some (r1.0, r1.1, a)) d1.returned)
          i.asleep.ready.first (detached ∙ ap (λ a. some (r2.0, r2.1, a)) d2.returned),
      record {
        is_running = record {
          asleep = record {
            timers = i.asleep.timers;
            waiting =
                IsList-frame r2.0 (ws ++ (k.current ∷ []))
                  (λ a m. d2.frame a (outside_next a k.current n rest ws apart i.out_ready m))
                  d1.is_list;
            ready = d2.is_list;
            apart = λ a m.
                (outside_sleep a k.current n rest ws apart i.out_ready (has-cons a n rest m)).1;
            waits = λ p m.
                let w = i.asleep.waits p m in ground (arith, has-append p ws (k.current ∷ []));
            distinct = i.asleep.distinct;
          };
          loose = d2.loose;
          out_ready = i.asleep.ready.distinct.0;
          out_waiting = (outside_sleep n k.current n rest ws apart i.out_ready first).1;
        };
        current = refl;
        caller = update_same k.processes.pcbs k.current new;
        others = λ p ne. update_other k.processes.pcbs k.current p new ne;
        whole = refl;
      },
    )
