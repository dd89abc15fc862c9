-- ===== src/Kernel/Scheduling/Wake.antt =====
-- One round of the loop of internal_schedule: the process of an elapsed timer is woken.
use messages_queue_disastros.Prelude.{
  ◌==◌, ℕ, ◌≡◌, refl, ◌∙◌, ◌≢◌, ap, sym, true, false, some, List, ◌∷◌, ◌++◌, arith, pos, update,
  update_same, update_other, Bool-cases, inl, inr,
}
use messages_queue_disastros.LinkedList.{Addr, Items, ListHead, insert, detach}
use messages_queue_disastros.LinkedList.Chain.{
  IsList, has, has-insert, last_or, ne_of_has, Distinct-remove,
}
use messages_queue_disastros.LinkedList.Insert.{insert-Inserted}
use messages_queue_disastros.LinkedList.Detach.{detach-Detached}
use messages_queue_disastros.LinkedList.Frame.{IsList-frame}
use messages_queue_disastros.Process.{Pcb, ready}
use messages_queue_disastros.Timer.{Timers, timer_list_remove_current}
use messages_queue_disastros.Timer.Sorted.{IsTimers}
use messages_queue_disastros.Timer.Current.{Removed, timer_list_remove_current-Removed}
use messages_queue_disastros.Kernel.{Kernel, pcb_of, insert_pcb, detach_pcb}
use messages_queue_disastros.Kernel.Scheduling.{wake_one}

-- The block of a process that is woken.
abbrev woken_pcb : Pcb → Pcb
woken_pcb pcb = record pcb { status = ready; timer = 0 }

abbrev woken : Kernel → Addr → Items → ListHead → ListHead → Timers → Kernel
woken k p items waiting_list ready_list timing = record k {
  processes = record k.processes {
    pcb_items = items;
    pcbs = update k.processes.pcbs p (woken_pcb (pcb_of k p));
  };
  waiting_list = waiting_list;
  ready_list = ready_list;
  timing = timing;
}

wake_runs :
    (k : Kernel) (t previous p : Addr) (items1 items2 : Items) (waiting_list ready_list : ListHead)
    (timing : Timers)
    → (k.timing.timers t).pcb ≡ p
    → detach k.processes.pcb_items k.waiting_list p ≡ some (items1, waiting_list, p)
    → insert items1 k.ready_list previous p ≡ some (items2, ready_list, p)
    → timer_list_remove_current k.timing ≡ some (pos 0, timing)
    → wake_one k t previous ≡ some (p, woken k p items2 waiting_list ready_list timing)
unfolding wake_one detach_pcb insert_pcb
wake_runs k t previous p items1 items2 waiting_list ready_list timing e1 e2 e3 e4 =
    rw (e1, e2, e3, e4) refl

-- What the round leaves: `front` are the processes that were woken before, `back` those that were
-- ready, `before` and `after` the others that wait.
pub record Woken (k : Kernel) (free : List ℕ) (t p : Addr) (ts before after front back : List Addr)
    (k' : Kernel) : Type 0 where
  pub ready_list : IsList k'.processes.pcb_items k'.ready_list (front ++ (p ∷ back))
  pub waiting_list : IsList k'.processes.pcb_items k'.waiting_list (before ++ after)
  pub timers : Removed k.timing free t ts k'.timing
  pub status : (pcb_of k' p).status ≡ ready
  pub others : (a : Addr) → a ≢ p → pcb_of k' a ≡ pcb_of k a
  pub frame :
      (a : Addr)
      → has a (before ++ (p ∷ after)) ≡ false
      → has a (front ++ back) ≡ false
      → k'.processes.pcb_items a ≡ k.processes.pcb_items a
  pub current : k'.current ≡ k.current
  pub time : k'.time ≡ k.time

outside_ready :
    (p a : Addr) (before after front back : List Addr)
    → has p (before ++ after) ≡ false
    → has a (before ++ after) ≡ true
    → has a (front ++ back) ≡ false
    → has a (p ∷ (front ++ back)) ≡ false
outside_ready p a before after front back out i o =
    let ne : a ≢ p = ne_of_has p a (before ++ after) out i in ground arith

outside_waiting :
    (p a : Addr) (before after : List Addr)
    → has a (before ++ (p ∷ after)) ≡ false
    → has a (p ∷ (before ++ after)) ≡ false
outside_waiting p a before after o = sym (has-insert a p before after) ∙ o

outside_both :
    (p a : Addr) (before after front back : List Addr)
    → has a (before ++ (p ∷ after)) ≡ false
    → has a (front ++ back) ≡ false
    → has a (p ∷ (front ++ back)) ≡ false
outside_both p a before after front back o o' =
    let other : (a == p) ≡ false = ground (arith, has-insert a p before after, o) in ground arith

inside_waiting :
    (p a : Addr) (before after : List Addr)
    → has a (before ++ after) ≡ true
    → has a (before ++ (p ∷ after)) ≡ true
inside_waiting p a before after i = ground (arith, has-insert a p before after, i)

-- Two sequences that share nothing.
abbrev pub Disjoint : List Addr → List Addr → Type 0
Disjoint xs ys = (a : Addr) → has a xs ≡ true → has a ys ≡ false

pub not_in : (a : Addr) (xs ys : List Addr) → Disjoint xs ys → has a ys ≡ true → has a xs ≡ false
not_in a xs ys d i = elim (Bool-cases (has a xs)) [
  | inl inside ↦ absurd (both a ys i (d a inside))
  | inr outside ↦ outside
]
  where
    both : (a : Addr) (ys : List Addr) → has a ys ≡ true → has a ys ≡ false → ⊥
    both a ys i o = cc

has-itself : (p : Addr) (before after : List Addr) → has p (before ++ (p ∷ after)) ≡ true
has-itself p before after = ground (arith, has-insert p p before after)

-- The process of the first timer leaves the waiting list, enters the ready list behind those that
-- were woken before it and in front of the others, and is ready; its timer is off the list and
-- free. The two lists keep their other processes in their order.
pub wake_one-Woken :
    (k : Kernel) (free : List ℕ) (t p : Addr) (ts before after front back : List Addr)
    → IsTimers k.timing free (t ∷ ts)
    → (k.timing.timers t).pcb ≡ p
    → IsList k.processes.pcb_items k.waiting_list (before ++ (p ∷ after))
    → IsList k.processes.pcb_items k.ready_list (front ++ back)
    → Disjoint (front ++ back) (before ++ (p ∷ after))
    → (k' : Kernel) × (wake_one k t (last_or 0 front) ≡ some (p, k'))
      × Woken k free t p ts before after front back k'
wake_one-Woken k free t p ts before after front back i e w l apart =
    let (r1, detached, d1) = detach-Detached p before after w in
    let l1 =
      IsList-frame r1.0 (front ++ back)
        (λ a j. d1.frame a (outside_waiting p a before after (apart a j))) l in
    let out = not_in p (front ++ back) (before ++ (p ∷ after)) apart (has-itself p before after) in
    let (r2, inserted, d2) = insert-Inserted front back l1 d1.loose out in
    let (timing, removed, timers) = timer_list_remove_current-Removed t ts i in
    let gone = (Distinct-remove p before after w.distinct).0 in
    (
      woken k p r2.0 r1.1 r2.1 timing,
      wake_runs k t (last_or 0 front) p r1.0 r2.0 r1.1 r2.1 timing e
          (detached ∙ ap (λ a. some (r1.0, r1.1, a)) d1.returned)
          (inserted ∙ ap (λ a. some (r2.0, r2.1, a)) d2.returned) removed,
      record {
        ready_list = d2.is_list;
        waiting_list =
            IsList-frame r2.0 (before ++ after)
              (λ a j. d2.frame a (
                outside_ready p a before after front back gone j (
                  not_in a (front ++ back) (before ++ (p ∷ after)) apart
                    (inside_waiting p a before after j))))
              d1.is_list;
        timers = timers;
        status = ap (λ b. b.status) (update_same k.processes.pcbs p (woken_pcb (pcb_of k p)));
        others = λ a ne. update_other k.processes.pcbs p a (woken_pcb (pcb_of k p)) ne;
        frame = λ a o o'.
            d2.frame a (outside_both p a before after front back o o')
            ∙ d1.frame a (outside_waiting p a before after o);
        current = refl;
        time = refl;
      },
    )
