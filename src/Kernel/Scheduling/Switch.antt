-- ===== src/Kernel/Scheduling/Switch.antt =====
-- The second half of internal_schedule: the processes take turns.
use mathlib.Core.Path.{subst}
use mathlib.Core.List.{append_assoc}
use messages_queue_disastros.Prelude.{
  ℕ, zero, suc, ◌≡◌, refl, ◌∙◌, ◌≢◌, ◌⊎◌, inl, inr, ap, sym, false, some, List, [], ◌∷◌, ◌++◌,
  arith, length, ==-eq-false, ◌>>=◌, Option, update, update_same, update_other,
}
use messages_queue_disastros.LinkedList.{Addr, Items, ListHead, insert, detach}
use messages_queue_disastros.LinkedList.Chain.{IsList, IsLoose, has, has-append}
use messages_queue_disastros.LinkedList.Insert.{insert_last-Inserted}
use messages_queue_disastros.LinkedList.Detach.{detach-Detached}
use messages_queue_disastros.Process.{Pcb, ready, running}
use messages_queue_disastros.Kernel.{Kernel, pcb_of, insert_pcb, detach_pcb}
use messages_queue_disastros.Kernel.Scheduling.{switch}

-- A process runs and the processes `ps` are ready, in this order.
pub record IsReady (k : Kernel) (ps : List Addr) : Type 0 where
  pub list : IsList k.processes.pcb_items k.ready_list ps
  pub loose : IsLoose k.processes.pcb_items k.current
  pub apart : has k.current ps ≡ false

-- The blocks after the turn.
abbrev turned_pcbs : Kernel → Addr → Addr → Pcb
turned_pcbs k next =
    let pcbs = update k.processes.pcbs k.current (record (pcb_of k k.current) { status = ready }) in
    update pcbs next (record (pcbs next) { status = running })

abbrev turned : Kernel → Addr → Items → ListHead → Kernel
turned k next items ready_list = record k {
  processes = record k.processes { pcb_items = items; pcbs = turned_pcbs k next };
  ready_list = ready_list;
  current = next;
}

switch_runs :
    (k : Kernel) (next : Addr) (items1 items2 : Items) (head1 head2 : ListHead)
    → k.ready_list.first ≡ next
    → next ≢ 0
    → k.current ≢ 0
    → detach k.processes.pcb_items k.ready_list next ≡ some (items1, head1, next)
    → insert items1 head1 head1.last k.current ≡ some (items2, head2, k.current)
    → switch k ≡ some (turned k next items2 head2)
unfolding switch detach_pcb insert_pcb
switch_runs k next items1 items2 head1 head2 e1 nz nz' e2 e3 =
    simp (e1, ==-eq-false next 0 nz, ==-eq-false k.current 0 nz', e2, e3) refl

-- What a turn leaves of the kernel.
pub record Turned (k : Kernel) (next : Addr) (rest : List Addr) (k' : Kernel) : Type 0 where
  pub current : k'.current ≡ next
  pub is_ready : IsReady k' (rest ++ (k.current ∷ []))
  pub new_status : (pcb_of k' next).status ≡ running
  pub old_status : (pcb_of k' k.current).status ≡ ready
  pub pids : (p : Addr) → (pcb_of k' p).pid ≡ (pcb_of k p).pid
  pub frame :
      (p : Addr)
      → has p (k.current ∷ next ∷ rest) ≡ false
      → (pcb_of k' p ≡ pcb_of k p) × (k'.processes.pcb_items p ≡ k.processes.pcb_items p)
  pub new : pcb_of k' next ≡ record (pcb_of k next) { status = running }
  pub old : pcb_of k' k.current ≡ record (pcb_of k k.current) { status = ready }
  pub others : (p : Addr) → p ≢ k.current → p ≢ next → pcb_of k' p ≡ pcb_of k p
  pub whole : k' ≡ record k {
    processes = record k.processes { pcb_items = k'.processes.pcb_items; pcbs = k'.processes.pcbs };
    ready_list = k'.ready_list;
    current = next;
  }
  pub waiting_list : k'.waiting_list ≡ k.waiting_list
  pub timing : k'.timing ≡ k.timing
  pub time : k'.time ≡ k.time

address-cases : (a b : Addr) → (a ≡ b) ⊎ (a ≢ b)
address-cases a b = ground arith

has-behind : (p x : Addr) (xs : List Addr) → has p (x ∷ xs) ≡ false → has p xs ≡ false
has-behind p x xs o = ground arith

has-between :
    (p c x : Addr) (xs : List Addr) → has p (c ∷ x ∷ xs) ≡ false → has p (c ∷ (xs ++ [])) ≡ false
has-between p c x xs o = ground (arith, has-append p xs [])

ne_of_first : (p x : Addr) (xs : List Addr) → has p (x ∷ xs) ≡ false → p ≢ x
ne_of_first p x xs o e = ground arith

has-swapped :
    (c x : Addr) (xs : List Addr)
    → has c (x ∷ xs) ≡ false
    → has x xs ≡ false
    → (has x (c ∷ (xs ++ [])) ≡ false) × (has x (xs ++ (c ∷ [])) ≡ false)
has-swapped c x xs o d = ground (arith, has-append x xs [], has-append x xs (c ∷ []))

module _ (k : Kernel) (next : Addr) where
  abbrev pcbs1 : Addr → Pcb
  pcbs1 = update k.processes.pcbs k.current (record (pcb_of k k.current) { status = ready })

  turned-next :
      next ≢ k.current → turned_pcbs k next next ≡ record (pcb_of k next) { status = running }
  turned-next ne =
      update_same pcbs1 next (record (pcbs1 next) { status = running })
      ∙ ap {A = Pcb} {B = Pcb} (λ p. record p { status = running })
          (update_other k.processes.pcbs k.current next
            (record (pcb_of k k.current) { status = ready }) ne)

  turned-other : (p : Addr) → p ≢ next → turned_pcbs k next p ≡ pcbs1 p
  turned-other p ne = update_other pcbs1 next p (record (pcbs1 next) { status = running }) ne

  turned-current :
      k.current ≢ next
      → turned_pcbs k next k.current ≡ record (pcb_of k k.current) { status = ready }
  turned-current ne =
      turned-other k.current ne
      ∙ update_same k.processes.pcbs k.current (record (pcb_of k k.current) { status = ready })

  turned-same : (p : Addr) → p ≢ k.current → p ≢ next → turned_pcbs k next p ≡ pcb_of k p
  turned-same p ne ne' =
      turned-other p ne'
      ∙ update_other k.processes.pcbs k.current p (record (pcb_of k k.current) { status = ready })
          ne

  pid1 : (p : Addr) → (pcbs1 p).pid ≡ (pcb_of k p).pid
  pid1 p = elim (address-cases p k.current) [
    | inl e ↦
        rw
          (
            e,
            update_same k.processes.pcbs k.current (record (pcb_of k k.current) { status = ready }),
          )
          refl
    | inr ne ↦
        ap (λ p. p.pid)
          (update_other k.processes.pcbs k.current p
            (record (pcb_of k k.current) { status = ready }) ne)
  ]

  turned-pid : (p : Addr) → (turned_pcbs k next p).pid ≡ (pcb_of k p).pid
  turned-pid p = elim (address-cases p next) [
    | inl e ↦
        ap (λ q. (turned_pcbs k next q).pid) e
        ∙ ap (λ p. p.pid) (update_same pcbs1 next (record (pcbs1 next) { status = running }))
        ∙ pid1 next
        ∙ ap (λ q. (pcb_of k q).pid) (sym e)
    | inr ne ↦ ap (λ p. p.pid) (turned-other p ne) ∙ pid1 p
  ]

-- The running process becomes the last ready one and the first ready process runs. Of these two
-- only the status changes, no other process changes, nor do the links of any process that is not
-- one of the ready ones or the running one, and no other part of the kernel does.
pub switch-Turned :
    {k : Kernel} (next : Addr) (rest : List Addr)
    → IsReady k (next ∷ rest)
    → (k' : Kernel) × (switch k ≡ some k') × Turned k next rest k'
switch-Turned {k} next rest i =
    let (r1, detached, d1) = detach-Detached next [] rest i.list in
    let out : has k.current rest ≡ false = ground (arith, i.apart) in
    let same : r1.0 k.current ≡ k.processes.pcb_items k.current = d1.frame k.current i.apart in
    let loose : IsLoose r1.0 k.current = record {
      ne_null = i.loose.ne_null;
      no_prev = rw same i.loose.no_prev;
      no_next = rw same i.loose.no_next;
    } in
    let (r2, inserted, d2) = insert_last-Inserted rest d1.is_list loose out in
    let swapped = has-swapped k.current next rest i.apart i.list.distinct.0 in
    let ne = ne_of_first k.current next rest i.apart in
    let new = turned-next k next (λ e. ne (sym e)) in
    let old = turned-current k next ne in
    let kept : r2.0 next ≡ r1.0 next = d2.frame next swapped.0 in
    (
      turned k next r2.0 r2.1,
      switch_runs k next r1.0 r2.0 r1.1 r2.1 i.list.first i.list.chain.0 i.loose.ne_null
          (detached ∙ ap (λ a. some (r1.0, r1.1, a)) d1.returned)
          (inserted ∙ ap (λ a. some (r2.0, r2.1, a)) d2.returned),
      record {
        current = refl;
        is_ready = record {
          list = d2.is_list;
          loose = record {
            ne_null = i.list.chain.0;
            no_prev = rw kept d1.loose.no_prev;
            no_next = rw kept d1.loose.no_next;
          };
          apart = swapped.1;
        };
        new_status = ap (λ p. p.status) new;
        old_status = ap (λ p. p.status) old;
        new = new;
        old = old;
        others = turned-same k next;
        whole = refl;
        pids = turned-pid k next;
        frame = λ p o.
            let inner = has-behind p k.current (next ∷ rest) o in
            (
              turned-same k next p (ne_of_first p k.current (next ∷ rest) o)
                  (ne_of_first p next rest inner),
              d2.frame p (has-between p k.current next rest o) ∙ d1.frame p inner,
            );
        waiting_list = refl;
        timing = refl;
        time = refl;
      },
    )

-- Some turns in a row.
unfoldable pub turns : ℕ → Kernel → Option Kernel
turns zero k = some k
turns (suc n) k = switch k >>= turns n

-- Every ready process has its turn: the process behind `n` others runs after `n + 1` turns, and the
-- order in which the others wait is kept, the process that ran first behind those that were behind.
pub turns-fair :
    (p : Addr) (xs ys : List Addr) {k : Kernel}
    → IsReady k (xs ++ (p ∷ ys))
    → (k' : Kernel) × (turns (suc (length xs)) k ≡ some k')
      × (k'.current ≡ p)
      × IsReady k' (ys ++ (k.current ∷ xs))
unfolding turns
turns-fair p [] ys {k} i =
    let (k', run, t) = switch-Turned p ys i in (k', rw run refl, t.current, t.is_ready)
turns-fair p (x ∷ xs) ys {k} i =
    let (k1, run1, t) = switch-Turned x (xs ++ (p ∷ ys)) i in
    let next : IsReady k1 (xs ++ (p ∷ (ys ++ (k.current ∷ [])))) =
      subst (IsReady k1) (append_assoc xs (p ∷ ys) (k.current ∷ [])) t.is_ready in
    let (k', run, at, done) = turns-fair p xs (ys ++ (k.current ∷ [])) next in
    let order : (ys ++ (k.current ∷ [])) ++ (k1.current ∷ xs) ≡ ys ++ (k.current ∷ x ∷ xs) =
      append_assoc ys (k.current ∷ []) (k1.current ∷ xs)
      ∙ ap (λ c. ys ++ (k.current ∷ c ∷ xs)) t.current in
    (k', rw run1 run, at, subst (IsReady k') order done)
