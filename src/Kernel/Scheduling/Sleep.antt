-- ===== src/Kernel/Scheduling/Sleep.antt =====
-- internal_sleep, where another process is ready.
use mathlib.Core.Path.{subst}
use messages_queue_disastros.Prelude.{
  ℕ, ◌≡◌, refl, ◌∙◌, ◌≢◌, ap, sym, true, false, some, List, [], ◌∷◌, ◌++◌, arith, ℤ, ◌+ℤ◌, to_int,
  ◌==◌, ==-eq-false, ==_iff, Bool-cases, inl, inr, update, update_same,
}
use messages_queue_disastros.LinkedList.{Addr, Items, ListHead, insert, detach}
use messages_queue_disastros.LinkedList.Chain.{
  has, has-append, has-snoc, Distinct, Distinct-insert, ne_of_has, has-cons,
}
use messages_queue_disastros.LinkedList.Insert.{insert_last-Inserted}
use messages_queue_disastros.LinkedList.Detach.{detach-Detached}
use messages_queue_disastros.LinkedList.Frame.{IsList-frame}
use messages_queue_disastros.Process.{waiting}
use messages_queue_disastros.Timer.{Timers, TimerItem, timer_list_add}
use messages_queue_disastros.Timer.Sorted.{early, late, early-append-late}
use messages_queue_disastros.Timer.Add.{Added, timer_list_add-Added}
use messages_queue_disastros.Kernel.{Kernel, pcb_of, arg, insert_pcb, detach_pcb}
use messages_queue_disastros.Kernel.Scheduling.{internal_sleep}
use messages_queue_disastros.Kernel.Scheduling.Wake.{Disjoint, not_in}
use messages_queue_disastros.Kernel.Scheduling.Sleepers.{sleepers}
use messages_queue_disastros.Kernel.Scheduling.Tick.{IsRunning, no_sleeper}

-- The kernel that internal_sleep leaves.
abbrev slept : Kernel → Addr → Timers → Items → (waiting_list ready_list : ListHead) → Kernel
slept k next timing items waiting_list ready_list = record k {
  processes = record k.processes {
    pcb_items = items;
    pcbs = update k.processes.pcbs k.current (record (pcb_of k k.current) { status = waiting });
  };
  timing = timing;
  waiting_list = waiting_list;
  ready_list = ready_list;
  current = next;
}

sleep_runs :
    (k : Kernel) (next item : Addr) (timing : Timers) (items1 items2 : Items)
    (waiting_list ready_list : ListHead)
    → k.current ≢ 0
    → (pcb_of k k.current).timer ≡ 0
    → timer_list_add k.timing (k.time +ℤ to_int (arg k 0)) k.current ≡ some (item, timing)
    → item ≢ 0
    → insert k.processes.pcb_items k.waiting_list k.waiting_list.last k.current
      ≡ some (items1, waiting_list, k.current)
    → k.ready_list.first ≡ next
    → next ≢ 0
    → detach items1 k.ready_list next ≡ some (items2, ready_list, next)
    → internal_sleep k ≡ some (slept k next timing items2 waiting_list ready_list)
unfolding internal_sleep insert_pcb detach_pcb
sleep_runs k next item timing items1 items2 waiting_list ready_list nz e1 e2 ni e3 e4 nn e5 =
    simp
      (==-eq-false k.current 0 nz, e1, e2, ==-eq-false item 0 ni, e3, e4, ==-eq-false next 0 nn, e5)
      refl

module _ (f g : Addr → TimerItem) where
  sleepers-append : (xs ys : List Addr) → sleepers f (xs ++ ys) ≡ sleepers f xs ++ sleepers f ys
  sleepers-append [] ys = refl
  sleepers-append (x ∷ xs) ys = ap (◌∷◌ (f x).pcb) (sleepers-append xs ys)

  sleepers-same :
      (xs : List Addr) → ((a : Addr) → has a xs ≡ true → g a ≡ f a) → sleepers g xs ≡ sleepers f xs
  sleepers-same [] same = refl
  sleepers-same (x ∷ xs) same =
      rw (same x (ground arith), sleepers-same xs λ a i. same a (ground arith)) refl

-- The processes of the timers after one of them is added.
sleepers-insert :
    (f g : Addr → TimerItem) (xs ys : List Addr) (item p : Addr)
    → has item (xs ++ ys) ≡ false
    → (g item).pcb ≡ p
    → ((a : Addr) → a ≢ item → g a ≡ f a)
    → sleepers g (xs ++ (item ∷ ys)) ≡ sleepers f xs ++ (p ∷ sleepers f ys)
sleepers-insert f g xs ys item p out new others =
    let same_xs =
      sleepers-same f g xs
        λ a i. others a (ne_of_has item a (xs ++ ys) out (ground (arith, has-append a xs ys, i))) in
    let same_ys =
      sleepers-same f g ys
        λ a i. others a (ne_of_has item a (xs ++ ys) out (ground (arith, has-append a xs ys, i))) in
    sleepers-append g g xs (item ∷ ys) ∙ rw (same_xs, same_ys, new) refl

ne_of_apart : (a c : Addr) (xs : List Addr) → has c xs ≡ false → has a xs ≡ true → (a == c) ≡ false
ne_of_apart a c xs o i = ==-eq-false a c (ne_of_has c a xs o i)

-- A ready process is not one that waits then.
pub outside_sleep :
    (a c n : Addr) (rest ws : List Addr)
    → Disjoint (n ∷ rest) ws
    → has c (n ∷ rest) ≡ false
    → has a (n ∷ rest) ≡ true
    → (has a (c ∷ (ws ++ [])) ≡ false) × (has a (ws ++ (c ∷ [])) ≡ false)
outside_sleep a c n rest ws apart o i =
    let ne = ne_of_apart a c (n ∷ rest) o i in
    let out = apart a i in ground (arith, has-append a ws [], has-append a ws (c ∷ []))

pub outside_next :
    (a c n : Addr) (rest ws : List Addr)
    → Disjoint (n ∷ rest) ws
    → has c (n ∷ rest) ≡ false
    → has a (ws ++ (c ∷ [])) ≡ true
    → has a (n ∷ rest) ≡ false
outside_next a c n rest ws apart o i = elim (Bool-cases (a == c)) [
  | inl same ↦ ap (λ b. has b (n ∷ rest)) ((==_iff a c).0 same) ∙ o
  | inr other ↦ not_in a (n ∷ rest) ws apart (has-snoc a c ws i other)
]

-- The timers after the new one is added: each process has one, and waits.
record OneEach (s : Timers) (ts ws : List Addr) : Type 0 where
  waits : (p : Addr) → has p (sleepers s.timers ts) ≡ true → has p ws ≡ true
  distinct : Distinct (sleepers s.timers ts)

has-sleepers :
    (p : Addr) (xs ys ws : List Addr) (c : Addr)
    → ((q : Addr) → has q (xs ++ ys) ≡ true → has q ws ≡ true)
    → has p (xs ++ (c ∷ ys)) ≡ true
    → has p (ws ++ (c ∷ [])) ≡ true
has-sleepers p xs ys ws c waits i = elim (Bool-cases (p == c)) [
  | inl same ↦ ground (arith, has-append p ws (c ∷ []))
  | inr other ↦
      let inside : has p (xs ++ ys) ≡ true =
        ground (arith, has-append p xs ys, has-append p xs (c ∷ ys), i) in
      let w = waits p inside in ground (arith, has-append p ws (c ∷ []))
]

timer_list_add-OneEach :
    {k : Kernel} {free rest_free : List ℕ} {ts ws rs : List Addr} {t : ℤ} {item : Addr}
    {s' : Timers} (i : IsRunning k free ts ws rs)
    (d : Added k.timing t k.current rest_free ts item s')
    → OneEach s'
        (early k.timing.timers t ts ++ (item ∷ late k.timing.timers t ts))
        (ws ++ (k.current ∷ []))
timer_list_add-OneEach {k} {ts = ts} {ws} {t = t} {item} {s'} i d =
    let f = k.timing.timers in
    let whole = early-append-late f t ts in
    let split : sleepers f ts ≡ sleepers f (early f t ts) ++ sleepers f (late f t ts) =
      ap (sleepers f) (sym whole) ∙ sleepers-append f f (early f t ts) (late f t ts) in
    let now =
      sleepers-insert f s'.timers (early f t ts) (late f t ts) item k.current
        (ap (has item) whole ∙ d.fresh) (ap (λ x. x.pcb) d.new) d.others in
    let old = subst (λ z. (p : Addr) → has p z ≡ true → has p ws ≡ true) split i.asleep.waits in
    let out = no_sleeper k.current (sleepers f ts) ws i.asleep.waits i.out_waiting in
    record {
      waits =
          subst (λ z. (p : Addr) → has p z ≡ true → has p (ws ++ (k.current ∷ [])) ≡ true) (sym now)
            (λ p.
              has-sleepers p (sleepers f (early f t ts)) (sleepers f (late f t ts)) ws k.current
                old);
      distinct = subst Distinct (sym now) (
          Distinct-insert k.current (sleepers f (early f t ts)) (sleepers f (late f t ts))
            (ap (has k.current) (sym split) ∙ out) (subst Distinct split i.asleep.distinct));
    }

-- internal_sleep of a process without a timer, with a free block and another process ready, keeps
-- the invariant: the process is the last one that waits, its timer stands behind those that elapse
-- by then and in front of the later ones, and the first ready process runs.
pub internal_sleep-IsRunning :
    (k : Kernel) (j : ℕ) (free : List ℕ) (ts ws : List Addr) (n : Addr) (rest : List Addr)
    → IsRunning k (j ∷ free) ts ws (n ∷ rest)
    → (pcb_of k k.current).timer ≡ 0
    → (k' : Kernel) × (item : Addr) × (internal_sleep k ≡ some k')
      × IsRunning k' free
          (early k.timing.timers (k.time +ℤ to_int (arg k 0)) ts
            ++ (item ∷ late k.timing.timers (k.time +ℤ to_int (arg k 0)) ts))
          (ws ++ (k.current ∷ []))
          rest
      × (k'.current ≡ n)
      × ((k'.timing.timers item).awakening_time ≡ k.time +ℤ to_int (arg k 0))
      × ((k'.timing.timers item).pcb ≡ k.current)
      × ((pcb_of k' k.current).status ≡ waiting)
internal_sleep-IsRunning k j free ts ws n rest i e =
    let t = k.time +ℤ to_int (arg k 0) in
    let (item, timing, add, d) = timer_list_add-Added j free t k.current i.asleep.timers in
    let (r1, inserted, d1) = insert_last-Inserted ws i.asleep.waiting i.loose i.out_waiting in
    let apart = i.asleep.apart in
    let ready =
      IsList-frame r1.0 (n ∷ rest)
        (λ a m. d1.frame a (outside_sleep a k.current n rest ws apart i.out_ready m).0)
        i.asleep.ready in
    let (r2, detached, d2) = detach-Detached n [] rest ready in
    let one = timer_list_add-OneEach i d in
    let first : has n (n ∷ rest) ≡ true = ground arith in
    (
      slept k n timing r2.0 r1.1 r2.1,
      item,
      sleep_runs k n item timing r1.0 r2.0 r1.1 r2.1 i.loose.ne_null e add d.ne_null
          (inserted ∙ ap (λ a. some (r1.0, r1.1, a)) d1.returned) i.asleep.ready.first
          i.asleep.ready.chain.0 (detached ∙ ap (λ a. some (r2.0, r2.1, a)) d2.returned),
      record {
        asleep = record {
          timers = d.timers;
          waiting =
              IsList-frame r2.0 (ws ++ (k.current ∷ []))
                (λ a m. d2.frame a (outside_next a k.current n rest ws apart i.out_ready m))
                d1.is_list;
          ready = d2.is_list;
          apart = λ a m.
              (outside_sleep a k.current n rest ws apart i.out_ready (has-cons a n rest m)).1;
          waits = one.waits;
          distinct = one.distinct;
        };
        loose = d2.loose;
        out_ready = i.asleep.ready.distinct.0;
        out_waiting = (outside_sleep n k.current n rest ws apart i.out_ready first).1;
      },
      refl,
      ap (λ x. x.awakening_time) d.new,
      ap (λ x. x.pcb) d.new,
      ap (λ p. p.status)
          (update_same k.processes.pcbs k.current
            (record (pcb_of k k.current) { status = waiting })),
    )
