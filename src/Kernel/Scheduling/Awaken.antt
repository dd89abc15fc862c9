-- ===== src/Kernel/Scheduling/Awaken.antt =====
-- The loop of internal_schedule that wakes the processes of the elapsed timers.
use mathlib.Core.Path.{subst}
use mathlib.Core.List.{append_assoc}
use messages_queue_disastros.Prelude.{
  ℕ, zero, suc, ◌<◌, ◌≡◌, refl, ◌∙◌, ◌≢◌, ap, sym, true, false, some, List, [], ◌∷◌, ◌++◌, arith,
  length, ℤ, ltb_ℤ, ◌==◌, ==-eq-false, ==_iff, if◌then◌else◌, ◌>>=◌, Bool-cases, inl, inr,
}
use messages_queue_disastros.LinkedList.{Addr}
use messages_queue_disastros.LinkedList.Chain.{
  IsList, has, Distinct, has-insert, last_or, last_or-append,
}
use messages_queue_disastros.Process.{ready}
use messages_queue_disastros.Timer.{Timers, TimerItem, timer_list_current}
use messages_queue_disastros.Timer.Sorted.{IsTimers, early, late}
use messages_queue_disastros.Kernel.{Kernel, pcb_of}
use messages_queue_disastros.Kernel.Scheduling.{wake_one, wake_elapsed}
use messages_queue_disastros.Kernel.Scheduling.Wake.{Disjoint, Woken, wake_one-Woken}
use messages_queue_disastros.Kernel.Scheduling.Sleepers.{
  remove, without, sleepers, IsAsleep, Place, place, Disjoint-remove, waits-remove, remove_outside,
}

-- What the loop leaves: the processes `ps` of the elapsed timers are ready, in front of `back` and
-- behind `front`, and those of the later timers `ts` still wait.
pub record Awake (k : Kernel) (ts ws ps front back : List Addr) (k' : Kernel) : Type 0 where
  pub free : List ℕ
  pub asleep : IsAsleep k' free ts (without ps ws) (front ++ (ps ++ back))
  pub status : (p : Addr) → has p ps ≡ true → (pcb_of k' p).status ≡ ready
  pub others : (p : Addr) → has p ps ≡ false → pcb_of k' p ≡ pcb_of k p
  pub frame :
      (a : Addr)
      → has a ws ≡ false
      → has a (front ++ back) ≡ false
      → k'.processes.pcb_items a ≡ k.processes.pcb_items a
  pub timers : k'.timing.timers ≡ k.timing.timers
  pub current : k'.current ≡ k.current
  pub time : k'.time ≡ k.time

timer_list_current-first :
    {s : Timers} {free : List ℕ} {x : Addr} {xs : List Addr} (now : ℤ)
    → IsTimers s free (x ∷ xs)
    → timer_list_current s now ≡ (if ltb_ℤ now (s.timers x).awakening_time then 0 else x)
unfolding timer_list_current
timer_list_current-first {x} now i = rw (i.list.first, ==-eq-false x 0 i.list.chain.0) refl

timer_list_current-none :
    {s : Timers} {free : List ℕ} (now : ℤ) → IsTimers s free [] → timer_list_current s now ≡ 0
unfolding timer_list_current
timer_list_current-none now i = rw i.list.first refl

stop_runs :
    (fuel : ℕ) (k : Kernel) (previous : Addr)
    → timer_list_current k.timing k.time ≡ 0
    → wake_elapsed (suc fuel) k previous ≡ some k
unfolding wake_elapsed
stop_runs fuel k previous e = rw (wake_elapsed, e) refl

step_runs :
    (fuel : ℕ) (k k1 : Kernel) (previous t p : Addr)
    → timer_list_current k.timing k.time ≡ t
    → t ≢ 0
    → wake_one k t previous ≡ some (p, k1)
    → wake_elapsed (suc fuel) k previous ≡ wake_elapsed fuel k1 p
unfolding wake_elapsed
step_runs fuel k k1 previous t p e nz run =
    let started : (timer_list_current k.timing k.time == 0) ≡ false =
      ap (λ a. a == 0) e ∙ ==-eq-false t 0 nz in
    rw (wake_elapsed, started)
      (ap (λ a. wake_one k a previous >>= λ (woken, k'). wake_elapsed fuel k' woken) e
        ∙ ap (λ o. o >>= λ (woken, k'). wake_elapsed fuel k' woken) run)

unchanged :
    (k : Kernel) (free : List ℕ) (ts ws front back : List Addr)
    → IsAsleep k free ts ws (front ++ back)
    → Awake k ts ws [] front back k
unchanged k free ts ws front back i = record {
  free = free;
  asleep = i;
  status = λ p j. cc;
  others = λ p o. refl;
  frame = λ a o o'. refl;
  timers = refl;
  current = refl;
  time = refl;
}

-- After a round the rest of the timers are asleep.
next-IsAsleep :
    {k : Kernel} {free : List ℕ} {t : Addr} {ts ws front back : List Addr} {k1 : Kernel}
    (i : IsAsleep k free (t ∷ ts) ws (front ++ back)) (q : Place (k.timing.timers t).pcb ws)
    (w : Woken k free t (k.timing.timers t).pcb ts q.before q.after front back k1)
    → IsAsleep k1
        (w.timers.index ∷ free)
        ts
        (remove (k.timing.timers t).pcb ws)
        (front ++ ((k.timing.timers t).pcb ∷ back))
next-IsAsleep {k} {t} {ts} {ws} {front} {back} {k1} i q w =
    let p = (k.timing.timers t).pcb in
    let same = w.timers.same in
    record {
      timers = w.timers.timers;
      waiting =
          subst (IsList k1.processes.pcb_items k1.waiting_list) (sym q.removed) w.waiting_list;
      ready = w.ready_list;
      apart = Disjoint-remove p ws front back i.apart i.waiting.distinct;
      waits =
          subst (λ f. (a : Addr) → has a (sleepers f ts) ≡ true → has a (remove p ws) ≡ true)
            (sym same)
            (waits-remove p (sleepers k.timing.timers ts) ws i.distinct.0
              λ a j. i.waits a (ground arith));
      distinct = subst (λ f. Distinct (sleepers f ts)) (sym same) i.distinct.1;
    }

frame_ready :
    (a p : Addr) (front back : List Addr)
    → has a (front ++ back) ≡ false
    → (a == p) ≡ false
    → has a ((front ++ (p ∷ [])) ++ back) ≡ false
frame_ready a p front back o ne =
    ap (has a) (append_assoc front (p ∷ []) back) ∙ ground (arith, has-insert a p front back, o)

ne_of_waits : (a p : Addr) (ws : List Addr) → has p ws ≡ true → has a ws ≡ false → (a == p) ≡ false
ne_of_waits a p ws i o = elim (Bool-cases (a == p)) [
  | inl same ↦ let e : has p ws ≡ false = ap (λ b. has b ws) (sym ((==_iff a p).0 same)) ∙ o in cc
  | inr other ↦ other
]

joined :
    {k k1 k' : Kernel} {free : List ℕ} {t : Addr} {ts late_ts ws ps front back : List Addr}
    (i : IsAsleep k free (t ∷ ts) ws (front ++ back)) (q : Place (k.timing.timers t).pcb ws)
    (w : Woken k free t (k.timing.timers t).pcb ts q.before q.after front back k1)
    → has (k.timing.timers t).pcb ps ≡ false
    → Awake k1 late_ts
        (remove (k.timing.timers t).pcb ws)
        ps
        (front ++ ((k.timing.timers t).pcb ∷ []))
        back
        k'
    → Awake k late_ts ws ((k.timing.timers t).pcb ∷ ps) front back k'
joined {k} {k1} {k'} {t} {late_ts} {ws} {ps} {front} {back} i q w out d =
    let p = (k.timing.timers t).pcb in
    let waiting = i.waits p (ground arith) in
    record {
      free = d.free;
      asleep =
          subst (IsAsleep k' d.free late_ts (without ps (remove p ws)))
            (append_assoc front (p ∷ []) (ps ++ back)) d.asleep;
      status = λ a j. elim (Bool-cases (a == p)) [
        | inl same ↦
            let e = (==_iff a p).0 same in
            ap (λ b. (pcb_of k' b).status) e ∙ ap (λ b. b.status) (d.others p out) ∙ w.status
        | inr other ↦ d.status a (ground arith)
      ];
      others = λ a o.
          let other : a ≢ p = λ e. ground arith in d.others a (ground arith) ∙ w.others a other;
      frame = λ a o o'.
          let ne = ne_of_waits a p ws waiting o in
          let outside : has a (q.before ++ (p ∷ q.after)) ≡ false = ap (has a) (sym q.whole) ∙ o in
          d.frame a (remove_outside a p ws o) (frame_ready a p front back o' ne)
          ∙ w.frame a outside o';
      timers = d.timers ∙ w.timers.same;
      current = d.current ∙ w.current;
      time = d.time ∙ w.time;
    }

-- The outcome of the loop, over the timers `f` and the time.
abbrev Outcome : ℕ → Kernel → (Addr → TimerItem) → ℤ → (ts ws front back : List Addr) → Type 0
Outcome fuel k f now ts ws front back =
    (k' : Kernel) × (wake_elapsed fuel k (last_or 0 front) ≡ some k')
    × Awake k (late f now ts) ws (sleepers f (early f now ts)) front back k'

pub not_early :
    (p : Addr) (f : Addr → TimerItem) (now : ℤ) (ts : List Addr)
    → has p (sleepers f ts) ≡ false
    → has p (sleepers f (early f now ts)) ≡ false
unfolding early
not_early p f now [] o = refl
not_early p f now (t ∷ ts) o = elim (Bool-cases (ltb_ℤ now (f t).awakening_time)) [
  | inl later ↦ rw later refl
  | inr elapsed ↦ rw elapsed (ground (arith, not_early p f now ts, o))
]

-- The first of the processes of a sequence of timers is woken.
first-Woken :
    {k : Kernel} {free : List ℕ} {t : Addr} {ts ws : List Addr} (front back : List Addr)
    → IsAsleep k free (t ∷ ts) ws (front ++ back)
    → (q : Place (k.timing.timers t).pcb ws)
    → (k1 : Kernel) × (wake_one k t (last_or 0 front) ≡ some ((k.timing.timers t).pcb, k1))
      × Woken k free t (k.timing.timers t).pcb ts q.before q.after front back k1
first-Woken {k} {free} {t} {ts} {ws} front back i q =
    wake_one-Woken k free t (k.timing.timers t).pcb ts q.before q.after front back i.timers refl
      (subst (IsList k.processes.pcb_items k.waiting_list) q.whole i.waiting) i.ready
      (subst (Disjoint (front ++ back)) q.whole i.apart)

again :
    {k k1 : Kernel} {free : List ℕ} {t : Addr} {ts ws front back : List Addr} (fuel : ℕ)
    (i : IsAsleep k free (t ∷ ts) ws (front ++ back)) (q : Place (k.timing.timers t).pcb ws)
    (w : Woken k free t (k.timing.timers t).pcb ts q.before q.after front back k1)
    → ltb_ℤ k.time (k.timing.timers t).awakening_time ≡ false
    → wake_one k t (last_or 0 front) ≡ some ((k.timing.timers t).pcb, k1)
    → Outcome fuel k1 k1.timing.timers k1.time ts
        (remove (k.timing.timers t).pcb ws)
        (front ++ ((k.timing.timers t).pcb ∷ []))
        back
    → Outcome (suc fuel) k k.timing.timers k.time (t ∷ ts) ws front back
unfolding early late
again {k} {k1} {t} {ts} {ws} {front} {back} fuel i q w now run rest =
    let p = (k.timing.timers t).pcb in
    let first = timer_list_current-first k.time i.timers ∙ rw now refl in
    let out = not_early p k.timing.timers k.time ts i.distinct.0 in
    let rest1 =
      subst (λ f. Outcome fuel k1 f k1.time ts (remove p ws) (front ++ (p ∷ [])) back) w.timers.same
        rest in
    let (k', went, d) =
      subst (λ z. Outcome fuel k1 k.timing.timers z ts (remove p ws) (front ++ (p ∷ [])) back)
        w.time rest1 in
    rw now (
      k',
      step_runs fuel k k1 (last_or 0 front) t p first i.timers.list.chain.0 run
          ∙ ap (wake_elapsed fuel k1) (sym (last_or-append 0 front (p ∷ [])))
          ∙ went,
      joined i q w out d,
    )

-- With the timers `ts` and the processes `ws` that wait the loop ends, within as many rounds as
-- there are timers and one: the processes of the elapsed timers, in the order of the timers, are
-- ready, behind those that were woken before and in front of the others, and all others wait.
pub wake_elapsed-Awake :
    (ts : List Addr) (fuel : ℕ) (k : Kernel) (free : List ℕ) (ws front back : List Addr)
    → length ts < fuel
    → IsAsleep k free ts ws (front ++ back)
    → (k' : Kernel) × (wake_elapsed fuel k (last_or 0 front) ≡ some k')
      × Awake k
          (late k.timing.timers k.time ts)
          ws
          (sleepers k.timing.timers (early k.timing.timers k.time ts))
          front
          back
          k'
unfolding early late
wake_elapsed-Awake ts zero k free ws front back lt i = absurd (omega arith)
wake_elapsed-Awake [] (suc fuel) k free ws front back lt i = (
  k,
  stop_runs fuel k (last_or 0 front) (timer_list_current-none k.time i.timers),
  unchanged k free [] ws front back i,
)
wake_elapsed-Awake (t ∷ ts) (suc fuel) k free ws front back lt i =
    elim (Bool-cases (ltb_ℤ k.time (k.timing.timers t).awakening_time)) [
      | inl later ↦ rw later (
        k,
        stop_runs fuel k (last_or 0 front)
            (timer_list_current-first k.time i.timers ∙ rw later refl),
        unchanged k free (t ∷ ts) ws front back i,
      )
      | inr now ↦
          let p = (k.timing.timers t).pcb in
          let q = place p ws (i.waits p (ground arith)) in
          let (k1, run, w) = first-Woken front back i q in
          let asleep =
            subst (IsAsleep k1 (w.timers.index ∷ free) ts (remove p ws))
              (sym (append_assoc front (p ∷ []) back)) (next-IsAsleep i q w) in
          again fuel i q w now run (
            wake_elapsed-Awake ts fuel k1 (w.timers.index ∷ free) (remove p ws) (front ++ (p ∷ []))
              back (omega (arith, lt)) asleep)
    ]
