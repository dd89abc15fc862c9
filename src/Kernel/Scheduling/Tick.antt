-- ===== src/Kernel/Scheduling/Tick.antt =====
-- internal_schedule and the timer interrupt as a whole.
use mathlib.Core.Path.{subst}
use messages_queue_disastros.Prelude.{
  ℕ, suc, ◌≡◌, refl, ◌∙◌, ◌≢◌, ap, sym, true, false, none, some, List, [], ◌∷◌, ◌++◌, arith, length,
  pos, pos_part, ◌+ℤ◌, ◌==◌, ==-eq-false, ==_iff, if◌then◌else◌, ◌>>=◌, Bool-cases, inl, inr,
}
use messages_queue_disastros.LinkedList.{Addr, rounds}
use messages_queue_disastros.LinkedList.Chain.{
  IsList, IsLoose, has, head_or, Distinct, has-snoc, has-append,
}
use messages_queue_disastros.LinkedList.Frame.{IsList-frame}
use messages_queue_disastros.Timer.Sorted.{IsTimers, early, late}
use messages_queue_disastros.Kernel.{Kernel}
use messages_queue_disastros.Kernel.Scheduling.{switch, wake_elapsed, internal_schedule}
use messages_queue_disastros.Kernel.Scheduling.Switch.{IsReady, switch-Turned}
use messages_queue_disastros.Kernel.Scheduling.Wake.{Disjoint, not_in}
use messages_queue_disastros.Kernel.Scheduling.Sleepers.{
  IsAsleep, sleepers, without, remove, remove_outside,
}
use messages_queue_disastros.Kernel.Scheduling.Awaken.{Awake, not_early, wake_elapsed-Awake}
use messages_queue_disastros.Kernel.Dispatch.{timer_interrupt}

-- The invariant of the scheduler: one process runs, the processes `rs` are ready and `ws` wait, and
-- no process is two of these.
pub record IsRunning (k : Kernel) (free : List ℕ) (ts ws rs : List Addr) : Type 0 where
  pub asleep : IsAsleep k free ts ws rs
  pub loose : IsLoose k.processes.pcb_items k.current
  pub out_ready : has k.current rs ≡ false
  pub out_waiting : has k.current ws ≡ false

-- The ready processes after a turn of the running process `c`.
abbrev pub turn : List Addr → Addr → List Addr
turn [] c = []
turn (x ∷ xs) c = xs ++ (c ∷ [])

stay_runs : (k : Kernel) → k.ready_list.first ≡ 0 → switch k ≡ some k
unfolding switch
stay_runs k e = rw e refl

outside_turn :
    (a c n : Addr) (rest ws : List Addr)
    → Disjoint (n ∷ rest) ws
    → has c ws ≡ false
    → has a ws ≡ true
    → has a (c ∷ n ∷ rest) ≡ false
outside_turn a c n rest ws apart out i =
    let o = not_in a (n ∷ rest) ws apart i in
    let ne : (a == c) ≡ false = elim (Bool-cases (a == c)) [
      | inl same ↦ let e : has a ws ≡ false = ap (λ b. has b ws) ((==_iff a c).0 same) ∙ out in cc
      | inr other ↦ other
    ] in
    ground arith

Disjoint-turn :
    (c n : Addr) (rest ws : List Addr)
    → Disjoint (n ∷ rest) ws
    → has c ws ≡ false
    → Disjoint (rest ++ (c ∷ [])) ws
Disjoint-turn c n rest ws apart out a i = elim (Bool-cases (a == c)) [
  | inl same ↦ ap (λ b. has b ws) ((==_iff a c).0 same) ∙ out
  | inr other ↦ let inside : has a rest ≡ true = has-snoc a c rest i other in apart a (ground arith)
]

-- A turn keeps the invariant.
switch-IsRunning :
    (k : Kernel) (free : List ℕ) (ts ws rs : List Addr)
    → IsRunning k free ts ws rs
    → (k' : Kernel) × (switch k ≡ some k')
      × IsRunning k' free ts ws (turn rs k.current)
      × (k'.current ≡ head_or k.current rs)
      × (k'.time ≡ k.time)
switch-IsRunning k free ts ws [] i = (k, stay_runs k i.asleep.ready.first, i, refl, refl)
switch-IsRunning k free ts ws (n ∷ rest) i =
    let ready : IsReady k (n ∷ rest) = record {
      list = i.asleep.ready;
      loose = i.loose;
      apart = i.out_ready;
    } in
    let (k', run, t) = switch-Turned n rest ready in
    let back = sym t.timing in
    (
      k',
      run,
      record {
        asleep = record {
          timers = subst (λ s. IsTimers s free ts) back i.asleep.timers;
          waiting =
              subst (λ h. IsList k'.processes.pcb_items h ws) (sym t.waiting_list)
                (IsList-frame k'.processes.pcb_items ws
                  (λ a j.
                    (t.frame a
                      (outside_turn a k.current n rest ws i.asleep.apart i.out_waiting j)).1)
                  i.asleep.waiting);
          ready = t.is_ready.list;
          apart = Disjoint-turn k.current n rest ws i.asleep.apart i.out_waiting;
          waits =
              subst (λ s. (p : Addr) → has p (sleepers s.timers ts) ≡ true → has p ws ≡ true) back
                i.asleep.waits;
          distinct = subst (λ s. Distinct (sleepers s.timers ts)) back i.asleep.distinct;
        };
        loose = t.is_ready.loose;
        out_ready = t.is_ready.apart;
        out_waiting = ap (λ a. has a ws) t.current ∙ i.asleep.apart n (ground arith);
      },
      t.current,
      t.time,
    )

schedule_runs :
    (k k1 : Kernel)
    → wake_elapsed (rounds k.timing.timer_list) k 0 ≡ some k1
    → internal_schedule k ≡ switch k1
unfolding internal_schedule
schedule_runs k k1 run = ap (λ o. o >>= switch) run

without_outside : (a : Addr) (ps ws : List Addr) → has a ws ≡ false → has a (without ps ws) ≡ false
without_outside a [] ws o = o
without_outside a (p ∷ ps) ws o = without_outside a ps (remove p ws) (remove_outside a p ws o)

awake-IsRunning :
    {k : Kernel} {free : List ℕ} {ts rest ws ps rs : List Addr} {k1 : Kernel}
    (i : IsRunning k free ts ws rs) (d : Awake k rest ws ps [] rs k1)
    → has k.current ps ≡ false
    → IsRunning k1 d.free rest (without ps ws) (ps ++ rs)
awake-IsRunning {k} {ws} {ps} {rs} {k1} i d out =
    let same = d.frame k.current i.out_waiting i.out_ready in
    record {
      asleep = d.asleep;
      loose = subst (IsLoose k1.processes.pcb_items) (sym d.current) (record {
        ne_null = i.loose.ne_null;
        no_prev = rw same i.loose.no_prev;
        no_next = rw same i.loose.no_next;
      });
      out_ready =
          ap (λ a. has a (ps ++ rs)) d.current
          ∙ ground (arith, has-append k.current ps rs, i.out_ready);
      out_waiting =
          ap (λ a. has a (without ps ws)) d.current ∙ without_outside k.current ps ws i.out_waiting;
    }

-- The invariant does not depend on the time.
later-IsRunning :
    (k : Kernel) (free : List ℕ) (ts ws rs : List Addr)
    → IsRunning k free ts ws rs
    → IsRunning (record k { time = k.time +ℤ pos 1 }) free ts ws rs
later-IsRunning k free ts ws rs i = record {
  asleep = record {
    timers = i.asleep.timers;
    waiting = i.asleep.waiting;
    ready = i.asleep.ready;
    apart = i.asleep.apart;
    waits = i.asleep.waits;
    distinct = i.asleep.distinct;
  };
  loose = i.loose;
  out_ready = i.out_ready;
  out_waiting = i.out_waiting;
}

pub no_sleeper :
    (a : Addr) (qs ws : List Addr)
    → ((p : Addr) → has p qs ≡ true → has p ws ≡ true)
    → has a ws ≡ false
    → has a qs ≡ false
no_sleeper a qs ws waits o = elim (Bool-cases (has a qs)) [
  | inl inside ↦ let i = waits a inside in cc
  | inr outside ↦ outside
]

-- internal_schedule keeps the invariant: the processes of the elapsed timers are woken, in the
-- order of their timers, in front of those that were ready; of these the first one runs, and the
-- one that ran is the last ready one. With none of them the running process goes on.
pub internal_schedule-IsRunning :
    (k : Kernel) (free : List ℕ) (ts ws rs : List Addr)
    → IsRunning k free ts ws rs
    → (k' : Kernel) × (free' : List ℕ) × (internal_schedule k ≡ some k')
      × IsRunning k' free'
          (late k.timing.timers k.time ts)
          (without (sleepers k.timing.timers (early k.timing.timers k.time ts)) ws)
          (turn (sleepers k.timing.timers (early k.timing.timers k.time ts) ++ rs) k.current)
      × (k'.current
          ≡ head_or k.current (sleepers k.timing.timers (early k.timing.timers k.time ts) ++ rs))
      × (k'.time ≡ k.time)
internal_schedule-IsRunning k free ts ws rs i =
    let elapsed = sleepers k.timing.timers (early k.timing.timers k.time ts) in
    let rest = late k.timing.timers k.time ts in
    let fuel : rounds k.timing.timer_list ≡ suc (length ts) =
      ap (λ z. suc (pos_part z)) i.asleep.timers.list.size in
    let (k1, woke, d) =
      wake_elapsed-Awake ts (suc (length ts)) k free ws [] rs (omega arith) i.asleep in
    let out =
      not_early k.current k.timing.timers k.time ts
        (no_sleeper k.current (sleepers k.timing.timers ts) ws i.asleep.waits i.out_waiting) in
    let running = awake-IsRunning i d out in
    let (k2, switched, j, at, time) =
      switch-IsRunning k1 d.free rest (without elapsed ws) (elapsed ++ rs) running in
    (
      k2,
      d.free,
      schedule_runs k k1 (ap (λ z. wake_elapsed z k 0) fuel ∙ woke) ∙ switched,
      subst (λ c. IsRunning k2 d.free rest (without elapsed ws) (turn (elapsed ++ rs) c)) d.current
          j,
      at ∙ ap (λ c. head_or c (elapsed ++ rs)) d.current,
      time ∙ d.time,
    )

tick_runs :
    (k k1 : Kernel)
    → internal_schedule (record k { time = k.time +ℤ pos 1 }) ≡ some k1
    → k1.current ≢ 0
    → timer_interrupt k ≡ some k1
unfolding timer_interrupt
tick_runs k k1 run nz =
    ap (λ o. o >>= λ k'. if k'.current == 0 then none else some k') run
    ∙ rw (==-eq-false k1.current 0 nz) refl

-- A timer interrupt never fails on a kernel with the invariant, and keeps it: the time advances by
-- one, the processes of the timers that elapse by then are woken, in the order of their timers, in
-- front of those that were ready, and the first of all these runs, the one that ran behind them.
pub timer_interrupt-IsRunning :
    (k : Kernel) (free : List ℕ) (ts ws rs : List Addr)
    → IsRunning k free ts ws rs
    → (k' : Kernel) × (free' : List ℕ) × (timer_interrupt k ≡ some k')
      × IsRunning k' free'
          (late k.timing.timers (k.time +ℤ pos 1) ts)
          (without (sleepers k.timing.timers (early k.timing.timers (k.time +ℤ pos 1) ts)) ws)
          (turn
            (sleepers k.timing.timers (early k.timing.timers (k.time +ℤ pos 1) ts) ++ rs)
            k.current)
      × (k'.current
          ≡ head_or k.current
              (sleepers k.timing.timers (early k.timing.timers (k.time +ℤ pos 1) ts) ++ rs))
      × (k'.time ≡ k.time +ℤ pos 1)
timer_interrupt-IsRunning k free ts ws rs i =
    let k1 : Kernel = record k { time = k.time +ℤ pos 1 } in
    let (k', free', run, j, at, time) =
      internal_schedule-IsRunning k1 free ts ws rs (later-IsRunning k free ts ws rs i) in
    (k', free', tick_runs k k' run j.loose.ne_null, j, at, time)
