-- ===== src/Examples/Running.antt =====
-- Interrupts, sleep and new processes on a small kernel.
use messages_queue_disastros.Prelude.{
  ℕ, ◌<◌, ◌≡◌, ◌+ℤ◌, refl, true, false, some, List, [], ◌∷◌, arith, pos, ◌==◌, if◌then◌else◌,
  to_int,
}
use messages_queue_disastros.LinkedList.{Addr, Items, list_init}
use messages_queue_disastros.LinkedList.Chain.{has}
use messages_queue_disastros.Timer.{Timers}
use messages_queue_disastros.Timer.Sorted.{IsTimers, early, late}
use messages_queue_disastros.Process.{waiting}
use messages_queue_disastros.Kernel.{Kernel, pcb_of, arg}
use messages_queue_disastros.Kernel.Scheduling.{wake_elapsed, internal_sleep}
use messages_queue_disastros.Kernel.Scheduling.Sleepers.{IsAsleep}
use messages_queue_disastros.Kernel.Scheduling.Awaken.{Awake, wake_elapsed-Awake}
use messages_queue_disastros.Kernel.Scheduling.Tick.{IsRunning, timer_interrupt-IsRunning}
use messages_queue_disastros.Kernel.Scheduling.Sleep.{internal_sleep-IsRunning}
use messages_queue_disastros.Kernel.Dispatch.{timer_interrupt}
use messages_queue_disastros.Kernel.Creation.{internal_fork, internal_spawn}
use messages_queue_disastros.Kernel.Creation.Calls.{starting, internal_spawn-Created}
use messages_queue_disastros.Kernel.Creation.Created.{HasBlocks, Created}
use messages_queue_disastros.Examples.Pools.{
  all_free, all_free-IsPool, two_taken, two_taken-IsPool, two-IsLive,
}
use messages_queue_disastros.Examples.Timing.{two_timers, two-IsTimers}
use messages_queue_disastros.Examples.Mail.{linked_processes, with_queue}

-- The processes at 640 and 656 sleep until 5 and 9; those at 600 and 616 are ready.
abbrev sleep_timers : Timers
sleep_timers = record two_timers {
  timers = λ a.
      if a == 1000
      then record { awakening_time = pos 5; pcb = 640 }
      else record { awakening_time = pos 9; pcb = 656 };
}

abbrev sleep_items : Items
sleep_items a =
    if a == 640
    then record { prev = 0; next = 656 }
    else if a == 656
    then record { prev = 640; next = 0 }
    else linked_processes a

abbrev pub sleeping : Kernel
sleeping = record with_queue {
  processes = record with_queue.processes { pcb_items = sleep_items };
  timing = sleep_timers;
  waiting_list = record { first = 640; last = 656; size = pos 2 };
  time = pos 4;
}

sleep-IsTimers : IsTimers sleep_timers (2 ∷ []) (1000 ∷ 1016 ∷ [])
sleep-IsTimers = record {
  pool = two-IsTimers.pool;
  list = two-IsTimers.list;
  live = two-IsTimers.live;
  used = two-IsTimers.used;
  sorted = ((refl, tt), (tt, tt));
}

pub sleeping-IsAsleep :
    IsAsleep sleeping (2 ∷ []) (1000 ∷ 1016 ∷ []) (640 ∷ 656 ∷ []) (600 ∷ 616 ∷ [])
sleeping-IsAsleep = record {
  timers = sleep-IsTimers;
  waiting = record {
    first = refl;
    last = refl;
    size = refl;
    chain = (λ e. omega (arith, e), refl, refl, (λ e. omega (arith, e), refl, refl, tt));
    distinct = (refl, (refl, tt));
  };
  ready = record {
    first = refl;
    last = refl;
    size = refl;
    chain = (λ e. omega (arith, e), refl, refl, (λ e. omega (arith, e), refl, refl, tt));
    distinct = (refl, (refl, tt));
  };
  apart = λ a i. ground arith;
  waits = λ p i. i;
  distinct = (refl, (refl, tt));
}

pub sleeping-IsRunning :
    IsRunning sleeping (2 ∷ []) (1000 ∷ 1016 ∷ []) (640 ∷ 656 ∷ []) (600 ∷ 616 ∷ [])
sleeping-IsRunning = record {
  asleep = sleeping-IsAsleep;
  loose = record { ne_null = λ e. omega (arith, e); no_prev = refl; no_next = refl };
  out_ready = refl;
  out_waiting = refl;
}

timer_interrupt-IsRunning_example :
    (k' : Kernel) × (free' : List ℕ) × (timer_interrupt sleeping ≡ some k')
    × IsRunning k' free' (1016 ∷ []) (656 ∷ []) (600 ∷ 616 ∷ 500 ∷ [])
    × (k'.current ≡ 640)
    × (k'.time ≡ pos 5)
unfolding early late ◌+ℤ◌
timer_interrupt-IsRunning_example =
    timer_interrupt-IsRunning sleeping (2 ∷ []) (1000 ∷ 1016 ∷ []) (640 ∷ 656 ∷ []) (600 ∷ 616 ∷ [])
      sleeping-IsRunning

abbrev late_kernel : Kernel
late_kernel = record sleeping { time = pos 9 }

late-IsAsleep : IsAsleep late_kernel (2 ∷ []) (1000 ∷ 1016 ∷ []) (640 ∷ 656 ∷ []) (600 ∷ 616 ∷ [])
late-IsAsleep = record {
  timers = sleeping-IsAsleep.timers;
  waiting = sleeping-IsAsleep.waiting;
  ready = sleeping-IsAsleep.ready;
  apart = sleeping-IsAsleep.apart;
  waits = sleeping-IsAsleep.waits;
  distinct = sleeping-IsAsleep.distinct;
}

wake_elapsed-Awake_example :
    (k' : Kernel) × (wake_elapsed 3 late_kernel 0 ≡ some k')
    × Awake late_kernel [] (640 ∷ 656 ∷ []) (640 ∷ 656 ∷ []) [] (600 ∷ 616 ∷ []) k'
unfolding early late
wake_elapsed-Awake_example =
    wake_elapsed-Awake (1000 ∷ 1016 ∷ []) 3 late_kernel (2 ∷ []) (640 ∷ 656 ∷ []) []
      (600 ∷ 616 ∷ []) (omega arith) late-IsAsleep

-- The running process sleeps for three ticks.
internal_sleep-IsRunning_example :
    (k' : Kernel) × (item : Addr) × (internal_sleep sleeping ≡ some k')
    × IsRunning k' [] (1000 ∷ item ∷ 1016 ∷ []) (640 ∷ 656 ∷ 500 ∷ []) (616 ∷ [])
    × (k'.current ≡ 600)
    × ((k'.timing.timers item).awakening_time ≡ pos 7)
    × ((k'.timing.timers item).pcb ≡ 500)
    × ((pcb_of k' 500).status ≡ waiting)
unfolding early late ◌+ℤ◌ to_int
internal_sleep-IsRunning_example =
    internal_sleep-IsRunning sleeping 2 [] (1000 ∷ 1016 ∷ []) (640 ∷ 656 ∷ []) 600 (616 ∷ [])
      sleeping-IsRunning refl

-- A pool without used blocks, and no timers.
abbrev no_timers : Timers
no_timers = record two_timers { timer_item_allocator = all_free; timer_list = list_init }

no_block : (a k : ℕ) → k < 3 → has k (0 ∷ 1 ∷ 2 ∷ []) ≡ false → has a [] ≡ true
no_block a k lt o = absurd (ground arith)

no-IsTimers : IsTimers no_timers (0 ∷ 1 ∷ 2 ∷ []) []
no-IsTimers = record {
  pool = all_free-IsPool;
  list = record { first = refl; last = refl; size = refl; chain = tt; distinct = tt };
  live = λ a i. cc;
  used = λ a l. no_block a l.index l.index-lt l.not_free;
  sorted = tt;
}

-- The process at 1000 runs, the one at 1016 is ready, and the last block is free.
abbrev parent_kernel : Kernel
parent_kernel = record with_queue {
  processes = record with_queue.processes {
    pcb_allocator = two_taken;
    pcb_ptr_allocator = all_free;
  };
  timing = no_timers;
  current = 1000;
  ready_list = record { first = 1016; last = 1016; size = pos 1 };
  waiting_list = list_init;
}

parent-IsRunning : IsRunning parent_kernel (0 ∷ 1 ∷ 2 ∷ []) [] [] (1016 ∷ [])
parent-IsRunning = record {
  asleep = record {
    timers = no-IsTimers;
    waiting = record { first = refl; last = refl; size = refl; chain = tt; distinct = tt };
    ready = record {
      first = refl;
      last = refl;
      size = refl;
      chain = (λ e. omega (arith, e), refl, refl, tt);
      distinct = (refl, tt);
    };
    apart = λ a i. refl;
    waits = λ p i. i;
    distinct = tt;
  };
  loose = record { ne_null = λ e. omega (arith, e); no_prev = refl; no_next = refl };
  out_ready = refl;
  out_waiting = refl;
}

parent-HasBlocks : HasBlocks parent_kernel (2 ∷ []) (0 ∷ 1 ∷ 2 ∷ []) (1000 ∷ 1016 ∷ []) []
parent-HasBlocks = record {
  pool = two_taken-IsPool;
  ptr_pool = all_free-IsPool;
  live = two-IsLive;
  children = record { first = refl; last = refl; size = refl; chain = tt; distinct = tt };
  live_ptrs = λ a i. cc;
}

internal_spawn-Created_example :
    (p : Addr) × (ptr : Addr) × (k1 : Kernel) × (internal_fork parent_kernel ≡ some k1)
    × (internal_spawn parent_kernel
        ≡ some (starting k1 p (arg parent_kernel 0) (arg parent_kernel 1)))
    × Created parent_kernel (0 ∷ 1 ∷ 2 ∷ []) [] (1 ∷ 2 ∷ []) [] [] (1016 ∷ []) [] p ptr k1
internal_spawn-Created_example =
    internal_spawn-Created parent_kernel (0 ∷ 1 ∷ 2 ∷ []) 2 [] 0 (1 ∷ 2 ∷ []) [] [] (1016 ∷ []) []
      parent-IsRunning parent-HasBlocks
