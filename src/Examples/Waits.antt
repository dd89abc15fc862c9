-- ===== src/Examples/Waits.antt =====
-- internal_wait on a small kernel.
use messages_queue_disastros.Prelude.{◌≡◌, refl, some, [], ◌∷◌, arith, pos, to_int}
use messages_queue_disastros.LinkedList.Chain.{IsList}
use messages_queue_disastros.Kernel.{Kernel, pcb_of}
use messages_queue_disastros.Kernel.Scheduling.Tick.{IsRunning}
use messages_queue_disastros.Kernel.Waiting.{internal_wait}
use messages_queue_disastros.Kernel.Waiting.Block.{Waits}
use messages_queue_disastros.Kernel.Waiting.Unknown.{internal_wait_unknown}
use messages_queue_disastros.Examples.Calls.{different}
use messages_queue_disastros.Examples.Running.{sleeping, sleeping-IsAsleep, sleeping-IsRunning}

-- The process has one child, with the number 1, and waits for the number 3.
abbrev waiting_parent : Kernel
waiting_parent = record sleeping {
  processes = record sleeping.processes {
    pcbs = λ p. record (pcb_of sleeping p) {
      children = record { first = 720; last = 720; size = pos 1 };
    };
    pcb_ptrs = λ a. 600;
  };
}

one_child :
    IsList waiting_parent.processes.pcb_ptr_items (pcb_of waiting_parent 500).children (720 ∷ [])
one_child = record {
  first = refl;
  last = refl;
  size = refl;
  chain = (λ e. omega (arith, e), refl, refl, tt);
  distinct = (refl, tt);
}

waiting_parent-IsRunning :
    IsRunning waiting_parent (2 ∷ []) (1000 ∷ 1016 ∷ []) (640 ∷ 656 ∷ []) (600 ∷ 616 ∷ [])
waiting_parent-IsRunning = record {
  asleep = record {
    timers = sleeping-IsAsleep.timers;
    waiting = sleeping-IsAsleep.waiting;
    ready = sleeping-IsAsleep.ready;
    apart = sleeping-IsAsleep.apart;
    waits = sleeping-IsAsleep.waits;
    distinct = sleeping-IsAsleep.distinct;
  };
  loose = sleeping-IsRunning.loose;
  out_ready = refl;
  out_waiting = refl;
}

internal_wait_unknown_example :
    (k' : Kernel) × (internal_wait waiting_parent ≡ some k')
    × Waits waiting_parent (2 ∷ []) (1000 ∷ 1016 ∷ []) (640 ∷ 656 ∷ []) 600 (616 ∷ []) k'
unfolding to_int
internal_wait_unknown_example =
    internal_wait_unknown waiting_parent 2 720 [] (2 ∷ []) (1000 ∷ 1016 ∷ []) (640 ∷ 656 ∷ []) 600
      (616 ∷ []) waiting_parent-IsRunning one_child refl (λ a i e. omega (arith, e))
      (λ a i. different 1 3 λ same. omega (arith, same)) refl
