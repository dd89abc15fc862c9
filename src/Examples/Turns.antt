-- ===== src/Examples/Turns.antt =====
-- Turns and the modes of queues on a small kernel.
use messages_queue_disastros.Prelude.{◌≡◌, refl, some, [], ◌∷◌, arith, pos}
use messages_queue_disastros.Constants.{dsos_read}
use messages_queue_disastros.Kernel.{Kernel}
use messages_queue_disastros.Kernel.Scheduling.{switch}
use messages_queue_disastros.Kernel.Scheduling.Switch.{
  IsReady, Turned, switch-Turned, turns, turns-fair,
}
use messages_queue_disastros.Process.{Processes}
use messages_queue_disastros.Resource.{Resources}
use messages_queue_disastros.MessageQueue.{mq_set_mode}
use messages_queue_disastros.MessageQueue.Modes.{Reads, mq_set_mode-excludes}
use messages_queue_disastros.Examples.Pools.{all_free, all_free-IsPool}
use messages_queue_disastros.Examples.Mail.{with_queue}
use messages_queue_disastros.Examples.Calls.{not_null, with_empty}

two-IsReady : IsReady with_queue (600 ∷ 616 ∷ [])
two-IsReady = record {
  list = record {
    first = refl;
    last = refl;
    size = refl;
    chain = (λ e. omega (arith, e), refl, refl, (λ e. omega (arith, e), refl, refl, tt));
    distinct = (refl, (refl, tt));
  };
  loose = record { ne_null = not_null; no_prev = refl; no_next = refl };
  apart = refl;
}

switch-Turned_example :
    (k' : Kernel) × (switch with_queue ≡ some k') × Turned with_queue 600 (616 ∷ []) k'
switch-Turned_example = switch-Turned 600 (616 ∷ []) two-IsReady

turns-fair_example :
    (k' : Kernel) × (turns 2 with_queue ≡ some k')
    × (k'.current ≡ 616)
    × IsReady k' (500 ∷ 600 ∷ [])
turns-fair_example = turns-fair 616 (600 ∷ []) [] two-IsReady

abbrev with_pointers : Processes
with_pointers = record with_empty.processes { pcb_ptr_allocator = all_free }

mq_set_mode-excludes_example :
    (p' : Processes) × (s' : Resources) × (mq_set_mode with_pointers with_empty.devices 500 900
        dsos_read
      ≡ some (pos 1, p', s'))
    × Reads with_pointers with_empty.devices 500 900 p' s'
    × (mq_set_mode with_pointers s' 600 900 dsos_read ≡ some (pos 0, with_pointers, s'))
mq_set_mode-excludes_example =
    mq_set_mode-excludes 0 (1 ∷ 2 ∷ []) 500 900 with_pointers 600 all_free-IsPool refl refl
