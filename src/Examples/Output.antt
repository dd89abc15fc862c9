-- ===== src/Examples/Output.antt =====
-- The status that is printed for a small kernel, and calls of the functions of disastrOS.c.
use messages_queue_disastros.Prelude.{ℕ, ◌≡◌, refl, some, List, [], ◌∷◌, arith, ℤ, pos}
use messages_queue_disastros.LinkedList.{Addr}
use messages_queue_disastros.Kernel.{Kernel}
use messages_queue_disastros.Printing.{
  codes, c_string, disastros_print_status, print_items, timer_list_print,
}
use messages_queue_disastros.Printing.Lists.{HasChildren}
use messages_queue_disastros.Printing.Status.{
  View, IsView, HasMessages, status_text, disastros_print_status-text,
}
use messages_queue_disastros.Examples.Pools.{blocks-IsList}
use messages_queue_disastros.Examples.Mail.{with_queue, two_messages}
use messages_queue_disastros.Examples.Timing.{two_timers}

-- All numbers are printed as one digit.
abbrev digit : ℤ → List ℕ
digit z = 49 ∷ []

-- The two messages of the queue at 900 are the texts "A", and the process at 600 writes to it.
abbrev shown : Kernel
shown = record with_queue {
  processes = record with_queue.processes { pcb_ptrs = λ a. 600 };
  timing = two_timers;
  devices = record with_queue.devices {
    resources_list = record { first = 900; last = 900; size = pos 1 };
  };
  mail = record two_messages { messages = λ a. record { msg = 65 ∷ 0 ∷ []; length = pos 2 } };
}

abbrev shown_view : View
shown_view = record {
  timers = 1000 ∷ 1016 ∷ [];
  ready = 600 ∷ 616 ∷ [];
  waiting = [];
  zombies = [];
  resources = 900 ∷ [];
  children = λ p. [];
  openers = λ r. [];
  messages = λ r. 1000 ∷ 1016 ∷ [];
  text = λ m. 65 ∷ [];
}

no_children : (p : Addr) → HasChildren shown p []
no_children p = record {
  list = record { first = refl; last = refl; size = refl; chain = tt; distinct = tt };
  targets = λ a i. cc;
}

shown_messages : (r : Addr) → HasMessages shown r (1000 ∷ 1016 ∷ []) shown_view.text
unfolding c_string
shown_messages r = record {
  type = refl;
  list = blocks-IsList;
  texts = λ m i. refl;
  writer = λ n e. omega (arith, e);
  reader = λ n e. omega (arith, e);
}

shown-IsView : IsView shown shown_view
shown-IsView = record {
  timers = blocks-IsList;
  sleepers = λ t i e. omega (arith, e);
  ready = record {
    first = refl;
    last = refl;
    size = refl;
    chain = (λ e. omega (arith, e), refl, refl, (λ e. omega (arith, e), refl, refl, tt));
    distinct = (refl, (refl, tt));
  };
  waiting = record { first = refl; last = refl; size = refl; chain = tt; distinct = tt };
  zombies = record { first = refl; last = refl; size = refl; chain = tt; distinct = tt };
  resources = record {
    first = refl;
    last = refl;
    size = refl;
    chain = (λ e. omega (arith, e), refl, refl, tt);
    distinct = (refl, tt);
  };
  of_running = λ n. no_children 500;
  of_ready = λ p i. no_children p;
  of_waiting = λ p i. no_children p;
  of_zombies = λ p i. no_children p;
  openers = λ r i. record {
    list = record { first = refl; last = refl; size = refl; chain = tt; distinct = tt };
    targets = λ a j. cc;
    pcbs = λ a j. cc;
    resources = λ a j. cc;
  };
  messages = λ r i. shown_messages r;
}

disastros_print_status-text_example :
    disastros_print_status digit shown ≡ some (status_text digit shown shown_view)
disastros_print_status-text_example =
    disastros_print_status-text digit shown shown_view shown-IsView

printed_timers :
    timer_list_print digit shown shown.timing.timer_list
    ≡ some (codes "[(pid:1, t:1), (pid:1, t:1)]")
unfolding timer_list_print codes print_items
printed_timers = refl
