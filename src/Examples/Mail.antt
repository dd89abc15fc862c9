-- ===== src/Examples/Mail.antt =====
-- A kernel with a queue of two messages, of two characters each, and a process with its descriptor.
use messages_queue_disastros.Prelude.{
  ℕ, ◌≡◌, refl, true, false, [], ◌∷◌, arith, ℤ, pos, if◌then◌else◌, ◌==◌, replicate,
}
use messages_queue_disastros.LinkedList.{Items, ListHead, list_init}
use messages_queue_disastros.LinkedList.Chain.{has, IsLoose}
use messages_queue_disastros.PoolAllocator.{PoolAllocator, null_idx, block_address}
use messages_queue_disastros.Process.{running}
use messages_queue_disastros.Constants.{message_queue_type}
use messages_queue_disastros.Message.{Messages}
use messages_queue_disastros.Message.Queue.{IsMail, IsQueue}
use messages_queue_disastros.Kernel.{Kernel}
use messages_queue_disastros.Kernel.Mailbox.ByFd.{HasDescriptors}
use messages_queue_disastros.Examples.Pools.{
  two_taken, two_taken-IsPool, two-IsLive, linked_blocks, blocks_head, blocks-IsList,
}

abbrev pub two_messages : Messages
two_messages = record {
  m_allocator = two_taken;
  messages = λ a. record { msg = replicate 128 65; length = pos 2 };
  message_items = linked_blocks;
}

free-IsLoose : (k : ℕ) → has k (2 ∷ []) ≡ true → IsLoose linked_blocks (block_address two_taken k)
free-IsLoose k i =
    let last : k ≡ 2 = ground arith in
    rw last (record { ne_null = λ e. omega (arith, e); no_prev = refl; no_next = refl })

pub two-IsMail : IsMail two_messages (2 ∷ [])
two-IsMail = record { pool = two_taken-IsPool; clear = free-IsLoose; chars = λ a. refl }

pub two-IsQueue : IsQueue two_messages (2 ∷ []) blocks_head (1000 ∷ 1016 ∷ [])
two-IsQueue = record {
  list = blocks-IsList;
  live = two-IsLive;
  texts = λ a i. (2, refl, omega arith);
}

-- The empty queue is one too.
pub no-IsQueue : IsQueue two_messages (2 ∷ []) list_init []
no-IsQueue = record {
  list = record { first = refl; last = refl; size = refl; chain = tt; distinct = tt };
  live = λ a i. cc;
  texts = λ a i. cc;
}

abbrev loose : Items
loose a = record { prev = 0; next = 0 }

abbrev pub linked_processes : Items
linked_processes a =
    if a == 600
    then record { prev = 0; next = 616 }
    else if a == 616
    then record { prev = 600; next = 0 }
    else record { prev = 0; next = 0 }

abbrev empty_pool : PoolAllocator
empty_pool = record {
  buffer = 1000;
  free_list = [];
  buffer_size = 0;
  size = pos 0;
  size_max = 0;
  item_size = 16;
  first_idx = null_idx;
}

-- The running process at 500 calls with the number of a descriptor, the address 10000 and a length;
-- its descriptor at 700 has the number 3 and stands for the resource at 900.
abbrev pub calling : (fd length type : ℤ) → ListHead → Kernel
calling fd length type msgs = record {
  processes = record {
    pcb_allocator = empty_pool;
    pcb_ptr_allocator = empty_pool;
    pcbs = λ p. record {
      pid = pos 1;
      return_value = pos 0;
      status = running;
      signals = 0;
      signals_mask = 0;
      parent = 0;
      children = list_init;
      cpu_state = record { function = pos 0; argument = pos 0 };
      timer = 0;
      last_fd = pos 4;
      descriptors = record { first = 700; last = 700; size = pos 1 };
      syscall_num = pos 11;
      syscall_args = λ i. if i == 0 then fd else if i == 1 then pos 10000 else length;
      syscall_retvalue = pos 0;
    };
    pcb_items = linked_processes;
    pcb_ptrs = λ a. 0;
    pcb_ptr_items = loose;
    last_pid = pos 2;
  };
  timing = record {
    timer_item_allocator = empty_pool;
    timers = λ a. record { awakening_time = pos 0; pcb = 0 };
    timer_items = loose;
    timer_list = list_init;
  };
  files = record {
    descriptor_allocator = empty_pool;
    descriptor_ptr_allocator = empty_pool;
    descriptors = λ a. record { pcb = 500; resource = 900; fd = pos 3; ptr = 0 };
    descriptor_items = loose;
    descriptor_ptrs = λ a. 0;
    descriptor_ptr_items = loose;
  };
  devices = record {
    standard_resources_allocator = empty_pool;
    mq_allocator = empty_pool;
    resources = λ r. record {
      id = pos 1;
      type = type;
      descriptors_ptrs = list_init;
      msgs = msgs;
      reading_pid = 0;
      writing_pid = 500;
    };
    resource_items = loose;
    resources_list = list_init;
  };
  mail = two_messages;
  user = record { chars = λ p. 66; ints = λ p. pos 0 };
  current = 500;
  init_pcb = 400;
  ready_list = record { first = 600; last = 616; size = pos 2 };
  waiting_list = list_init;
  zombie_list = list_init;
  time = pos 0;
  shutdown_now = false;
}

abbrev pub with_queue : Kernel
with_queue = calling (pos 3) (pos 2) message_queue_type blocks_head

pub one-HasDescriptors :
    (fd length type : ℤ) (msgs : ListHead) → HasDescriptors (calling fd length type msgs) (700 ∷ [])
one-HasDescriptors fd length type msgs = record {
  list = record {
    first = refl;
    last = refl;
    size = refl;
    chain = (λ e. omega (arith, e), refl, refl, tt);
    distinct = (refl, tt);
  };
  injective = λ a b i j e. ground arith;
  resources = λ a i e. omega (arith, e);
}
