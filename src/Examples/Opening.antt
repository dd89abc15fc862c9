-- ===== src/Examples/Opening.antt =====
-- A process that opens another resource.
use messages_queue_disastros.Prelude.{
  ◌≡◌, refl, some, [], ◌∷◌, arith, pos, to_int, ◌==◌, if◌then◌else◌,
}
use messages_queue_disastros.LinkedList.{Addr}
use messages_queue_disastros.Kernel.{Kernel, pcb_of}
use messages_queue_disastros.Constants.{dsos_read, standard_resource_type}
use messages_queue_disastros.Kernel.Files.{internal_open_resource}
use messages_queue_disastros.Kernel.Files.Opening.{HasResources, internal_open_resource-Opened}
use messages_queue_disastros.Kernel.Files.Opened.{HasFiles, Opened}
use messages_queue_disastros.Examples.Pools.{
  all_free, all_free-IsPool, two_taken, two_taken-IsPool, two-IsLive, linked_blocks, blocks_head,
  blocks-IsList,
}
use messages_queue_disastros.Examples.Mail.{with_queue}

-- The running process has the descriptors 2 and 3.
abbrev with_files : Kernel
with_files = record with_queue {
  processes = record with_queue.processes {
    pcbs = λ p. record (pcb_of with_queue p) { descriptors = blocks_head };
  };
  files = record {
    descriptor_allocator = two_taken;
    descriptor_ptr_allocator = all_free;
    descriptors =
        λ a. record { pcb = 500; resource = 900; fd = if a == 1000 then pos 2 else pos 3; ptr = 0 };
    descriptor_items = linked_blocks;
    descriptor_ptrs = λ a. 0;
    descriptor_ptr_items = λ a. record { prev = 0; next = 0 };
  };
}

files-HasFiles : HasFiles with_files (2 ∷ []) (0 ∷ 1 ∷ 2 ∷ []) 900 (1000 ∷ 1016 ∷ []) []
files-HasFiles = record {
  pool = two_taken-IsPool;
  ptr_pool = all_free-IsPool;
  own = blocks-IsList;
  theirs = record { first = refl; last = refl; size = refl; chain = tt; distinct = tt };
  live = two-IsLive;
  live_ptrs = λ a i. cc;
  numbers = λ a i. ground arith;
  injective = λ a b i j e. ground arith;
}

-- The resource at 900 with the number 1 is a standard one; it is opened for reading.
abbrev opening : Kernel
opening = record with_files {
  processes = record with_files.processes {
    pcbs = λ p. record (pcb_of with_files p) {
      syscall_args = λ i. if i == 0 then pos 1 else if i == 1 then pos 0 else dsos_read;
    };
  };
  devices = record with_files.devices {
    resources = λ r. record (with_files.devices.resources r) { type = standard_resource_type };
    resources_list = record { first = 900; last = 900; size = pos 1 };
  };
}

opening-HasFiles : HasFiles opening (2 ∷ []) (0 ∷ 1 ∷ 2 ∷ []) 900 (1000 ∷ 1016 ∷ []) []
opening-HasFiles = record {
  pool = files-HasFiles.pool;
  ptr_pool = files-HasFiles.ptr_pool;
  own = files-HasFiles.own;
  theirs = files-HasFiles.theirs;
  live = files-HasFiles.live;
  live_ptrs = files-HasFiles.live_ptrs;
  numbers = files-HasFiles.numbers;
  injective = files-HasFiles.injective;
}

one_resource : HasResources opening (900 ∷ [])
one_resource = record {
  list = record {
    first = refl;
    last = refl;
    size = refl;
    chain = (λ e. omega (arith, e), refl, refl, tt);
    distinct = (refl, tt);
  };
  injective = λ a b i j e. ground arith;
}

internal_open_resource-Opened_example :
    (des : Addr) × (ptr : Addr) × (k' : Kernel) × (internal_open_resource opening ≡ some k')
    × Opened opening [] (1 ∷ 2 ∷ []) 900 (1000 ∷ 1016 ∷ []) [] des ptr k'
unfolding to_int
internal_open_resource-Opened_example =
    internal_open_resource-Opened opening 2 [] 0 (1 ∷ 2 ∷ []) 900 (1000 ∷ 1016 ∷ []) [] (900 ∷ [])
      dsos_read (λ e. omega (arith, e)) opening-HasFiles one_resource refl refl refl refl refl refl
      refl
