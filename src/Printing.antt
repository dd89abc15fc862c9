-- ===== src/Printing.antt =====
-- What the print functions write to the standard output: PCBPtrList_print, PCB_print and
-- PCBList_print of disastrOS_pcb.c, TimerList_print of disastrOS_timer.c, the functions of
-- disastrOS_descriptor.c and disastrOS_resource.c, print_mq of disastrOS_message_queue.c and
-- disastrOS_printStatus of disastrOS.c; and the names of PoolAllocator_strerror in
-- pool_allocator.c. A text is the list of its codes. `decimal` is what printf writes for `%d`.
-- `none` is a fault: a read through NULL or behind the end of an array or a block.
pub mod Loops
pub mod Lists
pub mod Status
use Prim.Native.Char.{code}
use Prim.Native.String.{String}
use messages_queue_disastros.Prelude.{
  ℕ, zero, suc, Option, none, some, ◌>>=◌, ◌==◌, ◌||◌, if◌then◌else◌, List, [], ◌∷◌, ◌++◌, ℤ, pos,
  eqb_ℤ,
}
use messages_queue_disastros.LinkedList.{Addr, Items, ListHead, rounds}
use messages_queue_disastros.PoolAllocator.{
  PoolAllocatorResult, success, not_enough_memory, unaligned_free, out_of_range, double_free,
}
use messages_queue_disastros.Constants.{message_queue_type}
use messages_queue_disastros.Kernel.{Kernel, pcb_of}

-- The codes of a literal.
unfoldable pub codes : String → List ℕ
codes String.[] = []
codes (String.◌∷◌ c s) = code c ∷ codes s

-- The loop of a print function: each item, then the separator if another one follows, then the
-- ending.
unfoldable pub print_items :
    (Addr → Option (List ℕ)) → (separator ending : List ℕ) → ℕ → Items → Addr → Option (List ℕ)
print_items item separator ending zero h aux = none
print_items item separator ending (suc fuel) h aux =
    let rest = print_items item separator ending fuel h (h aux).next in
    if aux == 0 then some [] else (do
      text ← item aux
      more ← rest
      some (text ++ ((if (h aux).next == 0 then [] else separator) ++ (ending ++ more))))

-- PoolAllocator_strerror
unfoldable pub pool_allocator_strerror : PoolAllocatorResult → List ℕ
pool_allocator_strerror success = codes "Success"
pool_allocator_strerror not_enough_memory = codes "NotEnoughMemory"
pool_allocator_strerror unaligned_free = codes "UnalignedFree"
pool_allocator_strerror out_of_range = codes "OutOfRange"
pool_allocator_strerror double_free = codes "DoubleFree"

-- `%s`: the characters in front of the first zero.
unfoldable pub c_string : List ℕ → Option (List ℕ)
c_string [] = none
c_string (c ∷ cs) =
    let rest = c_string cs in if c == 0 then some [] else (do text ← rest; some (c ∷ text))

module _ (decimal : ℤ → List ℕ) (k : Kernel) where
  -- `%d` of `pcb->pid`
  unfoldable pub print_pid : Addr → Option (List ℕ)
  print_pid p = if p == 0 then none else some (decimal (pcb_of k p).pid)

  -- PCBPtrList_print
  unfoldable pub pcb_ptr_list_print : ListHead → Option (List ℕ)
  pcb_ptr_list_print head = do
    text ←
        print_items (λ aux. print_pid (k.processes.pcb_ptrs aux)) (codes ", ") [] (rounds head)
          k.processes.pcb_ptr_items head.first
    some (codes "(" ++ (text ++ codes ")"))

  -- PCB_print
  unfoldable pub pcb_print : Addr → Option (List ℕ)
  unfolding pcb_ptr_list_print
  pcb_print p = do
    children ← pcb_ptr_list_print (pcb_of k p).children
    some (
        codes "[pid: "
        ++ (decimal (pcb_of k p).pid ++ (codes ", child: " ++ (children ++ codes "]"))))

  -- PCBList_print
  unfoldable pub pcb_list_print : ListHead → Option (List ℕ)
  unfolding pcb_print
  pcb_list_print head = do
    text ←
        print_items (λ aux. do text ← pcb_print aux; some (codes "\t" ++ text)) (codes ",")
          (codes "\n") (rounds head) k.processes.pcb_items head.first
    some (codes "{\n" ++ (text ++ codes "}\n"))

  -- The round of TimerList_print.
  unfoldable pub timer_print : Addr → Option (List ℕ)
  unfolding print_pid
  timer_print t = do
    pid ← print_pid (k.timing.timers t).pcb
    some (
        codes "(pid:"
        ++ (pid ++ (codes ", t:" ++ (decimal (k.timing.timers t).awakening_time ++ codes ")"))))

  -- TimerList_print
  unfoldable pub timer_list_print : ListHead → Option (List ℕ)
  unfolding timer_print
  timer_list_print head = do
    text ← print_items timer_print (codes ", ") [] (rounds head) k.timing.timer_items head.first
    some (codes "[" ++ (text ++ codes "]"))

  -- `%d` of `resource->id`
  unfoldable pub print_rid : Addr → Option (List ℕ)
  print_rid r = if r == 0 then none else some (decimal (k.devices.resources r).id)

  -- The round of DescriptorList_print.
  unfoldable pub descriptor_print : Addr → Option (List ℕ)
  unfolding print_rid
  descriptor_print d = do
    rid ← print_rid (k.files.descriptors d).resource
    some (
        codes "(fd: "
        ++ (decimal (k.files.descriptors d).fd ++ (codes ", rid:" ++ (rid ++ codes ")"))))

  -- DescriptorList_print
  unfoldable pub descriptor_list_print : ListHead → Option (List ℕ)
  unfolding descriptor_print
  descriptor_list_print l = do
    text ← print_items descriptor_print (codes ", ") [] (rounds l) k.files.descriptor_items l.first
    some (codes "[" ++ (text ++ codes "]"))

  -- The round of DescriptorPtrList_print: the number of the descriptor stands where the text says
  -- pid, and the process's number where it says fd.
  unfoldable pub descriptor_ptr_print : Addr → Option (List ℕ)
  unfolding print_pid print_rid
  descriptor_ptr_print ptr =
      let d = k.files.descriptor_ptrs ptr in
      if d == 0 then none else (do
        pid ← print_pid (k.files.descriptors d).pcb
        rid ← print_rid (k.files.descriptors d).resource
        some (
            codes "(pid: "
            ++ (decimal (k.files.descriptors d).fd
                ++ (codes ", fd: " ++ (pid ++ (codes ", rid:" ++ (rid ++ codes ")")))))))

  -- DescriptorPtrList_print
  unfoldable pub descriptor_ptr_list_print : ListHead → Option (List ℕ)
  unfolding descriptor_ptr_print
  descriptor_ptr_list_print l = do
    text ←
        print_items descriptor_ptr_print (codes ", ") [] (rounds l) k.files.descriptor_ptr_items
          l.first
    some (codes "[" ++ (text ++ codes "]"))

  -- Resource_print
  unfoldable pub resource_print : Addr → Option (List ℕ)
  unfolding descriptor_ptr_list_print
  resource_print r =
      let res = k.devices.resources r in
      (do
        pids ← descriptor_ptr_list_print res.descriptors_ptrs
        some (
            codes "id: "
            ++ (decimal res.id
                ++ (codes ", type:" ++ (decimal res.type ++ (codes ", pids:" ++ pids))))))

  -- ResourceList_print
  unfoldable pub resource_list_print : ListHead → Option (List ℕ)
  unfolding resource_print
  resource_list_print l = do
    text ←
        print_items (λ aux. do text ← resource_print aux; some (codes "\t" ++ text)) (codes ",")
          (codes "\n") (rounds l) k.devices.resource_items l.first
    some (codes "{\n" ++ (text ++ codes "}\n"))

  -- The loop of print_mq over the messages; `i` counts them.
  unfoldable pub print_messages : ℕ → (i : ℕ) → Addr → Option (List ℕ)
  unfolding c_string
  print_messages zero i m = none
  print_messages (suc fuel) i m =
      let rest = print_messages fuel (suc i) (k.mail.message_items m).next in
      if m == 0 then some [] else (do
        text ← c_string (k.mail.messages m).msg
        more ← rest
        some (
            codes "Message n. "
            ++ (decimal (pos i)
                ++ (codes ": \n"
                    ++ (text
                        ++ (codes "\n-------------------------------------------------------\n"
                            ++ more))))))

  -- The process that `writing_pid` or `reading_pid` stands for: one of two texts.
  unfoldable pub print_mode : Addr → (absent present : List ℕ) → Option (List ℕ)
  unfolding print_pid
  print_mode ptr absent present =
      if ptr == 0
      then some absent
      else (do pid ← print_pid (k.processes.pcb_ptrs ptr); some (present ++ (pid ++ codes ";\n")))

  -- The first part of print_mq, up to the first line that is printed for every queue.
  unfoldable pub print_contents : ListHead → Option (List ℕ)
  unfolding print_messages
  print_contents msgs =
      if eqb_ℤ msgs.size (pos 0)
      then some (
          codes "There is no message inside the queue!\n"
          ++ codes "----------------------------------------------------------\n")
      else (do
        text ← print_messages (rounds msgs) 0 msgs.first
        some (text ++ codes "----------------------------------------------------------\n"))

  -- print_mq. A resource that is no queue ends in front of the fields that are read here.
  unfoldable pub print_mq : Addr → Option (List ℕ)
  unfolding print_contents print_mode
  print_mq r =
      let mq = k.devices.resources r in
      if eqb_ℤ mq.type message_queue_type
      then (do
        messages ← print_contents mq.msgs
        writer ←
            print_mode mq.writing_pid (codes "There is no writing pid for this MQ!\n")
              (codes "PID for writing n. ")
        reader ←
            print_mode mq.reading_pid (codes "There is no reading pid for this MQ!\n")
              (codes "PID for reading n. ")
        some (
            codes "printing message queue with id "
            ++ (decimal mq.id
                ++ (codes "\n"
                    ++ (messages
                        ++ (writer
                            ++ (codes "----------------------------------------------------------\n"
                                ++ (reader
                                    ++ codes
                                        "**********************************************************\n"))))))))
      else none

  -- disastrOS_printStatus
  unfoldable pub disastros_print_status : Option (List ℕ)
  unfolding pcb_print timer_list_print resource_list_print pcb_list_print print_mq print_items
  disastros_print_status = do
    running ← (if k.current == 0 then some [] else pcb_print k.current)
    timers ← timer_list_print k.timing.timer_list
    resources ← resource_list_print k.devices.resources_list
    ready ← pcb_list_print k.ready_list
    waiting ← pcb_list_print k.waiting_list
    zombies ← pcb_list_print k.zombie_list
    queues ←
        print_items print_mq [] [] (rounds k.devices.resources_list) k.devices.resource_items
          k.devices.resources_list.first
    some (
        codes "****************** DisastrOS ******************\nRunning: "
        ++ (running
            ++ (codes "\nTimers: "
                ++ (timers
                    ++ (codes "\nResources: "
                        ++ (resources
                            ++ (codes "\nReady: "
                                ++ (ready
                                    ++ (codes "\nWaiting: "
                                        ++ (waiting
                                            ++ (codes "\nZombie: "
                                                ++ (zombies
                                                    ++ (codes
                                                          "\n***********************************************\n\n"
                                                        ++ queues)))))))))))))
