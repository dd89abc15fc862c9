-- ===== src/Printing/Status.antt =====
-- What print_mq and disastrOS_printStatus write for a kernel whose lists are well formed.
use messages_queue_disastros.Prelude.{
  ℕ, zero, suc, ◌<◌, ◌≡◌, refl, ◌∙◌, ◌≢◌, ap, true, false, some, ◌==◌, ==-eq-false, Bool-cases, inl,
  inr, if◌then◌else◌, List, [], ◌∷◌, ◌++◌, arith, length, ℤ, pos, eqb_ℤ, eqb_ℤ_refl,
}
use messages_queue_disastros.Constants.{message_queue_type}
use messages_queue_disastros.LinkedList.{Addr}
use messages_queue_disastros.LinkedList.Chain.{Chain, IsList, has, head_or, has-cons, has-first}
use messages_queue_disastros.Kernel.{Kernel}
use messages_queue_disastros.Printing.{
  codes, c_string, print_pid, pcb_print, print_messages, print_contents, print_mode, print_mq,
  disastros_print_status,
}
use messages_queue_disastros.Printing.Loops.{joined, print_items-joined}
use messages_queue_disastros.Printing.Lists.{
  HasChildren, HasOpeners, pid_text, rid_text, process_text, processes_text, timers_text,
  resources_text, pcb_print-text, pcb_list_print-text, timer_list_print-text,
  resource_list_print-text,
}

-- The sequences that the lists of the kernel stand for, of a process its children, of a resource
-- the pointers to its descriptors and its messages, and of a message its text.
pub record View : Type 0 where
  pub timers : List Addr
  pub ready : List Addr
  pub waiting : List Addr
  pub zombies : List Addr
  pub resources : List Addr
  pub children : Addr → List Addr
  pub openers : Addr → List Addr
  pub messages : Addr → List Addr
  pub text : Addr → List ℕ

-- A queue, whose messages end with a zero.
pub record HasMessages (k : Kernel) (r : Addr) (ms : List Addr) (text : Addr → List ℕ)
    : Type 0 where
  pub type : (k.devices.resources r).type ≡ message_queue_type
  pub list : IsList k.mail.message_items (k.devices.resources r).msgs ms
  pub texts : (m : Addr) → has m ms ≡ true → c_string (k.mail.messages m).msg ≡ some (text m)
  pub writer :
      (k.devices.resources r).writing_pid ≢ 0
      → k.processes.pcb_ptrs (k.devices.resources r).writing_pid ≢ 0
  pub reader :
      (k.devices.resources r).reading_pid ≢ 0
      → k.processes.pcb_ptrs (k.devices.resources r).reading_pid ≢ 0

-- The lists of the kernel are those of the view, and all resources are queues.
pub record IsView (k : Kernel) (v : View) : Type 0 where
  pub timers : IsList k.timing.timer_items k.timing.timer_list v.timers
  pub sleepers : (t : Addr) → has t v.timers ≡ true → (k.timing.timers t).pcb ≢ 0
  pub ready : IsList k.processes.pcb_items k.ready_list v.ready
  pub waiting : IsList k.processes.pcb_items k.waiting_list v.waiting
  pub zombies : IsList k.processes.pcb_items k.zombie_list v.zombies
  pub resources : IsList k.devices.resource_items k.devices.resources_list v.resources
  pub of_running : k.current ≢ 0 → HasChildren k k.current (v.children k.current)
  pub of_ready : (p : Addr) → has p v.ready ≡ true → HasChildren k p (v.children p)
  pub of_waiting : (p : Addr) → has p v.waiting ≡ true → HasChildren k p (v.children p)
  pub of_zombies : (p : Addr) → has p v.zombies ≡ true → HasChildren k p (v.children p)
  pub openers : (r : Addr) → has r v.resources ≡ true → HasOpeners k r (v.openers r)
  pub messages : (r : Addr) → has r v.resources ≡ true → HasMessages k r (v.messages r) v.text

eqb_ℤ-suc : (n : ℕ) → eqb_ℤ (pos (suc n)) (pos 0) ≡ false
eqb_ℤ-suc n = ground arith

module _ (decimal : ℤ → List ℕ) (k : Kernel) where
  -- The messages of a queue, counted from `i`.
  abbrev pub messages_text : (Addr → List ℕ) → ℕ → List Addr → List ℕ
  messages_text text i [] = []
  messages_text text i (m ∷ ms) =
      codes "Message n. "
      ++ (decimal (pos i)
          ++ (codes ": \n"
              ++ (text m
                  ++ (codes "\n-------------------------------------------------------\n"
                      ++ messages_text text (suc i) ms))))

  abbrev pub contents_text : (Addr → List ℕ) → List Addr → List ℕ
  contents_text text [] =
      codes "There is no message inside the queue!\n"
      ++ codes "----------------------------------------------------------\n"
  contents_text text (m ∷ ms) =
      messages_text text 0 (m ∷ ms)
      ++ codes "----------------------------------------------------------\n"

  abbrev pub mode_text : Addr → (absent present : List ℕ) → List ℕ
  mode_text ptr absent present =
      if ptr == 0
      then absent
      else present ++ (pid_text decimal k (k.processes.pcb_ptrs ptr) ++ codes ";\n")

  abbrev pub queue_text : (Addr → List ℕ) → List Addr → Addr → List ℕ
  queue_text text ms r =
      codes "printing message queue with id "
      ++ (rid_text decimal k r
          ++ (codes "\n"
              ++ (contents_text text ms
                  ++ (mode_text (k.devices.resources r).writing_pid
                        (codes "There is no writing pid for this MQ!\n")
                        (codes "PID for writing n. ")
                      ++ (codes "----------------------------------------------------------\n"
                          ++ (mode_text (k.devices.resources r).reading_pid
                                (codes "There is no reading pid for this MQ!\n")
                                (codes "PID for reading n. ")
                              ++ codes
                                  "**********************************************************\n"))))))

  abbrev pub status_text : View → List ℕ
  status_text v =
      codes "****************** DisastrOS ******************\nRunning: "
      ++ ((if k.current == 0 then [] else process_text decimal k (v.children k.current) k.current)
          ++ (codes "\nTimers: "
              ++ (timers_text decimal k v.timers
                  ++ (codes "\nResources: "
                      ++ (resources_text decimal k v.openers v.resources
                          ++ (codes "\nReady: "
                              ++ (processes_text decimal k v.children v.ready
                                  ++ (codes "\nWaiting: "
                                      ++ (processes_text decimal k v.children v.waiting
                                          ++ (codes "\nZombie: "
                                              ++ (processes_text decimal k v.children v.zombies
                                                  ++ (codes
                                                        "\n***********************************************\n\n"
                                                      ++ joined
                                                          (λ r. queue_text v.text (v.messages r) r)
                                                          [] [] v.resources))))))))))))

  print_messages-Chain :
      (text : Addr → List ℕ) (ms : List Addr) (fuel i : ℕ) (p : Addr)
      → Chain k.mail.message_items p ms 0
      → length ms < fuel
      → ((m : Addr) → has m ms ≡ true → c_string (k.mail.messages m).msg ≡ some (text m))
      → print_messages decimal k fuel i (head_or 0 ms) ≡ some (messages_text text i ms)
  unfolding print_messages
  print_messages-Chain text ms zero i p c lt all = absurd (omega arith)
  print_messages-Chain text [] (suc fuel) i p c lt all = refl
  print_messages-Chain text (m ∷ ms) (suc fuel) i p c lt all =
      let rest =
        print_messages-Chain text ms fuel (suc i) m c.3 (omega (arith, lt))
          (λ a j. all a (has-cons a m ms j)) in
      rw (==-eq-false m 0 c.0, all m (has-first m ms), c.2, rest) refl

  print_contents-text :
      (r : Addr) (text : Addr → List ℕ) (ms : List Addr)
      → HasMessages k r ms text
      → print_contents decimal k (k.devices.resources r).msgs ≡ some (contents_text text ms)
  unfolding print_contents
  print_contents-text r text [] q = rw q.list.size refl
  print_contents-text r text (m ∷ ms) q =
      let printed =
        print_messages-Chain text (m ∷ ms) (suc (suc (length ms))) 0 0 q.list.chain (omega arith)
          q.texts in
      rw (q.list.size, q.list.first, printed, eqb_ℤ-suc (length ms)) refl

  print_mode-text :
      (ptr : Addr) (absent present : List ℕ)
      → (ptr ≢ 0 → k.processes.pcb_ptrs ptr ≢ 0)
      → print_mode decimal k ptr absent present ≡ some (mode_text ptr absent present)
  unfolding print_mode print_pid
  print_mode-text ptr absent present there = elim (Bool-cases (ptr == 0)) [
    | inl null ↦ rw null refl
    | inr other ↦
        let ne : ptr ≢ 0 = λ e. ground arith in
        rw (other, ==-eq-false (k.processes.pcb_ptrs ptr) 0 (there ne)) refl
  ]

  pub print_mq-text :
      (r : Addr) (text : Addr → List ℕ) (ms : List Addr)
      → HasMessages k r ms text
      → print_mq decimal k r ≡ some (queue_text text ms r)
  unfolding print_mq
  print_mq-text r text ms q =
      let mq = k.devices.resources r in
      rw
        (
          ap (λ t. eqb_ℤ t message_queue_type) q.type ∙ eqb_ℤ_refl message_queue_type,
          print_contents-text r text ms q,
          print_mode-text mq.writing_pid (codes "There is no writing pid for this MQ!\n")
              (codes "PID for writing n. ") q.writer,
          print_mode-text mq.reading_pid (codes "There is no reading pid for this MQ!\n")
              (codes "PID for reading n. ") q.reader,
        )
        refl

  running_text :
      (v : View)
      → IsView k v
      → (if k.current == 0 then some [] else pcb_print decimal k k.current)
        ≡ some
            (if k.current == 0 then [] else process_text decimal k (v.children k.current) k.current)
  running_text v i = elim (Bool-cases (k.current == 0)) [
    | inl none_runs ↦ rw none_runs refl
    | inr runs ↦
        let ne : k.current ≢ 0 = λ e. ground arith in
        rw runs (pcb_print-text decimal k k.current (v.children k.current) (i.of_running ne))
  ]

  -- On a kernel whose lists are well formed, whose resources are queues of terminated texts and
  -- whose pointers lead to processes, disastrOS_printStatus ends without a fault and writes the
  -- text of the view: each list once, in its order, with the separators between its items, and
  -- then each queue with its messages counted from 0.
  pub disastros_print_status-text :
      (v : View) → IsView k v → disastros_print_status decimal k ≡ some (status_text v)
  unfolding disastros_print_status
  disastros_print_status-text v i =
      rw
        (
          running_text v i,
          timer_list_print-text decimal k v.timers i.timers i.sleepers,
          resource_list_print-text decimal k v.openers v.resources i.resources i.openers,
          pcb_list_print-text decimal k v.children v.ready i.ready i.of_ready,
          pcb_list_print-text decimal k v.children v.waiting i.waiting i.of_waiting,
          pcb_list_print-text decimal k v.children v.zombies i.zombies i.of_zombies,
          print_items-joined (print_mq decimal k) (λ r. queue_text v.text (v.messages r) r) [] []
              v.resources i.resources
              (λ r j. print_mq-text r v.text (v.messages r) (i.messages r j)),
        )
        refl
