-- ===== src/Printing/Lists.antt =====
-- What the print functions write for the sequences that their lists stand for.
use messages_queue_disastros.Prelude.{
  ℕ, ◌≡◌, refl, ◌≢◌, true, some, ◌>>=◌, ==-eq-false, List, [], ◌++◌, ℤ,
}
use messages_queue_disastros.LinkedList.{Addr, ListHead}
use messages_queue_disastros.LinkedList.Chain.{IsList, has}
use messages_queue_disastros.Kernel.{Kernel, pcb_of}
use messages_queue_disastros.Printing.{
  codes, print_pid, print_rid, pcb_ptr_list_print, pcb_print, pcb_list_print, timer_print,
  timer_list_print, descriptor_ptr_print, descriptor_ptr_list_print, resource_print,
  resource_list_print,
}
use messages_queue_disastros.Printing.Loops.{joined, print_items-joined}

-- The processes that a list of pointers leads to are there.
pub record HasChildren (k : Kernel) (p : Addr) (cs : List Addr) : Type 0 where
  pub list : IsList k.processes.pcb_ptr_items (pcb_of k p).children cs
  pub targets : (a : Addr) → has a cs ≡ true → k.processes.pcb_ptrs a ≢ 0

-- The pointers of a resource lead to descriptors of processes and resources.
pub record HasOpeners (k : Kernel) (r : Addr) (ds : List Addr) : Type 0 where
  pub list : IsList k.files.descriptor_ptr_items (k.devices.resources r).descriptors_ptrs ds
  pub targets : (a : Addr) → has a ds ≡ true → k.files.descriptor_ptrs a ≢ 0
  pub pcbs :
      (a : Addr) → has a ds ≡ true → (k.files.descriptors (k.files.descriptor_ptrs a)).pcb ≢ 0
  pub resources :
      (a : Addr) → has a ds ≡ true → (k.files.descriptors (k.files.descriptor_ptrs a)).resource ≢ 0

module _ (decimal : ℤ → List ℕ) (k : Kernel) where
  abbrev pub pid_text : Addr → List ℕ
  pid_text p = decimal (pcb_of k p).pid

  abbrev pub rid_text : Addr → List ℕ
  rid_text r = decimal (k.devices.resources r).id

  abbrev pub process_text : List Addr → Addr → List ℕ
  process_text children p =
      codes "[pid: "
      ++ (pid_text p
          ++ (codes ", child: "
              ++ ((codes "("
                    ++ (joined (λ a. pid_text (k.processes.pcb_ptrs a)) (codes ", ") [] children
                        ++ codes ")"))
                  ++ codes "]")))

  abbrev pub processes_text : (Addr → List Addr) → List Addr → List ℕ
  processes_text children ps =
      codes "{\n"
      ++ (joined (λ p. codes "\t" ++ process_text (children p) p) (codes ",") (codes "\n") ps
          ++ codes "}\n")

  abbrev pub timer_text : Addr → List ℕ
  timer_text t =
      codes "(pid:"
      ++ (pid_text (k.timing.timers t).pcb
          ++ (codes ", t:" ++ (decimal (k.timing.timers t).awakening_time ++ codes ")")))

  abbrev pub timers_text : List Addr → List ℕ
  timers_text ts = codes "[" ++ (joined timer_text (codes ", ") [] ts ++ codes "]")

  -- Of a descriptor, its number stands behind `pid` and its process's number behind `fd`.
  abbrev pub opener_text : Addr → List ℕ
  opener_text ptr =
      let d = k.files.descriptors (k.files.descriptor_ptrs ptr) in
      codes "(pid: "
      ++ (decimal d.fd
          ++ (codes ", fd: "
              ++ (pid_text d.pcb ++ (codes ", rid:" ++ (rid_text d.resource ++ codes ")")))))

  abbrev pub resource_text : List Addr → Addr → List ℕ
  resource_text openers r =
      codes "id: "
      ++ (rid_text r
          ++ (codes ", type:"
              ++ (decimal (k.devices.resources r).type
                  ++ (codes ", pids:"
                      ++ (codes "["
                          ++ (joined opener_text (codes ", ") [] openers ++ codes "]"))))))

  abbrev pub resources_text : (Addr → List Addr) → List Addr → List ℕ
  resources_text openers rs =
      codes "{\n"
      ++ (joined (λ r. codes "\t" ++ resource_text (openers r) r) (codes ",") (codes "\n") rs
          ++ codes "}\n")

  print_pid-some : (p : Addr) → p ≢ 0 → print_pid decimal k p ≡ some (pid_text p)
  unfolding print_pid
  print_pid-some p nz = rw (==-eq-false p 0 nz) refl

  pub pcb_print-text :
      (p : Addr) (cs : List Addr)
      → HasChildren k p cs
      → pcb_print decimal k p ≡ some (process_text cs p)
  unfolding pcb_print pcb_ptr_list_print
  pcb_print-text p cs c =
      rw
        (print_items-joined (λ a. print_pid decimal k (k.processes.pcb_ptrs a))
          (λ a. pid_text (k.processes.pcb_ptrs a)) (codes ", ") [] cs c.list
          (λ a i. print_pid-some (k.processes.pcb_ptrs a) (c.targets a i)))
        refl

  pub pcb_list_print-text :
      {head : ListHead} (children : Addr → List Addr) (ps : List Addr)
      → IsList k.processes.pcb_items head ps
      → ((p : Addr) → has p ps ≡ true → HasChildren k p (children p))
      → pcb_list_print decimal k head ≡ some (processes_text children ps)
  unfolding pcb_list_print
  pcb_list_print-text children ps l all =
      rw
        (print_items-joined (λ p. do text ← pcb_print decimal k p; some (codes "\t" ++ text))
          (λ p. codes "\t" ++ process_text (children p) p) (codes ",") (codes "\n") ps l
          (λ p i. rw (pcb_print-text p (children p) (all p i)) refl))
        refl

  pub timer_list_print-text :
      {head : ListHead} (ts : List Addr)
      → IsList k.timing.timer_items head ts
      → ((t : Addr) → has t ts ≡ true → (k.timing.timers t).pcb ≢ 0)
      → timer_list_print decimal k head ≡ some (timers_text ts)
  unfolding timer_list_print timer_print
  timer_list_print-text ts l all =
      rw
        (print_items-joined (timer_print decimal k) timer_text (codes ", ") [] ts l
          (λ t i. rw (print_pid-some (k.timing.timers t).pcb (all t i)) refl))
        refl

  descriptor_ptr_print-text :
      (a : Addr)
      → k.files.descriptor_ptrs a ≢ 0
      → (k.files.descriptors (k.files.descriptor_ptrs a)).pcb ≢ 0
      → (k.files.descriptors (k.files.descriptor_ptrs a)).resource ≢ 0
      → descriptor_ptr_print decimal k a ≡ some (opener_text a)
  unfolding descriptor_ptr_print print_rid
  descriptor_ptr_print-text a nd np nr =
      let d = k.files.descriptors (k.files.descriptor_ptrs a) in
      rw
        (
          ==-eq-false (k.files.descriptor_ptrs a) 0 nd,
          print_pid-some d.pcb np,
          ==-eq-false d.resource 0 nr,
        )
        refl

  resource_print-text :
      (r : Addr) (ds : List Addr)
      → HasOpeners k r ds
      → resource_print decimal k r ≡ some (resource_text ds r)
  unfolding resource_print descriptor_ptr_list_print
  resource_print-text r ds o =
      rw
        (print_items-joined (descriptor_ptr_print decimal k) opener_text (codes ", ") [] ds o.list
          (λ a i. descriptor_ptr_print-text a (o.targets a i) (o.pcbs a i) (o.resources a i)))
        refl

  pub resource_list_print-text :
      {head : ListHead} (openers : Addr → List Addr) (rs : List Addr)
      → IsList k.devices.resource_items head rs
      → ((r : Addr) → has r rs ≡ true → HasOpeners k r (openers r))
      → resource_list_print decimal k head ≡ some (resources_text openers rs)
  unfolding resource_list_print
  resource_list_print-text openers rs l all =
      rw
        (print_items-joined (λ r. do text ← resource_print decimal k r; some (codes "\t" ++ text))
          (λ r. codes "\t" ++ resource_text (openers r) r) (codes ",") (codes "\n") rs l
          (λ r i. rw (resource_print-text r (openers r) (all r i)) refl))
        refl
