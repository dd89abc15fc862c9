-- ===== src/Kernel/Creation/Calls.antt =====
-- internal_fork and internal_spawn.
use messages_queue_disastros.Prelude.{ℕ, ◌≡◌, ◌∙◌, ap, some, List, ◌∷◌, ◌++◌, ◌>>=◌, ℤ}
use messages_queue_disastros.LinkedList.{Addr}
use messages_queue_disastros.Kernel.{Kernel, pcb_of, set_pcb, arg}
use messages_queue_disastros.Kernel.Scheduling.Tick.{IsRunning}
use messages_queue_disastros.Kernel.Creation.{new_process, internal_fork, internal_spawn}
use messages_queue_disastros.Kernel.Creation.Created.{HasBlocks, Created, new_process-Created}

-- The kernel in which the process `p` starts with the given function and argument.
abbrev pub starting : Kernel → Addr → (function argument : ℤ) → Kernel
starting k p function argument =
    set_pcb k p
      (record (pcb_of k p) { cpu_state = record { function = function; argument = argument } })

fork_runs : (k k1 : Kernel) (p : Addr) → new_process k ≡ some (p, k1) → internal_fork k ≡ some k1
unfolding internal_fork
fork_runs k k1 p run = ap (λ o. o >>= λ r. some r.1) run

spawn_runs :
    (k k1 : Kernel) (p : Addr)
    → new_process k ≡ some (p, k1)
    → internal_spawn k ≡ some (starting k1 p (arg k1 0) (arg k1 1))
unfolding internal_spawn
spawn_runs k k1 p run = ap (λ o. o >>= λ r. some (starting r.1 r.0 (arg r.1 0) (arg r.1 1))) run

-- With a free block for the process and one for the pointer, fork and spawn make a process in a
-- block that no other one has, the last ready one and the last child of the running one, with the
-- next number, which is the result; no other process changes and the invariant of the scheduler is
-- kept. What spawn leaves differs from that in the function and the argument that the new process
-- starts with, which are those of the call.
pub internal_spawn-Created :
    (k : Kernel) (free : List ℕ) (j : ℕ) (js : List ℕ) (h : ℕ) (hs : List ℕ)
    (ts ws rs cs : List Addr)
    → IsRunning k free ts ws rs
    → HasBlocks k (j ∷ js) (h ∷ hs) (k.current ∷ (rs ++ ws)) cs
    → (p : Addr) × (ptr : Addr) × (k1 : Kernel) × (internal_fork k ≡ some k1)
      × (internal_spawn k ≡ some (starting k1 p (arg k 0) (arg k 1)))
      × Created k free js hs ts ws rs cs p ptr k1
internal_spawn-Created k free j js h hs ts ws rs cs i b =
    let (p, ptr, k1, run, c) = new_process-Created k free j js h hs ts ws rs cs i b in
    let same : (n : ℕ) → arg k1 n ≡ arg k n =
      λ n. ap (λ a. (pcb_of k1 a).syscall_args n) c.current ∙ ap (λ f. f n) c.args in
    (
      p,
      ptr,
      k1,
      fork_runs k k1 p run,
      spawn_runs k k1 p run
          ∙ ap (λ a. some (starting k1 p a (arg k1 1))) (same 0)
          ∙ ap (λ a. some (starting k1 p (arg k 0) a)) (same 1),
      c,
    )
