-- ===== src/Kernel/Waiting/Unknown.antt =====
-- internal_wait for a process that is no child of the running one.
use messages_queue_disastros.Prelude.{
  ℕ, zero, suc, ◌<◌, ◌≡◌, refl, ◌∙◌, ◌≢◌, ap, true, false, some, List, [], ◌∷◌, arith, length, ℤ,
  pos, pos_part, eqb_ℤ, eqb_ℤ-eq-false, ltb_ℤ, to_int, ==-eq-false, ◌>>=◌,
}
use messages_queue_disastros.LinkedList.{Addr, rounds}
use messages_queue_disastros.LinkedList.Chain.{IsList, Chain, has, head_or, last_or, has-last_or}
use messages_queue_disastros.Kernel.{Kernel, pcb_of, arg}
use messages_queue_disastros.Kernel.Waiting.{
  is_zombie, is_awaited, scan_children, block_running, await_child, internal_wait,
}
use messages_queue_disastros.Kernel.Waiting.Block.{Waits, block_running-Waits}
use messages_queue_disastros.Kernel.Scheduling.Tick.{IsRunning}

-- Where no child is awaited the scan ends at the last one.
scan_children-last_or :
    (fuel : ℕ) (k : Kernel) (pid : ℤ) (p prev : Addr) (xs : List Addr)
    → Chain k.processes.pcb_ptr_items p xs 0
    → length xs < fuel
    → ((a : Addr) → has a xs ≡ true → is_awaited k pid a ≡ some false)
    → scan_children fuel k pid (head_or 0 xs) prev ≡ some (last_or prev xs)
unfolding scan_children
scan_children-last_or zero k pid p prev xs c lt none_awaited = absurd (omega arith)
scan_children-last_or (suc fuel) k pid p prev [] c lt none_awaited = refl
scan_children-last_or (suc fuel) k pid p prev (x ∷ xs) c lt none_awaited =
    let rest =
      scan_children-last_or fuel k pid x x xs c.3 (omega arith)
        λ a i. none_awaited a (ground arith) in
    rw (==-eq-false x 0 c.0, none_awaited x (ground arith), c.2, rest) refl

is_awaited_unknown :
    (k : Kernel) (n : ℕ) (a : Addr)
    → k.processes.pcb_ptrs a ≢ 0
    → (pcb_of k (k.processes.pcb_ptrs a)).pid ≢ pos (suc n)
    → is_awaited k (pos (suc n)) a ≡ some false
unfolding is_awaited
is_awaited_unknown k n a np ne =
    let other : eqb_ℤ (pos (suc n)) (pos 0) ≡ false = ==-eq-false (suc n) 0 (omega arith) in
    rw
      (
        ==-eq-false (k.processes.pcb_ptrs a) 0 np,
        other,
        eqb_ℤ-eq-false (pcb_of k (k.processes.pcb_ptrs a)).pid (pos (suc n)) ne,
      )
      refl

await_runs :
    (k : Kernel) (n : ℕ) (ptr : Addr)
    → k.processes.pcb_ptrs ptr ≢ 0
    → is_zombie (pcb_of k (k.processes.pcb_ptrs ptr)).status ≡ false
    → await_child k (pos (suc n)) ptr ≡ block_running k
unfolding await_child
await_runs k n ptr np alive =
    let positive : ltb_ℤ (pos 0) (pos (suc n)) ≡ true = ground arith in
    rw (==-eq-false (k.processes.pcb_ptrs ptr) 0 np, positive, alive) refl

wait_runs :
    (k : Kernel) (pid : ℤ) (first : Addr)
    → k.current ≢ 0
    → (pcb_of k k.current).children.first ≡ first
    → first ≢ 0
    → to_int (arg k 0) ≡ pid
    → internal_wait k
      ≡ (scan_children (rounds (pcb_of k k.current).children) k pid first 0 >>= await_child k pid)
unfolding internal_wait
wait_runs k pid first nz e1 nf e2 =
    rw (==-eq-false k.current 0 nz, e1, ==-eq-false first 0 nf, e2) refl

blocks :
    (k : Kernel) (n : ℕ) (x : Addr) (xs : List Addr)
    → k.current ≢ 0
    → IsList k.processes.pcb_ptr_items (pcb_of k k.current).children (x ∷ xs)
    → to_int (arg k 0) ≡ pos (suc n)
    → ((a : Addr) → has a (x ∷ xs) ≡ true → k.processes.pcb_ptrs a ≢ 0)
    → ((a : Addr) → has a (x ∷ xs) ≡ true → (pcb_of k (k.processes.pcb_ptrs a)).pid ≢ pos (suc n))
    → is_zombie (pcb_of k (k.processes.pcb_ptrs (last_or x xs))).status ≡ false
    → internal_wait k ≡ block_running k
blocks k n x xs nz l e np unknown alive =
    let fuel : rounds (pcb_of k k.current).children ≡ suc (length (x ∷ xs)) =
      ap (λ z. suc (pos_part z)) l.size in
    let scanned =
      scan_children-last_or (suc (length (x ∷ xs))) k (pos (suc n)) 0 0 (x ∷ xs) l.chain
        (omega arith) (λ a i. is_awaited_unknown k n a (np a i) (unknown a i)) in
    wait_runs k (pos (suc n)) x nz l.first l.chain.0 e
    ∙ ap (λ z. scan_children z k (pos (suc n)) x 0 >>= await_child k (pos (suc n))) fuel
    ∙ ap (λ o. o >>= await_child k (pos (suc n))) scanned
    ∙ await_runs k n (last_or x xs) (np (last_or x xs) (has-last_or x xs)) alive

-- A process with children that waits for a positive number that none of them has gets no error,
-- where the last child is not a zombie and another process is ready: the call does not fault, the
-- invariant of the scheduler holds, the caller is the last process that waits, with its status
-- changed and no result stored, the first ready process runs, and the other processes, the timers
-- and the rest of the kernel are as they were.
pub internal_wait_unknown :
    (k : Kernel) (m : ℕ) (x : Addr) (xs : List Addr) (free : List ℕ) (ts ws : List Addr) (n : Addr)
    (rest : List Addr)
    → IsRunning k free ts ws (n ∷ rest)
    → IsList k.processes.pcb_ptr_items (pcb_of k k.current).children (x ∷ xs)
    → to_int (arg k 0) ≡ pos (suc m)
    → ((a : Addr) → has a (x ∷ xs) ≡ true → k.processes.pcb_ptrs a ≢ 0)
    → ((a : Addr) → has a (x ∷ xs) ≡ true → (pcb_of k (k.processes.pcb_ptrs a)).pid ≢ pos (suc m))
    → is_zombie (pcb_of k (k.processes.pcb_ptrs (last_or x xs))).status ≡ false
    → (k' : Kernel) × (internal_wait k ≡ some k') × Waits k free ts ws n rest k'
internal_wait_unknown k m x xs free ts ws n rest i l e np unknown alive =
    let (k', run, w) = block_running-Waits k free ts ws n rest i in
    (k', blocks k m x xs i.loose.ne_null l e np unknown alive ∙ run, w)
