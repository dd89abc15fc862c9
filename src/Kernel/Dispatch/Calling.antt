-- ===== src/Kernel/Dispatch/Calling.antt =====
-- disastrOS_syscall followed by disastrOS_trap.
use messages_queue_disastros.Prelude.{
  ℕ, ◌<◌, ◌≡◌, refl, ◌∙◌, ◌≢◌, ap, false, some, arith, ==-eq-false, ltb, lt→ltb, ℤ, pos, ltb_ℤ,
  if◌then◌else◌, update_same, update_other, Option, ◌≤◌, get_elem?,
}
use messages_queue_disastros.Constants.{max_syscalls}
use messages_queue_disastros.LinkedList.{Addr}
use messages_queue_disastros.Process.{Pcb}
use messages_queue_disastros.Kernel.{Kernel, pcb_of, set_pcb, arg}
use messages_queue_disastros.Kernel.Dispatch.{
  trapped, disastros_syscall, disastros_trap, call_handler, syscall_numarg, syscall_vector,
}

-- What disastrOS_syscall leaves in the kernel: the number, and as many arguments as the call takes.
pub record Stored (k : Kernel) (n nargs : ℕ) (args : ℕ → ℤ) (k' : Kernel) : Type 0 where
  pub number : (pcb_of k' k.current).syscall_num ≡ pos n
  pub arguments : (i : ℕ) → i < nargs → arg k' i ≡ args i
  pub rest : (i : ℕ) → nargs ≤ i → arg k' i ≡ arg k i
  pub processes : (p : Addr) → p ≢ k.current → pcb_of k' p ≡ pcb_of k p
  pub current : k'.current ≡ k.current
  pub mail : k'.mail ≡ k.mail
  pub user : k'.user ≡ k.user

abbrev stored_pcb : Kernel → (n nargs : ℕ) → (ℕ → ℤ) → Pcb
stored_pcb k n nargs args =
    let pcb = pcb_of k k.current in
    record pcb {
      syscall_args = λ i. if ltb i nargs then args i else pcb.syscall_args i;
      syscall_num = pos n;
    }

module _ (k : Kernel) (n nargs : ℕ) (args : ℕ → ℤ) (nz : k.current ≢ 0) where
  abbrev entered : Kernel
  entered = set_pcb k k.current (stored_pcb k n nargs args)

  at_current : pcb_of entered k.current ≡ stored_pcb k n nargs args
  at_current = update_same k.processes.pcbs k.current (stored_pcb k n nargs args)

  entry_runs :
      ltb_ℤ (pos n) (pos 0) ≡ false
      → ltb_ℤ max_syscalls (pos n) ≡ false
      → get_elem? syscall_numarg n ≡ some nargs
      → disastros_syscall k (pos n) args ≡ some (trapped entered)
  unfolding disastros_syscall
  entry_runs e1 e2 e3 = rw (==-eq-false k.current 0 nz, e1, e2, e3) refl

  trap_runs :
      (handler : Kernel → Option Kernel)
      → ltb_ℤ (pos n) (pos 0) ≡ false
      → ltb_ℤ max_syscalls (pos n) ≡ false
      → get_elem? syscall_vector n ≡ some (some handler)
      → disastros_trap entered ≡ handler entered
  unfolding disastros_trap call_handler
  trap_runs handler e1 e2 e3 =
      rw (ap (λ p. p.syscall_num) at_current, ==-eq-false k.current 0 nz, e1, e2, e3) refl

-- A system call with a number below 32 stores the number and as many arguments as the table has for
-- it, and the trap then calls the function that the vector has.
pub disastros_syscall-Stored :
    (k : Kernel) (n nargs : ℕ) (args : ℕ → ℤ) (handler : Kernel → Option Kernel)
    → k.current ≢ 0
    → n < 32
    → get_elem? syscall_numarg n ≡ some nargs
    → get_elem? syscall_vector n ≡ some (some handler)
    → (k' : Kernel) × (disastros_syscall k (pos n) args ≡ some (trapped k'))
      × Stored k n nargs args k'
      × (disastros_trap k' ≡ handler k')
disastros_syscall-Stored k n nargs args handler nz lt count found =
    let e1 : ltb_ℤ (pos n) (pos 0) ≡ false = ground arith in
    let e2 : ltb_ℤ max_syscalls (pos n) ≡ false = ground arith in
    (
      entered k n nargs args nz,
      entry_runs k n nargs args nz e1 e2 count,
      record {
        number = ap (λ p. p.syscall_num) (at_current k n nargs args nz);
        arguments = λ i small.
            ap (λ p. p.syscall_args i) (at_current k n nargs args nz)
            ∙ rw (lt→ltb i nargs small) refl;
        rest = λ i big.
            let out : ltb i nargs ≡ false = ground arith in
            ap (λ p. p.syscall_args i) (at_current k n nargs args nz) ∙ rw out refl;
        processes =
            λ p ne. update_other k.processes.pcbs k.current p (stored_pcb k n nargs args) ne;
        current = refl;
        mail = refl;
        user = refl;
      },
      trap_runs k n nargs args nz handler e1 e2 found,
    )
