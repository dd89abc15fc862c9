-- ===== src/Kernel/Mailbox/Read.antt =====
-- internal_message_queue_read on a queue that is found.
use mathlib.Core.Path.{subst}
use messages_queue_disastros.Prelude.{
  ℕ, suc, ◌≤◌, ◌<◌, ◌≡◌, refl, ◌∙◌, ◌≢◌, ap, sym, some, List, ◌∷◌, arith, length, ℤ, pos, pos_part,
  eqb_ℤ, ltb_ℤ, ◌+ℤ◌, take, update_same, update_other, false, ==-eq-false, update,
}
use messages_queue_disastros.LinkedList.{Addr, Items, ListHead, detach}
use messages_queue_disastros.LinkedList.Chain.{has-first}
use messages_queue_disastros.PoolAllocator.{success}
use messages_queue_disastros.Message.{Messages, m_free}
use messages_queue_disastros.Message.Text.{segment, text}
use messages_queue_disastros.Message.Queue.{IsMail, IsQueue, HasText}
use messages_queue_disastros.Message.Remove.{Removed, detach-Removed}
use messages_queue_disastros.Kernel.{Kernel, pcb_of, set_retvalue}
use messages_queue_disastros.Kernel.Mailbox.{dequeue, copy_out, user_char, set_resource}
use messages_queue_disastros.Kernel.Mailbox.CopyOut.{copy_out-Copied, Copied-segment}
use messages_queue_disastros.Kernel.Mailbox.Write.{msgs_of}

-- The kernel that dequeue returns.
abbrev read_kernel : Kernel → Addr → (ℤ → ℕ) → Messages → ListHead → ℤ → Kernel
read_kernel k mq chars mail head length =
    set_retvalue
      (set_resource (record k { user = record k.user { chars = chars }; mail = mail }) mq
        (record (k.devices.resources mq) { msgs = head }))
      length

dequeue_runs :
    (k : Kernel) (mq x : Addr) (ptr limit : ℤ) (n : ℕ) (chars : ℤ → ℕ) (items : Items)
    (head : ListHead) (mail : Messages)
    → eqb_ℤ (msgs_of k mq).size (pos 0) ≡ false
    → (msgs_of k mq).first ≡ x
    → x ≢ 0
    → (k.mail.messages x).length ≡ pos n
    → ltb_ℤ limit (pos n) ≡ false
    → copy_out n 0 (k.mail.messages x).msg ptr k.user.chars ≡ some chars
    → detach k.mail.message_items (msgs_of k mq) x ≡ some (items, head, x)
    → m_free (record k.mail { message_items = items }) x ≡ some (success, mail)
    → dequeue k mq ptr limit ≡ some (read_kernel k mq chars mail head (pos n))
unfolding dequeue
dequeue_runs k mq x ptr limit n chars items head mail e1 e2 nz e3 e4 e5 e6 e7 =
    simp (e1, e2, ==-eq-false x 0 nz, e3, e4, e5, e6, e7) refl

-- What a read of a message of `n` characters leaves of the kernel.
pub record Received (k : Kernel) (free : List ℕ) (mq x : Addr) (rest : List Addr) (ptr : ℤ) (n : ℕ)
    (k' : Kernel) : Type 0 where
  pub removed : Removed k.mail free x rest k'.mail (msgs_of k' mq)
  pub copied : segment (user_char k' ptr) 0 n ≡ text (k.mail.messages x)
  pub beyond : (p : ℤ) → ((i : ℕ) → i < n → p ≢ ptr +ℤ pos i) → k'.user.chars p ≡ k.user.chars p
  pub ints : k'.user.ints ≡ k.user.ints
  pub retvalue : (pcb_of k' k.current).syscall_retvalue ≡ pos n
  pub resources : (r : Addr) → r ≢ mq → k'.devices.resources r ≡ k.devices.resources r
  pub processes : (p : Addr) → p ≢ k.current → pcb_of k' p ≡ pcb_of k p
  pub readers : (k'.devices.resources mq).reading_pid ≡ (k.devices.resources mq).reading_pid
  pub writers : (k'.devices.resources mq).writing_pid ≡ (k.devices.resources mq).writing_pid
  pub current : k'.current ≡ k.current
  pub files : k'.files ≡ k.files

pub text_fits :
    (s : Messages) (free : List ℕ) (x n : ℕ)
    → IsMail s free
    → HasText (s.messages x)
    → (s.messages x).length ≡ pos n
    → n ≤ length (s.messages x).msg
text_fits s free x n mail (n', e', le) e =
    let same : n ≡ n' = ap pos_part (sym e ∙ e') in omega (arith, same, le, mail.chars x)

-- A read with room for the first message of the queue: the message is copied to the memory at the
-- pointer, which is as before elsewhere, it is off the queue, which keeps the others in their
-- order, its block is free, and the process is given the length.
pub dequeue-Received :
    {k : Kernel} {free : List ℕ} (mq x : Addr) (rest : List Addr) (ptr : ℤ) (limit n : ℕ)
    → IsMail k.mail free
    → IsQueue k.mail free (msgs_of k mq) (x ∷ rest)
    → (k.mail.messages x).length ≡ pos n
    → n ≤ limit
    → (k' : Kernel) × (dequeue k mq ptr (pos limit) ≡ some k') × Received k free mq x rest ptr n k'
dequeue-Received {k} {free} mq x rest ptr limit n mail q e le =
    let msg = (k.mail.messages x).msg in
    let fits : n ≤ length msg = text_fits k.mail free x n mail (q.texts x (has-first x rest)) e in
    let (chars, run, copied) = copy_out-Copied n 0 msg ptr k.user.chars (omega (arith, fits)) in
    let (items, head, s', detached, freed, removed) = detach-Removed x rest mail q in
    let res = k.devices.resources mq in
    let new = record res { msgs = head } in
    let same : update k.devices.resources mq new mq ≡ new =
      update_same k.devices.resources mq new in
    let size : eqb_ℤ (msgs_of k mq).size (pos 0) ≡ false =
      ap (λ z. eqb_ℤ z (pos 0)) q.list.size ∙ ==-eq-false (suc (length rest)) 0 (omega arith) in
    let room : ltb_ℤ (pos limit) (pos n) ≡ false = ground arith in
    (
      read_kernel k mq chars s' head (pos n),
      dequeue_runs k mq x ptr (pos limit) n chars items head s' size q.list.first q.list.chain.0 e
          room run detached freed,
      record {
        removed = subst (Removed k.mail free x rest s') (sym (ap (λ r. r.msgs) same)) removed;
        copied = Copied-segment n msg ptr fits copied ∙ ap (λ z. take (pos_part z) msg) (sym e);
        beyond = λ p away. copied.outside p (λ i _ lt. away i (omega (arith, lt)));
        ints = refl;
        retvalue = ap (λ p. p.syscall_retvalue) (update_same k.processes.pcbs k.current _);
        resources = λ r ne. update_other k.devices.resources mq r new ne;
        processes = λ p ne. update_other k.processes.pcbs k.current p _ ne;
        readers = ap (λ r. r.reading_pid) same;
        writers = ap (λ r. r.writing_pid) same;
        current = refl;
        files = refl;
      },
    )
