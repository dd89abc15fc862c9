-- ===== src/Kernel/Mailbox/Fifo.antt =====
-- What the two system calls make of a message queue: a first-in first-out queue of texts.
use mathlib.Core.Path.{subst}
use mathlib.Core.Option.{some-injective}
use messages_queue_disastros.Prelude.{
  ℕ, zero, suc, ◌≤◌, ◌<◌, ◌≡◌, refl, ◌∙◌, ap, sym, some, List, [], ◌∷◌, ◌++◌, arith, length, ℤ, pos,
  pos_part, take,
}
use messages_queue_disastros.Constants.{message_string_max_length, m_for_mq}
use messages_queue_disastros.LinkedList.{Addr}
use messages_queue_disastros.LinkedList.Chain.{has-first}
use messages_queue_disastros.Message.{Message}
use messages_queue_disastros.Message.Text.{segment, text}
use messages_queue_disastros.Message.Queue.{IsMail, IsQueue, texts}
use messages_queue_disastros.Kernel.{Kernel, pcb_of}
use messages_queue_disastros.Kernel.Mailbox.{enqueue, dequeue, user_char}
use messages_queue_disastros.Kernel.Mailbox.Write.{msgs_of, enqueue-Sent}
use messages_queue_disastros.Kernel.Mailbox.Read.{text_fits, dequeue-Received}

-- The queue of a resource holds the texts `ts`, the oldest one first.
pub record Holds (k : Kernel) (free : List ℕ) (mq : Addr) (ts : List (List ℕ)) : Type 0 where
  pub messages : List Addr
  pub mail : IsMail k.mail free
  pub is_queue : IsQueue k.mail free (msgs_of k mq) messages
  pub contents : texts k.mail.messages messages ≡ ts

-- It depends on the messages and the queue alone.
pub Holds-same :
    (k k' : Kernel) (free : List ℕ) (mq : Addr) (ts : List (List ℕ))
    → Holds k free mq ts
    → k'.mail ≡ k.mail
    → msgs_of k' mq ≡ msgs_of k mq
    → Holds k' free mq ts
Holds-same k k' free mq ts h mail queue = record {
  messages = h.messages;
  mail = subst (λ s. IsMail s free) (sym mail) h.mail;
  is_queue =
      subst (λ s. IsQueue s free (msgs_of k' mq) h.messages) (sym mail)
        (subst (λ q. IsQueue k.mail free q h.messages) (sym queue) h.is_queue);
  contents = ap (λ s. texts s.messages h.messages) mail ∙ h.contents;
}

length-texts : (f : Addr → Message) (xs : List Addr) → length (texts f xs) ≡ length xs
unfolding texts
length-texts f [] = refl
length-texts f (x ∷ xs) = ap suc (length-texts f xs)

pub length-segment : (f : ℕ → ℕ) (from n : ℕ) → length (segment f from n) ≡ n
unfolding segment
length-segment f from zero = refl
length-segment f from (suc n) = ap suc (length-segment f (suc from) n)

-- On a queue of fewer than 128 texts, with a free block, where the links of all free blocks are
-- clear, a write of 128 characters at most puts the text at the end, takes one block, and answers the
-- length.
pub enqueue-Holds :
    {k : Kernel} {j : ℕ} {js : List ℕ} {ts : List (List ℕ)} (mq : Addr) (ptr : ℤ) (n : ℕ)
    → Holds k (j ∷ js) mq ts
    → length ts < m_for_mq
    → n ≤ message_string_max_length
    → (k' : Kernel) × (enqueue k mq ptr (pos n) ≡ some k')
      × Holds k' js mq (ts ++ (segment (user_char k ptr) 0 n ∷ []))
      × ((pcb_of k' k.current).syscall_retvalue ≡ pos n)
enqueue-Holds {k} mq ptr n h room le =
    let size = length-texts k.mail.messages h.messages in
    let same : length h.messages ≡ length _ = sym size ∙ ap length h.contents in
    let (m, k', run, sent) = enqueue-Sent mq ptr n h.mail h.is_queue (omega (arith, same)) le in
    (
      k',
      run,
      record {
        messages = h.messages ++ (m ∷ []);
        mail = sent.appended.mail;
        is_queue = sent.appended.queue;
        contents =
            sent.appended.contents ∙ ap (λ z. z ++ (segment (user_char k ptr) 0 n ∷ [])) h.contents;
      },
      sent.retvalue,
    )

length-take : (n : ℕ) (xs : List ℕ) → n ≤ length xs → length (take n xs) ≡ n
length-take zero xs le = refl
length-take (suc n) [] le = absurd (omega arith)
length-take (suc n) (x ∷ xs) le = ap suc (length-take n xs (omega arith))

length-text : (m : Message) (n : ℕ) → m.length ≡ pos n → n ≤ length m.msg → length (text m) ≡ n
length-text m n e fits = ap (λ z. length (take (pos_part z) m.msg)) e ∙ length-take n m.msg fits

module _ (k : Kernel) (free : List ℕ) (mq : Addr) (ptr : ℤ) (limit : ℕ) where
  read_first :
      (ms : List Addr) (t : List ℕ) (ts : List (List ℕ))
      → IsMail k.mail free
      → IsQueue k.mail free (msgs_of k mq) ms
      → texts k.mail.messages ms ≡ t ∷ ts
      → length t ≤ limit
      → (k' : Kernel) × (j : ℕ) × (dequeue k mq ptr (pos limit) ≡ some k')
        × Holds k' (j ∷ free) mq ts
        × (segment (user_char k' ptr) 0 (length t) ≡ t)
        × ((pcb_of k' k.current).syscall_retvalue ≡ pos (length t))
  unfolding texts
  read_first [] t ts mail q e le = cc
  read_first (x ∷ rest) t ts mail q e le =
      let (n, length_eq, small) = q.texts x (has-first x rest) in
      let first : text (k.mail.messages x) ≡ t = cc in
      let others : texts k.mail.messages rest ≡ ts = cc in
      let fits = text_fits k.mail free x n mail (n, length_eq, small) length_eq in
      let size : n ≡ length t =
        sym (length-text (k.mail.messages x) n length_eq fits) ∙ ap length first in
      let (k', run, got) =
        dequeue-Received mq x rest ptr limit n mail q length_eq (omega (arith, size, le)) in
      (
        k',
        got.removed.index,
        run,
        record {
          messages = rest;
          mail = got.removed.mail;
          is_queue = got.removed.queue;
          contents = ap (λ f. texts f rest) got.removed.same ∙ others;
        },
        ap (segment (user_char k' ptr) 0) (sym size) ∙ got.copied ∙ first,
        got.retvalue ∙ ap pos size,
      )

-- A read with room for the oldest text takes it off, copies it to the memory at the pointer, answers
-- its length, and frees one block.
pub dequeue-Holds :
    {k : Kernel} {free : List ℕ} {t : List ℕ} {ts : List (List ℕ)} (mq : Addr) (ptr : ℤ) (limit : ℕ)
    → Holds k free mq (t ∷ ts)
    → length t ≤ limit
    → (k' : Kernel) × (j : ℕ) × (dequeue k mq ptr (pos limit) ≡ some k')
      × Holds k' (j ∷ free) mq ts
      × (segment (user_char k' ptr) 0 (length t) ≡ t)
      × ((pcb_of k' k.current).syscall_retvalue ≡ pos (length t))
dequeue-Holds {k} {free} {t} {ts} mq ptr limit h le =
    read_first k free mq ptr limit h.messages t ts h.mail h.is_queue h.contents le

-- With a free block, where the links of all free blocks are clear, a text of 128 characters at most
-- that is written to an empty queue is what is read from it next, whichever process reads: the
-- reader `k2` has the messages and the queue that the writer left in `k1`, and a limit of at least
-- the length, which is the result.
pub enqueue-dequeue :
    {k : Kernel} (k1 k2 : Kernel) {j : ℕ} {js : List ℕ} (mq : Addr) (ptr : ℤ) (n : ℕ) (ptr2 : ℤ)
    (limit : ℕ)
    → Holds k (j ∷ js) mq []
    → n ≤ message_string_max_length
    → n ≤ limit
    → enqueue k mq ptr (pos n) ≡ some k1
    → k2.mail ≡ k1.mail
    → msgs_of k2 mq ≡ msgs_of k1 mq
    → (k3 : Kernel) × (dequeue k2 mq ptr2 (pos limit) ≡ some k3)
      × (segment (user_char k3 ptr2) 0 n ≡ segment (user_char k ptr) 0 n)
      × ((pcb_of k3 k2.current).syscall_retvalue ≡ pos n)
enqueue-dequeue {k} k1 k2 {js} mq ptr n ptr2 limit h le room sent mail queue =
    let (k', run, held, _) = enqueue-Holds mq ptr n h (omega arith) le in
    let written = segment (user_char k ptr) 0 n in
    let size : length written ≡ n = length-segment (user_char k ptr) 0 n in
    let h1 : Holds k1 js mq (written ∷ []) =
      subst (λ z. Holds z js mq (written ∷ [])) (some-injective k' k1 (sym run ∙ sent)) held in
    let h2 = Holds-same k1 k2 js mq (written ∷ []) h1 mail queue in
    let (k3, _, got, _, same, value) = dequeue-Holds mq ptr2 limit h2 (omega (arith, size)) in
    (k3, got, ap (segment (user_char k3 ptr2) 0) (sym size) ∙ same, value ∙ ap pos size)
