-- ===== src/TestMq/Exchange/Calls.antt =====
-- A write and a read of the queue by the processes of the test program.
use mathlib.Core.Path.{subst}
use mathlib.Core.List.{append-nil, append_assoc}
use messages_queue_disastros.Prelude.{
  ℕ, suc, ◌+◌, ◌-◌, ◌≤◌, ◌<◌, ◌≡◌, refl, ◌∙◌, ap, Bool, true, false, not, some, ◌==◌, List, [], ◌∷◌,
  ◌++◌, arith, length, length-append, sym, ==-eq-false, ==_iff, ℤ, pos, if◌then◌else◌, update_same,
}
use messages_queue_disastros.Constants.{
  message_string_max_length, waiting_for_message, message_queue_empty,
}
use messages_queue_disastros.LinkedList.{Addr}
use messages_queue_disastros.Message.{Message}
use messages_queue_disastros.Message.Text.{segment}
use messages_queue_disastros.Message.Queue.{texts}
use messages_queue_disastros.Kernel.{Kernel, pcb_of, set_retvalue}
use messages_queue_disastros.Kernel.Mailbox.{enqueue, dequeue, user_char}
use messages_queue_disastros.Kernel.Mailbox.Write.{msgs_of}
use messages_queue_disastros.Kernel.Mailbox.Fifo.{
  Holds, Holds-same, length-segment, enqueue-Holds, dequeue-Holds,
}
use messages_queue_disastros.TestMq.{
  writing, write_sleeping, write_answer, read_sleeping, read_answer,
}
use messages_queue_disastros.TestMq.Rounds.{rounds_left, IsRound}
use messages_queue_disastros.TestMq.Exchange.{
  World, result_of, AllWhole, Conserved, Accounted, counted, text_of, after_write, after_read,
}

AllWhole-append : (ts us : List (List ℕ)) → AllWhole ts → AllWhole us → AllWhole (ts ++ us)
AllWhole-append [] us a b = b
AllWhole-append (t ∷ ts) us a b = (a.0, AllWhole-append ts us a.1 b)

sent_answer :
    (fd : ℤ) (i : ℕ) (res : ℤ) (written : ℕ)
    → res ≡ pos message_string_max_length
    → write_answer fd i res written ≡ (write_sleeping fd (suc i), suc written)
unfolding write_answer
sent_answer fd i res written e = rw e refl

got_answer :
    (fd : ℤ) (res : ℤ) (count : ℕ)
    → res ≡ pos message_string_max_length
    → read_answer fd res count ≡ (read_sleeping fd, suc count)
unfolding read_answer
got_answer fd res count e = rw e refl

-- The counters and the texts after a call.
counted_one : (n m : ℕ) (t : List ℕ) → m ≡ suc n → counted n m t ≡ t ∷ []
counted_one n m t e =
    let other : (n == m) ≡ false = ==-eq-false n m (omega (arith, e)) in rw other refl

counted_same : (n m : ℕ) (t : List ℕ) → m ≡ n → counted n m t ≡ []
counted_same n m t e = let same : (n == m) ≡ true = (==_iff n m).1 (sym e) in rw same refl

length-counted :
    (ts : List (List ℕ)) (n m : ℕ) (t : List ℕ)
    → length ts ≡ n
    → m ≡ suc n
    → length (ts ++ counted n m t) ≡ m
length-counted ts n m t size e =
    rw (counted_one n m t e) (omega (arith, size, e, length-append ts (t ∷ [])))

Accounted-total :
    {w : World} {in_queue : List (List ℕ)}
    → Accounted w in_queue
    → w.read + length in_queue ≡ w.written
Accounted-total {w} {in_queue} a =
    omega
      (arith, length-append w.received in_queue, ap length a.order, a.sent_size, a.received_size)

write-Accounted :
    (w : World) (ts : List (List ℕ)) (fd : ℤ) (i : ℕ) (ptr : ℤ) (k' : Kernel)
    → Accounted w ts
    → (write_answer fd i (result_of w.kernel k') w.written).1 ≡ suc w.written
    → Accounted (after_write w fd i ptr k') (ts ++ (text_of w.kernel ptr ∷ []))
write-Accounted w ts fd i ptr k' a e =
    let m = (write_answer fd i (result_of w.kernel k') w.written).1 in
    let t = text_of w.kernel ptr in
    record {
      order =
          sym (append_assoc w.received ts (t ∷ []))
          ∙ ap (λ z. z ++ (t ∷ [])) a.order
          ∙ ap (◌++◌ w.sent) (sym (counted_one w.written m t e));
      sent_size = length-counted w.sent w.written m t a.sent_size e;
      received_size = a.received_size;
    }

read-Accounted :
    (w : World) (t : List ℕ) (ts : List (List ℕ)) (fd ptr : ℤ) (k' : Kernel)
    → Accounted w (t ∷ ts)
    → (read_answer fd (result_of w.kernel k') w.read).1 ≡ suc w.read
    → text_of k' ptr ≡ t
    → Accounted (after_read w fd ptr k') ts
read-Accounted w t ts fd ptr k' a e same =
    let m = (read_answer fd (result_of w.kernel k') w.read).1 in
    let u = text_of k' ptr in
    record {
      order =
          ap (λ z. (w.received ++ z) ++ ts) (counted_one w.read m u e ∙ ap (λ z. z ∷ []) same)
          ∙ append_assoc w.received (t ∷ []) ts
          ∙ a.order;
      sent_size = a.sent_size;
      received_size = length-counted w.received w.read m u a.received_size e;
    }

unread-Accounted :
    (w : World) (ts : List (List ℕ)) (fd ptr : ℤ) (k' : Kernel)
    → Accounted w ts
    → (read_answer fd (result_of w.kernel k') w.read).1 ≡ w.read
    → Accounted (after_read w fd ptr k') ts
unread-Accounted w ts fd ptr k' a e =
    let m = (read_answer fd (result_of w.kernel k') w.read).1 in
    let same : w.received ++ counted w.read m (text_of k' ptr) ≡ w.received =
      ap (◌++◌ w.received) (counted_same w.read m (text_of k' ptr) e) ∙ append-nil w.received in
    record {
      order = ap (λ z. z ++ ts) same ∙ a.order;
      sent_size = a.sent_size;
      received_size = ap length same ∙ a.received_size ∙ sym e;
    }

-- A write finds room for a message, and a block.
enqueue-Conserved :
    (mq : Addr) (w : World) (fd : ℤ) (i : ℕ) (ptr : ℤ) (free : List ℕ) (ts : List (List ℕ))
    → i < 10
    → w.written + (10 - i) ≤ 10
    → Holds w.kernel free mq ts
    → AllWhole ts
    → Accounted w ts
    → 10 ≤ length free + length ts
    → (k' : Kernel) × (enqueue w.kernel mq ptr (pos message_string_max_length) ≡ some k')
      × ((write_answer fd i (result_of w.kernel k') w.written).1 ≡ suc w.written)
      × Conserved mq (after_write w fd i ptr k')
enqueue-Conserved mq w fd i ptr [] ts lt left h a owed room =
    absurd (omega (arith, lt, left, Accounted-total owed, room))
enqueue-Conserved mq w fd i ptr (j ∷ js) ts lt left h a owed room =
    let (k', run, held, value) =
      enqueue-Holds mq ptr message_string_max_length h
        (omega (arith, lt, left, Accounted-total owed)) (omega arith) in
    let t = text_of w.kernel ptr in
    let answer = sent_answer fd i (result_of w.kernel k') w.written value in
    let more = length-append ts (t ∷ []) in
    (
      k',
      run,
      ap (λ r. r.1) answer,
      record {
        free = js;
        in_queue = ts ++ (t ∷ []);
        holds = held;
        whole =
            AllWhole-append ts (t ∷ []) a
              (length-segment (user_char w.kernel ptr) 0 message_string_max_length, tt);
        accounted = write-Accounted w ts fd i ptr k' owed (ap (λ r. r.1) answer);
        room = omega (arith, more, room);
        rounds = rw answer (omega (arith, lt, left));
        in_range = rw answer tt;
      },
    )

pub write-Conserved :
    (mq : Addr) (w : World) (fd : ℤ) (i : ℕ) (ptr : ℤ)
    → w.writer ≡ writing fd i
    → Conserved mq w
    → (k' : Kernel) × (enqueue w.kernel mq ptr (pos message_string_max_length) ≡ some k')
      × ((write_answer fd i (result_of w.kernel k') w.written).1 ≡ suc w.written)
      × Conserved mq (after_write w fd i ptr k')
write-Conserved mq w fd i ptr e c =
    enqueue-Conserved mq w fd i ptr c.free c.in_queue (subst IsRound e c.in_range)
      (subst (λ s. w.written + rounds_left s ≤ 10) e c.rounds) c.holds c.whole c.accounted c.room

abbrev empty_answer : Bool → ℤ
empty_answer has_writer = if has_writer then waiting_for_message else message_queue_empty

-- Neither of the answers of a read of an empty queue counts a message.
not_counted :
    (has_writer : Bool) (fd res : ℤ) (count : ℕ)
    → res ≡ empty_answer has_writer
    → (read_answer fd res count).1 ≡ count
unfolding read_answer
not_counted true fd res count e = rw e refl
not_counted false fd res count e = rw e refl

empty_runs :
    (k : Kernel) (mq : Addr) (ptr : ℤ)
    → (msgs_of k mq).size ≡ pos 0
    → dequeue k mq ptr (pos message_string_max_length)
      ≡ some (set_retvalue k (empty_answer (not ((k.devices.resources mq).writing_pid == 0))))
unfolding dequeue
empty_runs k mq ptr e = rw e refl

no_message : (f : Addr → Message) (ms : List Addr) → texts f ms ≡ [] → ms ≡ []
unfolding texts
no_message f [] e = refl
no_message f (x ∷ xs) e = cc

pub dequeue-Conserved :
    (mq : Addr) (w : World) (fd : ℤ) (ptr : ℤ) (free : List ℕ) (ts : List (List ℕ))
    → Holds w.kernel free mq ts
    → AllWhole ts
    → Accounted w ts
    → 10 ≤ length free + length ts
    → w.written + rounds_left w.writer ≤ 10
    → IsRound w.writer
    → (k' : Kernel) × (dequeue w.kernel mq ptr (pos message_string_max_length) ≡ some k')
      × Conserved mq (after_read w fd ptr k')
dequeue-Conserved mq w fd ptr free [] h a owed room rounds range =
    let none_left = no_message w.kernel.mail.messages h.messages h.contents in
    let k = w.kernel in
    let has_writer = not ((k.devices.resources mq).writing_pid == 0) in
    let value = empty_answer has_writer in
    let k' = set_retvalue k value in
    let stored : result_of k k' ≡ value =
      ap (λ p. p.syscall_retvalue)
        (update_same k.processes.pcbs k.current
          (record (pcb_of k k.current) { syscall_retvalue = value })) in
    (
      k',
      empty_runs k mq ptr (h.is_queue.list.size ∙ ap (λ ms. pos (length ms)) none_left),
      record {
        free = free;
        in_queue = [];
        holds = Holds-same k k' free mq [] h refl refl;
        whole = tt;
        accounted =
            unread-Accounted w [] fd ptr k' owed
              (not_counted has_writer fd (result_of k k') w.read stored);
        room = room;
        rounds = rounds;
        in_range = range;
      },
    )
dequeue-Conserved mq w fd ptr free (t ∷ ts) h a owed room rounds range =
    let (k', j, run, held, copied, value) =
      dequeue-Holds mq ptr message_string_max_length h (omega (arith, a.0)) in
    let answer = got_answer fd (result_of w.kernel k') w.read (value ∙ ap pos a.0) in
    (
      k',
      run,
      record {
        free = j ∷ free;
        in_queue = ts;
        holds = held;
        whole = a.1;
        accounted =
            read-Accounted w t ts fd ptr k' owed (ap (λ r. r.1) answer)
              (ap (segment (user_char k' ptr) 0) (sym a.0) ∙ copied);
        room = omega (arith, room);
        rounds = rounds;
        in_range = range;
      },
    )
