-- ===== src/TestMq/Exchange.antt =====
-- A writer and a reader of the test program on one queue, in any order of their calls, with other
-- steps of the kernel in between. Of the calls on the queue a step takes the part from the tests of
-- the queue on (enqueue and dequeue), as the descriptors of both processes stand for it; the results
-- of the other calls are arbitrary.
pub mod Calls
pub mod Traces
use mathlib.Core.Path.{subst}
use mathlib.Core.Option.{some-injective}
use messages_queue_disastros.Prelude.{
  ℕ, suc, ◌+◌, ◌-◌, ◌≤◌, ◌<◌, ◌≡◌, refl, ◌∙◌, ap, sym, Bool, true, false, not, some, ◌==◌, List, [],
  ◌∷◌, ◌++◌, arith, length, length-append, ℤ, pos, if◌then◌else◌, update_same, ltb_ℤ, Bool-cases,
  inl, inr,
}
use messages_queue_disastros.Constants.{
  message_string_max_length, waiting_for_message, message_queue_empty,
}
use messages_queue_disastros.LinkedList.{Addr}
use messages_queue_disastros.Message.{Message}
use messages_queue_disastros.Message.Text.{segment}
use messages_queue_disastros.Message.Queue.{texts}
use messages_queue_disastros.Kernel.{Kernel, pcb_of, set_retvalue}
use messages_queue_disastros.Kernel.Mailbox.{enqueue, dequeue, user_char}
use messages_queue_disastros.Kernel.Mailbox.Write.{msgs_of}
use messages_queue_disastros.Kernel.Mailbox.Fifo.{
  Holds, Holds-same, length-segment, enqueue-Holds, dequeue-Holds,
}
use messages_queue_disastros.TestMq.{
  Writer, Reader, write_opening, writing, write_sleeping, write_closing, write_exiting, write_ended,
  write_aborted, write_answer, write_next, read_opening, reading, read_sleeping, read_closing,
  read_exiting, read_ended, read_aborted, read_answer, read_next,
}
use messages_queue_disastros.TestMq.Rounds.{rounds_left, IsRound, next-Spends}

-- The kernel, the two processes and the counters of the program, with the texts of the writes and of
-- the reads that were counted, in order, which the program does not keep.
pub record World : Type 0 where
  pub kernel : Kernel
  pub writer : Writer
  pub reader : Reader
  pub written : ℕ
  pub read : ℕ
  pub sent : List (List ℕ)
  pub received : List (List ℕ)

abbrev pub writes : Writer → Bool
writes (writing fd i) = true
writes other = false

abbrev pub reads : Reader → Bool
reads (reading fd) = true
reads other = false

-- The result of a call, of the process that made it.
abbrev pub result_of : (k k' : Kernel) → ℤ
result_of k k' = (pcb_of k' k.current).syscall_retvalue

-- The text of a call, where the call was counted.
abbrev pub counted : (before after : ℕ) → List ℕ → List (List ℕ)
counted before after t = if before == after then [] else t ∷ []

-- The text in the memory at a pointer, of the length that the program writes and reads.
abbrev pub text_of : Kernel → ℤ → List ℕ
text_of k ptr = segment (user_char k ptr) 0 message_string_max_length

abbrev pub after_write : World → (fd : ℤ) → (i : ℕ) → (ptr : ℤ) → Kernel → World
after_write w fd i ptr k' =
    let answer = write_answer fd i (result_of w.kernel k') w.written in
    record w {
      kernel = k';
      writer = answer.0;
      written = answer.1;
      sent = w.sent ++ counted w.written answer.1 (text_of w.kernel ptr);
    }

abbrev pub after_read : World → (fd ptr : ℤ) → Kernel → World
after_read w fd ptr k' =
    let answer = read_answer fd (result_of w.kernel k') w.read in
    record w {
      kernel = k';
      reader = answer.0;
      read = answer.1;
      received = w.received ++ counted w.read answer.1 (text_of k' ptr);
    }

pub data Step (mq : Addr) : World → World → Type 0 where
  write_step :
      (w : World) (fd : ℤ) (i : ℕ) (ptr : ℤ) (k' : Kernel)
      → w.writer ≡ writing fd i
      → enqueue w.kernel mq ptr (pos message_string_max_length) ≡ some k'
      → Step mq w (after_write w fd i ptr k')
  read_step :
      (w : World) (fd : ℤ) (ptr : ℤ) (k' : Kernel)
      → w.reader ≡ reading fd
      → dequeue w.kernel mq ptr (pos message_string_max_length) ≡ some k'
      → Step mq w (after_read w fd ptr k')
  writer_call :
      (w : World) (res : ℤ)
      → writes w.writer ≡ false
      → Step mq w (record w {
        writer = (write_next w.writer res w.written).0;
        written = (write_next w.writer res w.written).1;
      })
  reader_call :
      (w : World) (res : ℤ)
      → reads w.reader ≡ false
      → Step mq w (record w {
        reader = (read_next w.reader res w.read).0;
        read = (read_next w.reader res w.read).1;
      })
  switch_step :
      (w : World) (k' : Kernel)
      → k'.mail ≡ w.kernel.mail
      → msgs_of k' mq ≡ msgs_of w.kernel mq
      → Step mq w (record w { kernel = k' })

pub data Run (mq : Addr) (s : World) : World → Type 0 where
  here : Run mq s s
  next : {t u : World} → Run mq s t → Step mq t u → Run mq s u

abbrev pub start : Kernel → World
start k = record {
  kernel = k;
  writer = write_opening;
  reader = read_opening;
  written = 0;
  read = 0;
  sent = [];
  received = [];
}

-- All texts have the length that the writer writes.
abbrev pub AllWhole : List (List ℕ) → Type 0
AllWhole [] = Unit {0}
AllWhole (t ∷ ts) = (length t ≡ message_string_max_length) × AllWhole ts

-- The texts that were written are those that were read and those in the queue, in this order, and
-- the program has counted them.
pub record Accounted (w : World) (in_queue : List (List ℕ)) : Type 0 where
  pub order : w.received ++ in_queue ≡ w.sent
  pub sent_size : length w.sent ≡ w.written
  pub received_size : length w.received ≡ w.read

-- With that, there is room for the rounds that are left.
pub record Conserved (mq : Addr) (w : World) : Type 0 where
  pub free : List ℕ
  pub in_queue : List (List ℕ)
  pub holds : Holds w.kernel free mq in_queue
  pub whole : AllWhole in_queue
  pub accounted : Accounted w in_queue
  pub room : 10 ≤ length free + length in_queue
  pub rounds : w.written + rounds_left w.writer ≤ 10
  pub in_range : IsRound w.writer
