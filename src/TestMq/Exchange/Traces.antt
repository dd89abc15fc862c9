-- ===== src/TestMq/Exchange/Traces.antt =====
-- Sequences of steps of a writer and a reader of the test program.
use mathlib.Core.Path.{subst}
use mathlib.Core.Option.{some-injective}
use messages_queue_disastros.Prelude.{
  ℕ, suc, ◌≤◌, ◌≡◌, refl, ◌∙◌, sym, false, some, List, [], arith, length, ℤ, pos, ltb_ℤ, Bool-cases,
  inl, inr,
}
use messages_queue_disastros.Constants.{message_string_max_length}
use messages_queue_disastros.LinkedList.{Addr}
use messages_queue_disastros.Kernel.{Kernel}
use messages_queue_disastros.Kernel.Mailbox.{enqueue, dequeue}
use messages_queue_disastros.Kernel.Mailbox.Fifo.{Holds, Holds-same}
use messages_queue_disastros.TestMq.{
  Writer, Reader, write_opening, writing, write_sleeping, write_closing, write_exiting, write_ended,
  write_aborted, write_answer, write_next, read_opening, reading, read_sleeping, read_closing,
  read_exiting, read_ended, read_aborted, read_next,
}
use messages_queue_disastros.TestMq.Rounds.{next-Spends}
use messages_queue_disastros.TestMq.Exchange.{
  World, Accounted, after_write, after_read, writes, reads, result_of, Step, write_step, read_step,
  writer_call, reader_call, switch_step, Run, here, next, start, Conserved,
}
use messages_queue_disastros.TestMq.Exchange.Calls.{write-Conserved, dequeue-Conserved}

read_call_same :
    (s : Reader) (res : ℤ) (count : ℕ) → reads s ≡ false → (read_next s res count).1 ≡ count
unfolding read_next
read_call_same read_opening res count e = elim (Bool-cases (ltb_ℤ res (pos 0))) [
  | inl bad ↦ rw bad refl
  | inr good ↦ rw good refl
]
read_call_same (reading fd) res count e = cc
read_call_same (read_sleeping fd) res count e = refl
read_call_same (read_closing fd) res count e = elim (Bool-cases (ltb_ℤ res (pos 0))) [
  | inl bad ↦ rw bad refl
  | inr good ↦ rw good refl
]
read_call_same read_exiting res count e = refl
read_call_same read_ended res count e = refl
read_call_same read_aborted res count e = refl

write_call_same :
    (s : Writer) (res : ℤ) (count : ℕ) → writes s ≡ false → (write_next s res count).1 ≡ count
unfolding write_next
write_call_same write_opening res count e = elim (Bool-cases (ltb_ℤ res (pos 0))) [
  | inl bad ↦ rw bad refl
  | inr good ↦ rw good refl
]
write_call_same (writing fd i) res count e = cc
write_call_same (write_sleeping fd i) res count e = refl
write_call_same (write_closing fd) res count e = elim (Bool-cases (ltb_ℤ res (pos 0))) [
  | inl bad ↦ rw bad refl
  | inr good ↦ rw good refl
]
write_call_same write_exiting res count e = refl
write_call_same write_ended res count e = refl
write_call_same write_aborted res count e = refl

Step-Conserved : {mq : Addr} {w w' : World} → Step mq w w' → Conserved mq w → Conserved mq w'
Step-Conserved {mq} (write_step w fd i ptr k' e run) c =
    let (k1, run1, _, c1) = write-Conserved mq w fd i ptr e c in
    subst (λ z. Conserved mq (after_write w fd i ptr z)) (some-injective k1 k' (sym run1 ∙ run)) c1
Step-Conserved {mq} (read_step w fd ptr k' e run) c =
    let (k1, run1, c1) =
      dequeue-Conserved mq w fd ptr c.free c.in_queue c.holds c.whole c.accounted c.room c.rounds
        c.in_range in
    subst (λ z. Conserved mq (after_read w fd ptr z)) (some-injective k1 k' (sym run1 ∙ run)) c1
Step-Conserved (writer_call w res e) c =
    let spent = next-Spends w.writer res w.written c.in_range in
    record {
      free = c.free;
      in_queue = c.in_queue;
      holds = c.holds;
      whole = c.whole;
      accounted = record {
        order = c.accounted.order;
        sent_size = c.accounted.sent_size ∙ sym (write_call_same w.writer res w.written e);
        received_size = c.accounted.received_size;
      };
      room = c.room;
      rounds = omega (arith, c.rounds, spent.bounded);
      in_range = spent.in_range;
    }
Step-Conserved (reader_call w res e) c = record {
  free = c.free;
  in_queue = c.in_queue;
  holds = c.holds;
  whole = c.whole;
  accounted = record {
    order = c.accounted.order;
    sent_size = c.accounted.sent_size;
    received_size = c.accounted.received_size ∙ sym (read_call_same w.reader res w.read e);
  };
  room = c.room;
  rounds = c.rounds;
  in_range = c.in_range;
}
Step-Conserved {mq} (switch_step w k' mail msgs) c = record {
  free = c.free;
  in_queue = c.in_queue;
  holds = Holds-same w.kernel k' c.free mq c.in_queue c.holds mail msgs;
  whole = c.whole;
  accounted = record {
    order = c.accounted.order;
    sent_size = c.accounted.sent_size;
    received_size = c.accounted.received_size;
  };
  room = c.room;
  rounds = c.rounds;
  in_range = c.in_range;
}

Run-Conserved : {mq : Addr} {s w : World} → Conserved mq s → Run mq s w → Conserved mq w
Run-Conserved c here = c
Run-Conserved c (next r step) = Step-Conserved step (Run-Conserved c r)

-- The calls of the next round of both processes do not fault.
pub record Proceeds (mq : Addr) (w : World) : Type 0 where
  pub writes_on :
      (fd : ℤ) (i : ℕ) (ptr : ℤ)
      → w.writer ≡ writing fd i
      → (k' : Kernel) × (enqueue w.kernel mq ptr (pos message_string_max_length) ≡ some k')
        × ((write_answer fd i (result_of w.kernel k') w.written).1 ≡ suc w.written)
  pub reads_on :
      (ptr : ℤ)
      → (k' : Kernel) × (dequeue w.kernel mq ptr (pos message_string_max_length) ≡ some k')

-- From an empty queue and at least ten free blocks, the links of all of which are clear, after any
-- steps of the writer, the reader and the rest of the kernel that leave the messages and the queue
-- alone: the texts written so far are those read so far and then those in the queue, in this order;
-- `written` and `read` are the numbers of these texts; at most ten were written; a write of the
-- writer succeeds and is counted, and a read does not fault.
pub exchange-Conserved :
    (mq : Addr) (k : Kernel) (free : List ℕ) (w : World)
    → Holds k free mq []
    → 10 ≤ length free
    → Run mq (start k) w
    → (ts : List (List ℕ)) × (rest : List ℕ) × Holds w.kernel rest mq ts
      × Accounted w ts
      × (w.written ≤ 10)
      × Proceeds mq w
exchange-Conserved mq k free w h room run =
    let first : Conserved mq (start k) = record {
      free = free;
      in_queue = [];
      holds = h;
      whole = tt;
      accounted = record { order = refl; sent_size = refl; received_size = refl };
      room = omega (arith, room);
      rounds = omega arith;
      in_range = tt;
    } in
    let c = Run-Conserved first run in
    (
      c.in_queue,
      c.free,
      c.holds,
      c.accounted,
      omega (arith, c.rounds),
      record {
        writes_on = λ fd i ptr e.
            let (k1, run1, counted, c1) = write-Conserved mq w fd i ptr e c in (k1, run1, counted);
        reads_on = λ ptr.
            let (k1, run1, c1) =
              dequeue-Conserved mq w (pos 0) ptr c.free c.in_queue c.holds c.whole c.accounted
                c.room c.rounds c.in_range in
            (k1, run1);
      },
    )
