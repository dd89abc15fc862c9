-- ===== src/Examples/Programs.antt =====
-- The writer and the reader of the test program.
use messages_queue_disastros.Prelude.{
  ℕ, ◌≤◌, ◌≡◌, ◌⊎◌, refl, ap, ◌∙◌, ◌≢◌, some, List, [], ◌∷◌, arith, ℤ, pos, length, replicate,
}
use messages_queue_disastros.LinkedList.{Items}
use messages_queue_disastros.PoolAllocator.{PoolAllocator, success, block_address}
use messages_queue_disastros.PoolAllocator
use messages_queue_disastros.PoolAllocator.Free.{IsPool}
use messages_queue_disastros.PoolAllocator.Init.{indices, init-IsPool}
use messages_queue_disastros.Message.Text.{segment}
use messages_queue_disastros.Message.Queue.{texts}
use messages_queue_disastros.Kernel.{Kernel, pcb_of}
use messages_queue_disastros.Kernel.Mailbox.{enqueue, dequeue, user_char}
use messages_queue_disastros.Kernel.Mailbox.Fifo.{
  Holds, enqueue-Holds, dequeue-Holds, length-segment,
}
use messages_queue_disastros.TestMq.{
  write_opening, write_ended, write_aborted, writing, reading, write_next, read_next, write_round,
  write_answer, read_answer,
}
use messages_queue_disastros.TestMq.Init.{
  init_spawning_sleeper, init_ended, init_aborted, init_run, init_run_ends,
}
use messages_queue_disastros.TestMq.Rounds.{write_run, full_count, write_run_ends}
use messages_queue_disastros.TestMq.Exchange.{
  World, Accounted, start, Run, here, next, writer_call, reader_call, write_step, read_step,
  after_write, after_read, text_of,
}
use messages_queue_disastros.TestMq.Exchange.Traces.{Proceeds, exchange-Conserved}
use messages_queue_disastros.Examples.Pools.{all_taken}
use messages_queue_disastros.Examples.Mail.{two_messages}
use messages_queue_disastros.Examples.Calls.{with_empty}

-- All calls succeed.
abbrev good : List ℤ
good = replicate 23 (pos 128)

write_run_ends_example :
    (((write_run good write_opening 0).0 ≡ write_ended)
      ⊎ ((write_run good write_opening 0).0 ≡ write_aborted))
    × (0 ≤ (write_run good write_opening 0).1)
    × ((write_run good write_opening 0).1 ≤ 10)
unfolding full_count
write_run_ends_example = write_run_ends good 0 (omega arith)

ten_rounds : write_run good write_opening 0 ≡ (write_ended, 10)
unfolding write_run write_next
ten_rounds = refl

-- A pool of twelve free messages at the address 2000.
abbrev twelve :
    (a : PoolAllocator) × (PoolAllocator.init all_taken 16 12 2000 (pos 240) ≡ some (success, a))
    × IsPool a (indices 0 12)
    × (a.buffer ≡ 2000)
    × (a.item_size ≡ 16)
    × (a.size_max ≡ 12)
twelve =
    init-IsPool all_taken 16 12 2000 240 (omega arith) (omega arith) (omega arith) (omega arith)
      (omega arith)

abbrev no_links : Items
no_links a = record { prev = 0; next = 0 }

abbrev roomy : Kernel
roomy = record with_empty {
  mail = record two_messages { m_allocator = twelve.0; message_items = no_links };
}

a_block : (a : PoolAllocator) (k : ℕ) → a.buffer ≡ 2000 → block_address a k ≢ 0
a_block a k e z = omega (arith, e, z)

roomy-Holds : Holds roomy (indices 0 12) 900 []
unfolding texts
roomy-Holds = record {
  messages = [];
  mail = record {
    pool = twelve.2;
    clear = λ k i. record { ne_null = a_block twelve.0 k twelve.3; no_prev = refl; no_next = refl };
    chars = λ a. refl;
  };
  is_queue = record {
    list = record { first = refl; last = refl; size = refl; chain = tt; distinct = tt };
    live = λ a i. cc;
    texts = λ a i. cc;
  };
  contents = refl;
}

-- Both have opened the queue.
abbrev opened : World
opened = record {
  kernel = roomy;
  writer = writing (pos 3) 0;
  reader = reading (pos 4);
  written = 0;
  read = 0;
  sent = [];
  received = [];
}

opening : Run 900 (start roomy) opened
unfolding write_next read_next write_round
opening =
    next (next here (writer_call (start roomy) (pos 3) refl))
      (reader_call (record (start roomy) { writer = writing (pos 3) 0 }) (pos 4) refl)

-- The writer then writes the text at 10000, and the reader reads it to 20000.
written_once :
    (k' : Kernel) × (enqueue roomy 900 (pos 10000) (pos 128) ≡ some k')
    × Holds k' (indices 1 11) 900 (text_of roomy (pos 10000) ∷ [])
    × ((pcb_of k' roomy.current).syscall_retvalue ≡ pos 128)
unfolding indices
written_once = enqueue-Holds 900 (pos 10000) 128 roomy-Holds (omega arith) (omega arith)

read_once :
    (k' : Kernel) × (j : ℕ) × (dequeue written_once.0 900 (pos 20000) (pos 128) ≡ some k')
    × Holds k' (j ∷ indices 1 11) 900 []
    × (segment (user_char k' (pos 20000)) 0 (length (text_of roomy (pos 10000)))
        ≡ text_of roomy (pos 10000))
    × ((pcb_of k' written_once.0.current).syscall_retvalue
        ≡ pos (length (text_of roomy (pos 10000))))
read_once =
    dequeue-Holds 900 (pos 20000) 128 written_once.2
      (omega (arith, length-segment (user_char roomy (pos 10000)) 0 128))

abbrev after_one : World
after_one = after_write opened (pos 3) 0 (pos 10000) written_once.0

abbrev exchanged : World
exchanged = after_read after_one (pos 4) (pos 20000) read_once.0

exchanging : Run 900 (start roomy) exchanged
exchanging =
    next (next opening (write_step opened (pos 3) 0 (pos 10000) written_once.0 refl written_once.1))
      (read_step after_one (pos 4) (pos 20000) read_once.0 refl read_once.2)

one_counted : (exchanged.written ≡ 1) × (exchanged.read ≡ 1)
unfolding write_answer read_answer
one_counted =
    let size = length-segment (user_char roomy (pos 10000)) 0 128 in
    (rw written_once.3 refl, rw (read_once.5 ∙ ap pos size) refl)

exchange-Conserved_example :
    (ts : List (List ℕ)) × (rest : List ℕ) × Holds exchanged.kernel rest 900 ts
    × Accounted exchanged ts
    × (exchanged.written ≤ 10)
    × Proceeds 900 exchanged
unfolding indices
exchange-Conserved_example =
    exchange-Conserved 900 roomy (indices 0 12) exchanged roomy-Holds (omega arith) exchanging

init_run_ends_example :
    (init_run good init_spawning_sleeper ≡ init_ended)
    ⊎ (init_run good init_spawning_sleeper ≡ init_aborted)
init_run_ends_example = init_run_ends good (omega arith)
