-- ===== src/TestMq.antt =====
-- disastrOS_test_mq.c: the processes of the test program. A process is a machine: its state says
-- which function of disastrOS.c it calls next, and the result of the call gives the next state.
-- What the processes print is left out, and so is the sleeper, which only prints.
pub mod Rounds
pub mod Exchange
pub mod Init
use messages_queue_disastros.Prelude.{
  ℕ, zero, suc, ◌+◌, ◌-◌, Option, none, some, ◌||◌, if◌then◌else◌, ltb, List, [], ◌∷◌, ℤ, pos, ◌+ℤ◌,
  ◌-ℤ◌, ltb_ℤ, eqb_ℤ,
}
use messages_queue_disastros.Constants.{
  message_queue_type, message_string_max_length, m_for_mq, dsos_create, dsos_read, dsos_write,
  message_length_not_valid, message_queue_full, message_queue_empty, resource_not_found,
  e_resource_type_wrong, waiting_for_message,
}
use messages_queue_disastros.Kernel.Api.{
  Call, spawn, wait, exit, sleep, shutdown, open_resource, close_resource, destroy_resource,
  mq_read, mq_write,
}

-- `(20-disastrOS_getpid())*3`
abbrev pub nap : (pid : ℤ) → ℤ
nap pid = (pos 20 -ℤ pid) +ℤ (pos 20 -ℤ pid) +ℤ (pos 20 -ℤ pid)

-- write_childFunction: `writing` is at the call of round `i`; a process that sleeps keeps the number
-- of the next round, after `i++`; `aborted` is an assertion that fails.
pub data Writer : Type 0 where
  write_opening : Writer
  writing : (fd : ℤ) → (i : ℕ) → Writer
  write_sleeping : (fd : ℤ) → (next : ℕ) → Writer
  write_closing : (fd : ℤ) → Writer
  write_exiting write_ended write_aborted : Writer

-- `i < 10`
unfoldable pub write_round : ℤ → ℕ → Writer
write_round fd i = if ltb i 10 then writing fd i else write_closing fd

-- The call of a state. The message is at the address `message`.
unfoldable pub write_call : (resource pid message : ℤ) → Writer → Option Call
write_call resource pid message write_opening =
    some (open_resource resource message_queue_type dsos_write)
write_call resource pid message (writing fd i) =
    some (mq_write fd message (pos message_string_max_length))
write_call resource pid message (write_sleeping fd next) = some (sleep (nap pid))
write_call resource pid message (write_closing fd) = some (close_resource fd dsos_write)
write_call resource pid message write_exiting = some (exit (pid +ℤ pos 1))
write_call resource pid message write_ended = none
write_call resource pid message write_aborted = none

-- The switch on the result of disastrOS_mq_write, with `counters[0]`. The number of the round is
-- what `i++` makes of it: a full queue repeats the round, and an error ends the loop.
unfoldable pub write_answer : ℤ → ℕ → (res : ℤ) → ℕ → Writer × ℕ
write_answer fd i res written =
    if eqb_ℤ res message_length_not_valid
    then (write_sleeping fd (suc i), written)
    else if eqb_ℤ res resource_not_found || eqb_ℤ res e_resource_type_wrong
    then (write_round fd (suc m_for_mq), written)
    else if eqb_ℤ res message_queue_full
    then (write_sleeping fd i, written)
    else (write_sleeping fd (suc i), suc written)

-- The state after the result of a call.
unfoldable pub write_next : Writer → (res : ℤ) → ℕ → Writer × ℕ
unfolding write_answer write_round
write_next write_opening res written =
    if ltb_ℤ res (pos 0) then (write_aborted, written) else (write_round res 0, written)
write_next (writing fd i) res written = write_answer fd i res written
write_next (write_sleeping fd next) res written = (write_round fd next, written)
write_next (write_closing fd) res written =
    if ltb_ℤ res (pos 0) then (write_aborted, written) else (write_exiting, written)
write_next write_exiting res written = (write_ended, written)
write_next write_ended res written = (write_ended, written)
write_next write_aborted res written = (write_aborted, written)

-- read_childFunction
pub data Reader : Type 0 where
  read_opening : Reader
  reading : (fd : ℤ) → Reader
  read_sleeping : (fd : ℤ) → Reader
  read_closing : (fd : ℤ) → Reader
  read_exiting read_ended read_aborted : Reader

unfoldable pub read_call : (resource pid message : ℤ) → Reader → Option Call
read_call resource pid message read_opening =
    some (open_resource resource message_queue_type dsos_read)
read_call resource pid message (reading fd) =
    some (mq_read fd message (pos message_string_max_length))
read_call resource pid message (read_sleeping fd) = some (sleep (nap pid))
read_call resource pid message (read_closing fd) = some (close_resource fd dsos_read)
read_call resource pid message read_exiting = some (exit (pid +ℤ pos 1))
read_call resource pid message read_ended = none
read_call resource pid message read_aborted = none

-- The switch on the result of disastrOS_mq_read, with `counters[1]`.
unfoldable pub read_answer : ℤ → (res : ℤ) → ℕ → Reader × ℕ
read_answer fd res read =
    if eqb_ℤ res waiting_for_message
    then (read_sleeping fd, read)
    else if eqb_ℤ res message_queue_empty
    then (read_closing fd, read)
    else if eqb_ℤ res message_length_not_valid
    then (read_sleeping fd, read)
    else (read_sleeping fd, suc read)

unfoldable pub read_next : Reader → (res : ℤ) → ℕ → Reader × ℕ
unfolding read_answer
read_next read_opening res read =
    if ltb_ℤ res (pos 0) then (read_aborted, read) else (reading res, read)
read_next (reading fd) res read = read_answer fd res read
read_next (read_sleeping fd) res read = (reading fd, read)
read_next (read_closing fd) res read =
    if ltb_ℤ res (pos 0) then (read_aborted, read) else (read_exiting, read)
read_next read_exiting res read = (read_ended, read)
read_next read_ended res read = (read_ended, read)
read_next read_aborted res read = (read_aborted, read)
