-- ===== src/TestMq/Init.antt =====
-- initFunction of disastrOS_test_mq.c, as a machine like its children.
use messages_queue_disastros.Prelude.{
  ℕ, zero, suc, ◌+◌, ◌-◌, ◌*◌, ◌≤◌, ◌<◌, ◌≡◌, refl, true, false, ◌⊎◌, inl, inr, Bool-cases, Option,
  none, some, if◌then◌else◌, ltb, ◌==◌, List, [], ◌∷◌, arith, length, ℤ, pos, ltb_ℤ,
}
use messages_queue_disastros.Constants.{message_queue_type, dsos_create}
use messages_queue_disastros.Kernel.Api.{
  Call, spawn, wait, shutdown, open_resource, destroy_resource,
}

-- The addresses of the functions and of `retval`; `resources i` is the address `resources + i`.
pub record Addresses : Type 0 where
  pub sleeper_function : ℤ
  pub write_child_function : ℤ
  pub read_child_function : ℤ
  pub resources : ℕ → ℤ
  pub retval : ℤ

-- `r0` and `r1` are the elements of `resources`, `i` counts the rounds of a loop, and `alive` is
-- `alive_children`.
pub data Init : Type 0 where
  init_spawning_sleeper : Init
  init_opening_first : Init
  init_opening_second : (r0 : ℤ) → Init
  init_spawning_writer init_spawning_reader : (r0 r1 : ℤ) → (i alive : ℕ) → Init
  init_waiting : (r0 r1 : ℤ) → (alive : ℕ) → Init
  init_destroying : (r0 r1 : ℤ) → (i : ℕ) → Init
  init_shutting_down init_ended init_aborted : Init

-- `i < 2` and `alive_children>0`, the conditions of the loops.
unfoldable pub wait_round : (r0 r1 : ℤ) → (alive : ℕ) → Init
wait_round r0 r1 alive = if ltb 0 alive then init_waiting r0 r1 alive else init_destroying r0 r1 0

unfoldable pub spawn_round : (r0 r1 : ℤ) → (i alive : ℕ) → Init
unfolding wait_round
spawn_round r0 r1 i alive =
    if ltb i 2 then init_spawning_writer r0 r1 i alive else wait_round r0 r1 alive

unfoldable pub destroy_round : (r0 r1 : ℤ) → (i : ℕ) → Init
destroy_round r0 r1 i = if ltb i 2 then init_destroying r0 r1 i else init_shutting_down

unfoldable pub init_call : Addresses → Init → Option Call
init_call a init_spawning_sleeper = some (spawn a.sleeper_function (pos 0))
init_call a init_opening_first = some (open_resource (pos 0) message_queue_type dsos_create)
init_call a (init_opening_second r0) = some (open_resource (pos 1) message_queue_type dsos_create)
init_call a (init_spawning_writer r0 r1 i alive) =
    some (spawn a.write_child_function (a.resources i))
init_call a (init_spawning_reader r0 r1 i alive) =
    some (spawn a.read_child_function (a.resources i))
init_call a (init_waiting r0 r1 alive) = some (wait (pos 0) a.retval)
init_call a (init_destroying r0 r1 i) = some (destroy_resource (if i == 0 then r0 else r1))
init_call a init_shutting_down = some shutdown
init_call a init_ended = none
init_call a init_aborted = none

-- The state after the result of a call.
unfoldable pub init_next : Init → (res : ℤ) → Init
unfolding wait_round spawn_round destroy_round
init_next init_spawning_sleeper res = init_opening_first
init_next init_opening_first res =
    if ltb_ℤ res (pos 0) then init_aborted else init_opening_second res
init_next (init_opening_second r0) res =
    if ltb_ℤ res (pos 0) then init_aborted else spawn_round r0 res 0 0
init_next (init_spawning_writer r0 r1 i alive) res = init_spawning_reader r0 r1 i alive
init_next (init_spawning_reader r0 r1 i alive) res = spawn_round r0 r1 (suc i) (alive + 2)
init_next (init_waiting r0 r1 alive) res =
    if ltb_ℤ res (pos 0) then destroy_round r0 r1 0 else wait_round r0 r1 (alive - 1)
init_next (init_destroying r0 r1 i) res = destroy_round r0 r1 (suc i)
init_next init_shutting_down res = init_ended
init_next init_ended res = init_ended
init_next init_aborted res = init_aborted

unfoldable pub init_run : List ℤ → Init → Init
init_run [] s = s
init_run (res ∷ rest) s = init_run rest (init_next s res)

-- The calls that are left in a state at most.
abbrev steps_left : Init → ℕ
steps_left init_spawning_sleeper = 14
steps_left init_opening_first = 13
steps_left (init_opening_second r0) = 12
steps_left (init_spawning_writer r0 r1 i alive) = 4 * (2 - i) + alive + 3
steps_left (init_spawning_reader r0 r1 i alive) = 4 * (2 - i) + alive + 2
steps_left (init_waiting r0 r1 alive) = alive + 3
steps_left (init_destroying r0 r1 i) = 2 - i + 1
steps_left init_shutting_down = 1
steps_left init_ended = 0
steps_left init_aborted = 0

abbrev IsLoop : Init → Type 0
IsLoop (init_spawning_writer r0 r1 i alive) = i < 2
IsLoop (init_spawning_reader r0 r1 i alive) = i < 2
IsLoop (init_waiting r0 r1 alive) = 0 < alive
IsLoop (init_destroying r0 r1 i) = i < 2
IsLoop other = Unit {0}

wait_round_lem :
    (r0 r1 : ℤ) (alive : ℕ)
    → IsLoop (wait_round r0 r1 alive) × (steps_left (wait_round r0 r1 alive) ≤ alive + 3)
unfolding wait_round
wait_round_lem r0 r1 zero = (omega arith, omega arith)
wait_round_lem r0 r1 (suc alive) =
    let more : ltb 0 (suc alive) ≡ true = ground arith in rw more (omega arith, omega arith)

destroy_round_lem :
    (r0 r1 : ℤ) (i : ℕ)
    → IsLoop (destroy_round r0 r1 i) × (steps_left (destroy_round r0 r1 i) ≤ 2 - i + 1)
unfolding destroy_round
destroy_round_lem r0 r1 zero = (omega arith, omega arith)
destroy_round_lem r0 r1 (suc zero) = (omega arith, omega arith)
destroy_round_lem r0 r1 (suc (suc i)) =
    let over : ltb (suc (suc i)) 2 ≡ false = ground arith in rw over (tt, omega arith)

spawn_round_lem :
    (r0 r1 : ℤ) (i alive : ℕ)
    → IsLoop (spawn_round r0 r1 i alive)
      × (steps_left (spawn_round r0 r1 i alive) ≤ 4 * (2 - i) + alive + 3)
unfolding spawn_round
spawn_round_lem r0 r1 zero alive = (omega arith, omega arith)
spawn_round_lem r0 r1 (suc zero) alive = (omega arith, omega arith)
spawn_round_lem r0 r1 (suc (suc i)) alive =
    let over : ltb (suc (suc i)) 2 ≡ false = ground arith in
    let (l, fewer) = wait_round_lem r0 r1 alive in rw over (l, omega (arith, fewer))

-- Each call leaves fewer of them.
init_next-IsLoop :
    (s : Init) (res : ℤ)
    → IsLoop s
    → IsLoop (init_next s res) × (steps_left (init_next s res) ≤ steps_left s - 1)
unfolding init_next
init_next-IsLoop init_spawning_sleeper res l = (tt, omega arith)
init_next-IsLoop init_opening_first res l = elim (Bool-cases (ltb_ℤ res (pos 0))) [
  | inl bad ↦ rw bad (tt, omega arith)
  | inr good ↦ rw good (tt, omega arith)
]
init_next-IsLoop (init_opening_second r0) res l = elim (Bool-cases (ltb_ℤ res (pos 0))) [
  | inl bad ↦ rw bad (tt, omega arith)
  | inr good ↦ let (m, fewer) = spawn_round_lem r0 res 0 0 in rw good (m, omega (arith, fewer))
]
init_next-IsLoop (init_spawning_writer r0 r1 i alive) res l = (l, omega arith)
init_next-IsLoop (init_spawning_reader r0 r1 i alive) res l =
    let (m, fewer) = spawn_round_lem r0 r1 (suc i) (alive + 2) in (m, omega (arith, fewer, l))
init_next-IsLoop (init_waiting r0 r1 alive) res l = elim (Bool-cases (ltb_ℤ res (pos 0))) [
  | inl bad ↦ let (m, fewer) = destroy_round_lem r0 r1 0 in rw bad (m, omega (arith, fewer, l))
  | inr good ↦
      let (m, fewer) = wait_round_lem r0 r1 (alive - 1) in rw good (m, omega (arith, fewer, l))
]
init_next-IsLoop (init_destroying r0 r1 i) res l =
    let (m, fewer) = destroy_round_lem r0 r1 (suc i) in (m, omega (arith, fewer, l))
init_next-IsLoop init_shutting_down res l = (tt, omega arith)
init_next-IsLoop init_ended res l = (tt, omega arith)
init_next-IsLoop init_aborted res l = (tt, omega arith)

init_run_left :
    (results : List ℤ) (s : Init)
    → IsLoop s
    → steps_left (init_run results s) ≤ steps_left s - length results
unfolding init_run
init_run_left [] s l = omega arith
init_run_left (res ∷ rest) s l =
    let (m, fewer) = init_next-IsLoop s res l in
    let left = init_run_left rest (init_next s res) m in omega (arith, fewer, left)

no_steps : (s : Init) → steps_left s ≡ 0 → (s ≡ init_ended) ⊎ (s ≡ init_aborted)
no_steps init_spawning_sleeper e = absurd (omega (arith, e))
no_steps init_opening_first e = absurd (omega (arith, e))
no_steps (init_opening_second r0) e = absurd (omega (arith, e))
no_steps (init_spawning_writer r0 r1 i alive) e = absurd (omega (arith, e))
no_steps (init_spawning_reader r0 r1 i alive) e = absurd (omega (arith, e))
no_steps (init_waiting r0 r1 alive) e = absurd (omega (arith, e))
no_steps (init_destroying r0 r1 i) e = absurd (omega (arith, e))
no_steps init_shutting_down e = absurd (omega (arith, e))
no_steps init_ended e = inl refl
no_steps init_aborted e = inr refl

-- Whatever the results of its calls are, initFunction ends, or one of its assertions fails, within
-- fourteen calls: it waits for its four children at most once each.
pub init_run_ends :
    (results : List ℤ)
    → 14 ≤ length results
    → (init_run results init_spawning_sleeper ≡ init_ended)
      ⊎ (init_run results init_spawning_sleeper ≡ init_aborted)
init_run_ends results enough =
    let left = init_run_left results init_spawning_sleeper tt in
    no_steps (init_run results init_spawning_sleeper) (omega (arith, left, enough))
