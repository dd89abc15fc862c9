-- ===== src/TestMq/Rounds.antt =====
-- The rounds of write_childFunction, for any results of its calls.
use messages_queue_disastros.Prelude.{
  ℕ, zero, suc, ◌+◌, ◌-◌, ◌*◌, ◌≤◌, ◌<◌, ◌≡◌, refl, ◌⊎◌, inl, inr, true, false, Bool, Bool-cases,
  ◌||◌, if◌then◌else◌, ltb, List, [], ◌∷◌, arith, length, ℤ, pos, ltb_ℤ, eqb_ℤ,
}
use messages_queue_disastros.Constants.{
  m_for_mq, message_length_not_valid, message_queue_full, resource_not_found, e_resource_type_wrong,
}
use messages_queue_disastros.TestMq.{
  Writer, write_opening, writing, write_sleeping, write_closing, write_exiting, write_ended,
  write_aborted, write_round, write_answer, write_next,
}

-- The writer goes on with the results of its calls, in order.
unfoldable pub write_run : List ℤ → Writer → ℕ → Writer × ℕ
write_run [] state written = (state, written)
write_run (res ∷ rest) state written =
    let after = write_next state res written in write_run rest after.0 after.1

-- How many results say that the queue is full.
unfoldable pub full_count : List ℤ → ℕ
full_count [] = 0
full_count (res ∷ rest) =
    let n = full_count rest in if eqb_ℤ res message_queue_full then suc n else n

-- The rounds that are left in a state, and the calls, when no result says that the queue is full.
abbrev pub rounds_left : Writer → ℕ
rounds_left write_opening = 10
rounds_left (writing fd i) = 10 - i
rounds_left (write_sleeping fd next) = 10 - next
rounds_left (write_closing fd) = 0
rounds_left write_exiting = 0
rounds_left write_ended = 0
rounds_left write_aborted = 0

abbrev calls_left : Writer → ℕ
calls_left write_opening = 23
calls_left (writing fd i) = 2 * (10 - i) + 2
calls_left (write_sleeping fd next) = 2 * (10 - next) + 3
calls_left (write_closing fd) = 2
calls_left write_exiting = 1
calls_left write_ended = 0
calls_left write_aborted = 0

abbrev pub IsRound : Writer → Type 0
IsRound write_opening = Unit {0}
IsRound (writing fd i) = i < 10
IsRound (write_sleeping fd next) = Unit {0}
IsRound (write_closing fd) = Unit {0}
IsRound write_exiting = Unit {0}
IsRound write_ended = Unit {0}
IsRound write_aborted = Unit {0}

-- A round counts one message at most, and one result is used up.
pub record Spends (s : Writer) (full : Bool) (written : ℕ) (s' : Writer) (written' : ℕ)
    : Type 0 where
  pub in_range : IsRound s'
  grows : written ≤ written'
  pub bounded : written' + rounds_left s' ≤ written + rounds_left s
  calls : calls_left s' ≤ (calls_left s - 1) + (if full then 2 else 0)
  stays : calls_left s ≡ 0 → calls_left s' ≡ 0

record Round (s : Writer) (i : ℕ) : Type 0 where
  in_range : IsRound s
  left : rounds_left s ≡ 10 - i
  calls : calls_left s ≡ 2 * (10 - i) + 2

next-Round : (fd : ℤ) (i : ℕ) → Round (write_round fd i) i
unfolding write_round
next-Round fd i = elim (Bool-cases (ltb i 10)) [
  | inl more ↦ rw more (record { in_range = ground arith; left = refl; calls = refl })
  | inr over ↦
      let le : 10 ≤ i = ground arith in
      rw over (record { in_range = tt; left = omega (arith, le); calls = omega (arith, le) })
]

-- The loop ends after an error.
past-Spends :
    (fd : ℤ) (i : ℕ) (full : Bool) (written : ℕ)
    → i < 10
    → Spends (writing fd i) full written (write_round fd (suc m_for_mq)) written
past-Spends fd i full written lt =
    let r = next-Round fd (suc m_for_mq) in
    record {
      in_range = r.in_range;
      grows = omega arith;
      bounded = rw r.left (omega arith);
      calls = rw r.calls (omega (arith, lt));
      stays = λ e. omega (arith, e);
    }

-- The outcomes of a write.
answer-Spends :
    (fd : ℤ) (i : ℕ) (res : ℤ) (written : ℕ)
    → i < 10
    → Spends
        (writing fd i)
        (eqb_ℤ res message_queue_full)
        written
        (write_answer fd i res written).0
        (write_answer fd i res written).1
unfolding write_answer
answer-Spends fd i res written lt = elim (Bool-cases (eqb_ℤ res message_length_not_valid)) [
  | inl refused ↦ rw refused (record {
    in_range = tt;
    grows = omega arith;
    bounded = omega (arith, lt);
    calls = omega (arith, lt);
    stays = λ e. omega (arith, e);
  })
  | inr valid ↦
      elim (Bool-cases (eqb_ℤ res resource_not_found || eqb_ℤ res e_resource_type_wrong)) [
        | inl missing ↦
            rw (valid, missing) (past-Spends fd i (eqb_ℤ res message_queue_full) written lt)
        | inr there ↦ elim (Bool-cases (eqb_ℤ res message_queue_full)) [
          | inl full ↦
              rw (valid, there, full)
                (record {
                  in_range = tt;
                  grows = omega arith;
                  bounded = omega arith;
                  calls = omega (arith, lt);
                  stays = λ e. omega (arith, e);
                })
          | inr room ↦
              rw (valid, there, room)
                (record {
                  in_range = tt;
                  grows = omega arith;
                  bounded = omega (arith, lt);
                  calls = omega (arith, lt);
                  stays = λ e. omega (arith, e);
                })
        ]
      ]
]

-- A call that counts nothing and is followed by a state with fewer calls.
quiet :
    {s s' : Writer} {written : ℕ} (full : Bool)
    → IsRound s'
    → rounds_left s' ≤ rounds_left s
    → calls_left s' ≤ calls_left s - 1
    → Spends s full written s' written
quiet full r rounds calls = record {
  in_range = r;
  grows = omega arith;
  bounded = omega (arith, rounds);
  calls = omega (arith, calls);
  stays = λ e. omega (arith, calls, e);
}

pub next-Spends :
    (s : Writer) (res : ℤ) (written : ℕ)
    → IsRound s
    → Spends s
        (eqb_ℤ res message_queue_full)
        written
        (write_next s res written).0
        (write_next s res written).1
unfolding write_next
next-Spends write_opening res written r = elim (Bool-cases (ltb_ℤ res (pos 0))) [
  | inl bad ↦ rw bad (quiet (eqb_ℤ res message_queue_full) tt (omega arith) (omega arith))
  | inr good ↦
      let first = next-Round res 0 in
      rw good (
        quiet (eqb_ℤ res message_queue_full) first.in_range (rw first.left (omega arith))
          (rw first.calls (omega arith)))
]
next-Spends (writing fd i) res written r = answer-Spends fd i res written r
next-Spends (write_sleeping fd next) res written r =
    let round = next-Round fd next in
    quiet (eqb_ℤ res message_queue_full) round.in_range (rw round.left (omega arith))
      (rw round.calls (omega arith))
next-Spends (write_closing fd) res written r = elim (Bool-cases (ltb_ℤ res (pos 0))) [
  | inl bad ↦ rw bad (quiet (eqb_ℤ res message_queue_full) tt (omega arith) (omega arith))
  | inr good ↦ rw good (quiet (eqb_ℤ res message_queue_full) tt (omega arith) (omega arith))
]
next-Spends write_exiting res written r =
    quiet (eqb_ℤ res message_queue_full) tt (omega arith) (omega arith)
next-Spends write_ended res written r =
    quiet (eqb_ℤ res message_queue_full) tt (omega arith) (omega arith)
next-Spends write_aborted res written r =
    quiet (eqb_ℤ res message_queue_full) tt (omega arith) (omega arith)

-- What a run of any length leaves.
record Ran (s : Writer) (results : List ℤ) (written : ℕ) (s' : Writer) (written' : ℕ) : Type 0 where
  in_range : IsRound s'
  grows : written ≤ written'
  bounded : written' + rounds_left s' ≤ written + rounds_left s
  calls : calls_left s' ≤ (calls_left s + 2 * full_count results) - length results
  stays : calls_left s ≡ 0 → calls_left s' ≡ 0

fewer :
    (c c1 c2 fulls n : ℕ) (full : Bool)
    → c1 ≤ (c - 1) + (if full then 2 else 0)
    → (c ≡ 0 → c1 ≡ 0)
    → c2 ≤ (c1 + 2 * fulls) - n
    → (c1 ≡ 0 → c2 ≡ 0)
    → c2 ≤ (c + 2 * (if full then suc fulls else fulls)) - suc n
fewer zero c1 c2 fulls n full h e h2 e2 =
    let none_left : c2 ≡ 0 = e2 (e refl) in omega (arith, none_left)
fewer (suc c) c1 c2 fulls n true h e h2 e2 = omega (arith, h, h2)
fewer (suc c) c1 c2 fulls n false h e h2 e2 = omega (arith, h, h2)

write_run-Ran :
    (results : List ℤ) (s : Writer) (written : ℕ)
    → IsRound s
    → Ran s results written (write_run results s written).0 (write_run results s written).1
unfolding write_run full_count
write_run-Ran [] s written r = record {
  in_range = r;
  grows = omega arith;
  bounded = omega arith;
  calls = omega arith;
  stays = λ e. e;
}
write_run-Ran (res ∷ rest) s written r =
    let step = next-Spends s res written r in
    let after = write_next s res written in
    let ran = write_run-Ran rest after.0 after.1 step.in_range in
    record {
      in_range = ran.in_range;
      grows = omega (arith, step.grows, ran.grows);
      bounded = omega (arith, step.bounded, ran.bounded);
      calls =
          fewer (calls_left s) (calls_left after.0) (calls_left (write_run rest after.0 after.1).0)
            (full_count rest) (length rest) (eqb_ℤ res message_queue_full) step.calls step.stays
            ran.calls ran.stays;
      stays = λ e. ran.stays (step.stays e);
    }

no_calls : (s : Writer) → calls_left s ≡ 0 → (s ≡ write_ended) ⊎ (s ≡ write_aborted)
no_calls write_opening e = absurd (omega (arith, e))
no_calls (writing fd i) e = absurd (omega (arith, e))
no_calls (write_sleeping fd next) e = absurd (omega (arith, e))
no_calls (write_closing fd) e = absurd (omega (arith, e))
no_calls write_exiting e = absurd (omega (arith, e))
no_calls write_ended e = inl refl
no_calls write_aborted e = inr refl

-- write_childFunction ends, or one of its assertions fails, within 23 calls and two more for each
-- result that says that the queue is full; it has then counted ten messages at most.
pub write_run_ends :
    (results : List ℤ) (written : ℕ)
    → 23 + 2 * full_count results ≤ length results
    → (((write_run results write_opening written).0 ≡ write_ended)
        ⊎ ((write_run results write_opening written).0 ≡ write_aborted))
      × (written ≤ (write_run results write_opening written).1)
      × ((write_run results write_opening written).1 ≤ written + 10)
write_run_ends results written enough =
    let ran = write_run-Ran results write_opening written tt in
    (
      no_calls (write_run results write_opening written).0 (omega (arith, ran.calls, enough)),
      ran.grows,
      omega (arith, ran.bounded),
    )
