-- ===== src/Kernel/Mailbox/CopyOut.antt =====
-- The loop of internal_message_queue_read that copies a message into the memory of the process.
use messages_queue_disastros.Prelude.{
  ℕ, zero, suc, ◌+◌, ◌≤◌, ◌<◌, ◌≡◌, refl, ◌∙◌, ◌≢◌, ap, sym, some, List, [], ◌∷◌, arith, length,
  get_elem?, get_elem?_lt, take, ℤ, pos, ◌+ℤ◌, eqb_ℤ, eqb_ℤ_refl, eqb_ℤ-eq-false, +ℤ-injective,
  if◌then◌else◌,
}
use native.Mathlib.Decide.{dec_lt}
use mathlib.Core.Option.{some-injective}
use messages_queue_disastros.Message.Text.{segment}
use messages_queue_disastros.Kernel.Mailbox.{copy_out}

-- `n` characters of `msg` from index `from` on are at `ptr`, and the rest of the memory is as before.
pub record Copied (n from : ℕ) (msg : List ℕ) (ptr : ℤ) (chars chars' : ℤ → ℕ) : Type 0 where
  pub inside :
      (i c : ℕ) → from ≤ i → i < from + n → get_elem? msg i ≡ some c → chars' (ptr +ℤ pos i) ≡ c
  pub outside :
      (p : ℤ) → ((i : ℕ) → from ≤ i → i < from + n → p ≢ ptr +ℤ pos i) → chars' p ≡ chars p

abbrev write_char : ℤ → ℕ → (ℤ → ℕ) → ℤ → ℕ
write_char q c chars p = if eqb_ℤ p q then c else chars p

Copied-step :
    (n from : ℕ) (msg : List ℕ) (ptr : ℤ) (c : ℕ) (chars chars' : ℤ → ℕ)
    → get_elem? msg from ≡ some c
    → Copied n (suc from) msg ptr (write_char (ptr +ℤ pos from) c chars) chars'
    → Copied (suc n) from msg ptr chars chars'
Copied-step n from msg ptr c chars chars' e d = record {
  inside = λ i c' le lt e'. elim (dec_lt from i) [
    | yes more ↦ d.inside i c' more (omega arith) e'
    | no stop ↦
        let same : i ≡ from = omega arith in
        let value : c ≡ c' = first_value i same c' e' in
        ap (λ j. chars' (ptr +ℤ pos j)) same ∙ here ∙ value
  ];
  outside = λ p away.
      d.outside p (λ i le lt. away i (omega arith) (omega arith))
      ∙ rw (eqb_ℤ-eq-false p (ptr +ℤ pos from) (away from (omega arith) (omega arith))) refl;
}
  where
    here : chars' (ptr +ℤ pos from) ≡ c
    here =
        d.outside (ptr +ℤ pos from) (λ i le lt same. omega (arith, +ℤ-injective ptr from i same))
        ∙ rw (eqb_ℤ_refl (ptr +ℤ pos from)) refl

    first_value : (i : ℕ) → i ≡ from → (c' : ℕ) → get_elem? msg i ≡ some c' → c ≡ c'
    first_value i same c' e' =
        let joined : some c ≡ some c' = sym e ∙ ap (get_elem? msg) (sym same) ∙ e' in
        some-injective c c' joined

-- The loop ends without reading beyond the message.
pub copy_out-Copied :
    (n from : ℕ) (msg : List ℕ) (ptr : ℤ) (chars : ℤ → ℕ)
    → from + n ≤ length msg
    → (chars' : ℤ → ℕ) × (copy_out n from msg ptr chars ≡ some chars')
      × Copied n from msg ptr chars chars'
unfolding copy_out
copy_out-Copied zero from msg ptr chars fits =
    (chars, refl, record { inside = λ i c le lt e. absurd (omega arith); outside = λ p away. refl })
copy_out-Copied (suc n) from msg ptr chars fits =
    let (c, e) = get_elem?_lt msg from (omega arith) in
    let (chars', run, d) =
      copy_out-Copied n (suc from) msg ptr (write_char (ptr +ℤ pos from) c chars) (omega arith) in
    (chars', rw e run, Copied-step n from msg ptr c chars chars' e d)

segment-take :
    (f : ℕ → ℕ) (from n : ℕ) (xs : List ℕ)
    → n ≤ length xs
    → ((i c : ℕ) → i < n → get_elem? xs i ≡ some c → f (from + i) ≡ c)
    → segment f from n ≡ take n xs
unfolding segment
segment-take f from zero xs fits same = refl
segment-take f from (suc n) [] fits same = absurd (omega arith)
segment-take f from (suc n) (x ∷ xs) fits same =
    let first : f from ≡ x = ap f (omega arith) ∙ same 0 x (omega arith) refl in
    rw
      (
        first,
        segment-take f (suc from) n xs (omega arith)
            (λ i c lt e. ap f (omega arith) ∙ same (suc i) c (omega arith) e),
      )
      refl

-- So the memory at `ptr` reads as the first `n` characters of the message.
pub Copied-segment :
    (n : ℕ) (msg : List ℕ) (ptr : ℤ) {chars chars' : ℤ → ℕ}
    → n ≤ length msg
    → Copied n 0 msg ptr chars chars'
    → segment (λ i. chars' (ptr +ℤ pos i)) 0 n ≡ take n msg
Copied-segment n msg ptr {chars'} fits d =
    segment-take (λ i. chars' (ptr +ℤ pos i)) 0 n msg fits
      (λ i c lt e.
        ap (λ j. chars' (ptr +ℤ pos j)) (omega arith) ∙ d.inside i c (omega arith) (omega arith) e)
