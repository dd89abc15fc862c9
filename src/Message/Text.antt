-- ===== src/Message/Text.antt =====
-- The loop of m_alloc that copies the characters of a message.
use messages_queue_disastros.Prelude.{
  ℕ, zero, suc, ◌+◌, ◌≤◌, ◌<◌, ◌≡◌, refl, ◌∙◌, ap, List, [], ◌∷◌, ◌++◌, arith, length, length-set,
  set, take, pos_part,
}
use mathlib.Core.List.{append-nil, append_assoc}
use messages_queue_disastros.Message.{Message, copy_chars}

-- The characters source[from], …, source[from + n - 1].
unfoldable pub segment : (ℕ → ℕ) → ℕ → ℕ → List ℕ
segment source from zero = []
segment source from (suc n) = source from ∷ segment source (suc from) n

-- What a message says: the first `length` characters of its array.
abbrev pub text : Message → List ℕ
text m = take (pos_part m.length) m.msg

take-set :
    (xs : List ℕ) (i v : ℕ) → i < length xs → take (suc i) (set xs i v) ≡ take i xs ++ (v ∷ [])
take-set [] i v lt = elim lt [ ]
take-set (x ∷ xs) zero v lt = refl
take-set (x ∷ xs) (suc i) v lt = ap (◌∷◌ x) (take-set xs i v (omega arith))

take-copy_chars :
    (n from : ℕ) (source : ℕ → ℕ) (target : List ℕ)
    → from + n ≤ length target
    → take (from + n) (copy_chars n from source target) ≡ take from target ++ segment source from n
unfolding copy_chars segment
take-copy_chars zero from source target fits = rw append-nil (ap (λ k. take k target) (omega arith))
take-copy_chars (suc n) from source target fits =
    let size = length-set target from (source from) in
    ap (λ k. take k (copy_chars n (suc from) source (set target from (source from)))) (omega arith)
    ∙ take-copy_chars n (suc from) source (set target from (source from)) (omega arith)
    ∙ ap (λ l. l ++ segment source (suc from) n) (take-set target from (source from) (omega arith))
    ∙ append_assoc (take from target) (source from ∷ []) (segment source (suc from) n)

pub length-copy_chars :
    (n from : ℕ) (source : ℕ → ℕ) (target : List ℕ)
    → length (copy_chars n from source target) ≡ length target
unfolding copy_chars
length-copy_chars zero from source target = refl
length-copy_chars (suc n) from source target =
    length-copy_chars n (suc from) source (set target from (source from))
    ∙ length-set target from (source from)

-- The copy of `n` characters into an array of that size at least begins with these characters.
pub copy_chars-segment :
    (n : ℕ) (source : ℕ → ℕ) (target : List ℕ)
    → n ≤ length target
    → take n (copy_chars n 0 source target) ≡ segment source 0 n
copy_chars-segment n source target fits =
    ap (λ k. take k (copy_chars n 0 source target)) (omega arith)
    ∙ take-copy_chars n 0 source target (omega arith)
