-- ===== src/Printing/Loops.antt =====
-- The loops of the print functions over well-formed lists.
use messages_queue_disastros.Prelude.{
  ℕ, zero, suc, ◌<◌, ◌≡◌, refl, ◌∙◌, ap, true, false, some, Option, ◌==◌, ==-eq-false,
  if◌then◌else◌, List, [], ◌∷◌, ◌++◌, arith, length, pos_part,
}
use messages_queue_disastros.LinkedList.{Addr, Items, ListHead, rounds}
use messages_queue_disastros.LinkedList.Chain.{Chain, IsList, has, head_or, has-cons, has-first}
use messages_queue_disastros.Printing.{print_items}

-- The texts of a sequence, the ending behind each one, the separator in front of the ending of all
-- but the last.
abbrev pub joined : (Addr → List ℕ) → (separator ending : List ℕ) → List Addr → List ℕ
joined text separator ending [] = []
joined text separator ending (x ∷ []) = text x ++ ending
joined text separator ending (x ∷ y ∷ ys) =
    text x ++ (separator ++ (ending ++ joined text separator ending (y ∷ ys)))

append-nil : (xs : List ℕ) → xs ++ [] ≡ xs
append-nil [] = refl
append-nil (x ∷ xs) = ap (◌∷◌ x) (append-nil xs)

module _ (item : Addr → Option (List ℕ)) (text : Addr → List ℕ) (separator ending : List ℕ) where
  print_round :
      (fuel : ℕ) (h : Items) (x next : Addr) (more : List ℕ)
      → (x == 0) ≡ false
      → item x ≡ some (text x)
      → (h x).next ≡ next
      → print_items item separator ending fuel h next ≡ some more
      → print_items item separator ending (suc fuel) h x
        ≡ some (text x ++ ((if next == 0 then [] else separator) ++ (ending ++ more)))
  unfolding print_items
  print_round fuel h x next more nz e1 e2 e3 = rw (print_items, nz, e1, e2, e3) refl

  print_items-Chain :
      (xs : List Addr) (fuel : ℕ) (h : Items) (p : Addr)
      → Chain h p xs 0
      → length xs < fuel
      → ((a : Addr) → has a xs ≡ true → item a ≡ some (text a))
      → print_items item separator ending fuel h (head_or 0 xs)
        ≡ some (joined text separator ending xs)
  unfolding print_items
  print_items-Chain xs zero h p c lt all = absurd (omega arith)
  print_items-Chain [] (suc fuel) h p c lt all = refl
  print_items-Chain (x ∷ []) (suc fuel) h p c lt all =
      print_round fuel h x 0 [] (==-eq-false x 0 c.0) (all x (has-first x [])) c.2
        (print_items-Chain [] fuel h x tt (omega (arith, lt)) (λ a i. cc))
      ∙ rw (append-nil ending) refl
  print_items-Chain (x ∷ y ∷ ys) (suc fuel) h p c lt all =
      let rest =
        print_items-Chain (y ∷ ys) fuel h x c.3 (omega (arith, lt))
          (λ a i. all a (has-cons a x (y ∷ ys) i)) in
      print_round fuel h x y (joined text separator ending (y ∷ ys)) (==-eq-false x 0 c.0)
        (all x (has-first x (y ∷ ys))) c.2 rest
      ∙ rw (==-eq-false y 0 c.3.0) refl

  -- The loop over a well-formed list ends within its rounds and prints every item once, in order.
  pub print_items-joined :
      {h : Items} {head : ListHead} (xs : List Addr)
      → IsList h head xs
      → ((a : Addr) → has a xs ≡ true → item a ≡ some (text a))
      → print_items item separator ending (rounds head) h head.first
        ≡ some (joined text separator ending xs)
  print_items-joined {h} {head} xs l all =
      let fuel : rounds head ≡ suc (length xs) = ap (λ n. suc (pos_part n)) l.size in
      ap (λ n. print_items item separator ending n h head.first) fuel
      ∙ ap (print_items item separator ending (suc (length xs)) h) l.first
      ∙ print_items-Chain xs (suc (length xs)) h 0 l.chain (omega arith) all
