-- ===== src/LinkedList/Find.antt =====
-- The searches through a list: List_find, and the loop that every other search of the program is.
use messages_queue_disastros.Prelude.{
  ℕ, zero, suc, ◌<◌, ◌≡◌, refl, ◌∙◌, ap, Bool, some, List, [], ◌∷◌, arith, ◌==◌, if◌then◌else◌,
  length, ==-eq-false, pos_part,
}
use messages_queue_disastros.LinkedList.{Addr, Items, ListHead, scan, find, rounds}
use messages_queue_disastros.LinkedList.Chain.{IsList, Chain, has, head_or}

-- The first address of a sequence that passes a test, NULL if there is none.
unfoldable pub first_match : (Addr → Bool) → List Addr → Addr
first_match test [] = 0
first_match test (x ∷ xs) = if test x then x else first_match test xs

scan-Chain :
    (test : Addr → Bool) (fuel : ℕ) (h : Items) (p : Addr) (xs : List Addr)
    → Chain h p xs 0
    → length xs < fuel
    → scan test fuel h (head_or 0 xs) ≡ some (first_match test xs)
unfolding scan first_match
scan-Chain test zero h p xs c lt = absurd (omega arith)
scan-Chain test (suc fuel) h p [] c lt = refl
scan-Chain test (suc fuel) h p (x ∷ xs) c lt =
    rw (==-eq-false x 0 c.0, c.2, scan-Chain test fuel h x xs c.3 (omega arith)) (ground arith)

-- On a well-formed list a search ends within its rounds, at the first item that passes the test.
pub scan-first_match :
    {h : Items} {head : ListHead} (test : Addr → Bool) (xs : List Addr)
    → IsList h head xs
    → scan test (rounds head) h head.first ≡ some (first_match test xs)
scan-first_match {h} {head} test xs l =
    let fuel : rounds head ≡ suc (length xs) = ap (λ n. suc (pos_part n)) l.size in
    ap (λ n. scan test n h head.first) fuel
    ∙ ap (scan test (suc (length xs)) h) l.first
    ∙ scan-Chain test (suc (length xs)) h 0 xs l.chain (omega arith)

first_match-eq :
    (item : Addr) (xs : List Addr)
    → first_match (λ aux. aux == item) xs ≡ (if has item xs then item else 0)
unfolding first_match
first_match-eq item [] = refl
first_match-eq item (x ∷ xs) = ground (arith, first_match-eq item xs)

-- List_find returns the item if it is in the list, and NULL if it is not.
pub find-has :
    {h : Items} {head : ListHead} (item : Addr) (xs : List Addr)
    → IsList h head xs
    → find h head item ≡ some (if has item xs then item else 0)
unfolding find
find-has item xs l = scan-first_match (λ aux. aux == item) xs l ∙ ap some (first_match-eq item xs)
