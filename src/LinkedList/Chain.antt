-- ===== src/LinkedList/Chain.antt =====
-- What a list of linked_list.h stands for: the sequence of the addresses of its items.
use mathlib.Core.Bool.{or_assoc}
use messages_queue_disastros.Prelude.{
  ◌≡◌, refl, ◌∙◌, ◌≢◌, ◌⊎◌, inl, inr, Bool, true, false, ◌||◌, List, [], ◌∷◌, ◌++◌, arith, ◌==◌,
  if◌then◌else◌, length, pos,
}
use messages_queue_disastros.LinkedList.{Addr, Items, ListHead}

abbrev pub has : Addr → List Addr → Bool
has a [] = false
has a (x ∷ xs) = (a == x) || has a xs

abbrev pub Distinct : List Addr → Type 0
Distinct [] = Unit {0}
Distinct (x ∷ xs) = (has x xs ≡ false) × Distinct xs

-- The first and the last address of a sequence, or the given one.
abbrev pub head_or : Addr → List Addr → Addr
head_or n [] = n
head_or n (x ∷ xs) = x

abbrev pub last_or : Addr → List Addr → Addr
last_or p [] = p
last_or p (x ∷ xs) = last_or x xs

-- The items `xs` are linked in order both ways; `p` stands before them and `n` behind them.
abbrev pub Chain : Items → Addr → List Addr → Addr → Type 0
Chain h p [] n = Unit {0}
Chain h p (x ∷ xs) n = (x ≢ 0) × ((h x).prev ≡ p) × ((h x).next ≡ head_or n xs) × Chain h x xs n

-- The list of a head: its items are distinct, linked, and counted by `size`.
pub record IsList (h : Items) (head : ListHead) (xs : List Addr) : Type 0 where
  pub first : head.first ≡ head_or 0 xs
  pub last : head.last ≡ last_or 0 xs
  pub size : head.size ≡ pos (length xs)
  pub chain : Chain h 0 xs 0
  pub distinct : Distinct xs

-- An item whose links are not set.
pub record IsLoose (h : Items) (item : Addr) : Type 0 where
  pub ne_null : item ≢ 0
  pub no_prev : (h item).prev ≡ 0
  pub no_next : (h item).next ≡ 0

pub has-append : (a : Addr) (xs ys : List Addr) → has a (xs ++ ys) ≡ (has a xs || has a ys)
has-append a [] ys = refl
has-append a (x ∷ xs) ys = rw (has-append a xs ys, or_assoc)

pub has-insert :
    (a x : Addr) (xs ys : List Addr) → has a (xs ++ (x ∷ ys)) ≡ ((a == x) || has a (xs ++ ys))
has-insert a x [] ys = refl
has-insert a x (y ∷ xs) ys = ground (arith, has-insert a x xs ys)

pub has-snoc :
    (a x : Addr) (xs : List Addr)
    → has a (xs ++ (x ∷ [])) ≡ true
    → (a == x) ≡ false
    → has a xs ≡ true
has-snoc a x xs i ne = ground (arith, has-append a xs (x ∷ []))

pub has-first : (x : Addr) (xs : List Addr) → has x (x ∷ xs) ≡ true
has-first x xs = ground arith

pub has-cons : (a x : Addr) (xs : List Addr) → has a xs ≡ true → has a (x ∷ xs) ≡ true
has-cons a x xs i = ground arith

pub has-tail :
    (a x : Addr) (xs : List Addr) → has a (x ∷ xs) ≡ true → (a == x) ≡ false → has a xs ≡ true
has-tail a x xs i ne = ground arith

pub ne_of_has-cons : (a x : Addr) (xs : List Addr) → has a (x ∷ xs) ≡ false → a ≢ x
ne_of_has-cons a x xs o e = ground arith

pub head_or-append :
    (n : Addr) (xs ys : List Addr) → head_or n (xs ++ ys) ≡ head_or (head_or n ys) xs
head_or-append n [] ys = refl
head_or-append n (x ∷ xs) ys = refl

pub last_or-append :
    (p : Addr) (xs ys : List Addr) → last_or p (xs ++ ys) ≡ last_or (last_or p xs) ys
last_or-append p [] ys = refl
last_or-append p (x ∷ xs) ys = last_or-append x xs ys

-- The end of a sequence that has an element is one of its elements.
pub has-last_or : (x : Addr) (xs : List Addr) → has (last_or x xs) (x ∷ xs) ≡ true
has-last_or x [] = ground arith
has-last_or x (y ∷ ys) = ground (arith, has-last_or y ys)

pub has-last : (a : Addr) (xs : List Addr) → has a xs ≡ true → has (last_or 0 xs) xs ≡ true
has-last a [] m = cc
has-last a (x ∷ xs) m = has-last_or x xs

pub has-head : (a : Addr) (xs : List Addr) → has a xs ≡ true → has (head_or 0 xs) xs ≡ true
has-head a [] m = cc
has-head a (x ∷ xs) m = ground arith

pub last_null_or_has : (xs : List Addr) → (last_or 0 xs ≡ 0) ⊎ (has (last_or 0 xs) xs ≡ true)
last_null_or_has [] = inl refl
last_null_or_has (x ∷ xs) = inr (has-last_or x xs)

pub head_null_or_has : (xs : List Addr) → (head_or 0 xs ≡ 0) ⊎ (has (head_or 0 xs) xs ≡ true)
head_null_or_has [] = inl refl
head_null_or_has (x ∷ xs) = inr (ground arith)

pub ==_outside :
    (a b : Addr) (xs : List Addr) → has a xs ≡ true → has b xs ≡ false → (b == a) ≡ false
==_outside a b [] i o = cc
==_outside a b (x ∷ xs) i o = ground (arith, ==_outside a b xs)

pub ne_of_has : (a b : Addr) (xs : List Addr) → has a xs ≡ false → has b xs ≡ true → b ≢ a
ne_of_has a b xs o i e = ground (arith, ==_outside b a xs i o)

pub Distinct-left : (xs ys : List Addr) → Distinct (xs ++ ys) → Distinct xs
Distinct-left [] ys d = tt
Distinct-left (x ∷ xs) ys d = (ground (arith, has-append x xs ys), Distinct-left xs ys d.1)

pub Distinct-right : (xs ys : List Addr) → Distinct (xs ++ ys) → Distinct ys
Distinct-right [] ys d = d
Distinct-right (x ∷ xs) ys d = Distinct-right xs ys d.1

pub Distinct-apart :
    (xs ys : List Addr) → Distinct (xs ++ ys) → (a : Addr) → has a xs ≡ true → has a ys ≡ false
Distinct-apart [] ys d a m = cc
Distinct-apart (x ∷ xs) ys d a m = ground (arith, has-append x xs ys, Distinct-apart xs ys d.1 a)

pub Distinct-insert :
    (x : Addr) (xs ys : List Addr)
    → has x (xs ++ ys) ≡ false
    → Distinct (xs ++ ys)
    → Distinct (xs ++ (x ∷ ys))
Distinct-insert x [] ys out d = (out, d)
Distinct-insert x (y ∷ xs) ys out d = (
  ground (arith, has-append y xs ys, has-append y xs (x ∷ ys)),
  Distinct-insert x xs ys (ground arith) d.1,
)

pub Distinct-remove :
    (x : Addr) (xs ys : List Addr)
    → Distinct (xs ++ (x ∷ ys))
    → (has x (xs ++ ys) ≡ false) × Distinct (xs ++ ys)
Distinct-remove x [] ys d = d
Distinct-remove x (y ∷ xs) ys d =
    let (out, rest) = Distinct-remove x xs ys d.1 in
    (
      ground (arith, has-append y xs (x ∷ ys)),
      (ground (arith, has-append y xs ys, has-append y xs (x ∷ ys)), rest),
    )

module _ (h : Items) where
  -- A chain over two parts is a chain over each, linked across the joint.
  pub Chain-append :
      (p n : Addr) (xs ys : List Addr)
      → Chain h p xs (head_or n ys)
      → Chain h (last_or p xs) ys n
      → Chain h p (xs ++ ys) n
  Chain-append p n [] ys c d = d
  Chain-append p n (x ∷ xs) ys c d =
      (c.0, c.1, rw (head_or-append n xs ys) c.2, Chain-append x n xs ys c.3 d)

  pub Chain-left :
      (p n : Addr) (xs ys : List Addr) → Chain h p (xs ++ ys) n → Chain h p xs (head_or n ys)
  Chain-left p n [] ys c = tt
  Chain-left p n (x ∷ xs) ys c =
      (c.0, c.1, rw (← head_or-append n xs ys) c.2, Chain-left x n xs ys c.3)

  pub Chain-right :
      (p n : Addr) (xs ys : List Addr) → Chain h p (xs ++ ys) n → Chain h (last_or p xs) ys n
  Chain-right p n [] ys c = c
  Chain-right p n (x ∷ xs) ys c = Chain-right x n xs ys c.3

  -- A chain survives any write outside its items.
  pub Chain-frame :
      (g : Items) (p n : Addr) (xs : List Addr)
      → ((a : Addr) → has a xs ≡ true → g a ≡ h a)
      → Chain h p xs n
      → Chain g p xs n
  Chain-frame g p n [] same c = tt
  Chain-frame g p n (x ∷ xs) same c =
      let e : g x ≡ h x = same x (ground arith) in
      (c.0, rw e c.1, rw e c.2, Chain-frame g x n xs (λ a m. same a (ground arith)) c.3)

  pub Chain-ne_null : (p n : Addr) (xs : List Addr) → Chain h p xs n → has 0 xs ≡ false
  Chain-ne_null p n [] c = refl
  Chain-ne_null p n (x ∷ xs) c = ground (arith, Chain-ne_null x n xs c.3)

  -- Other links at the two ends: the `next` of the last item, the `prev` of the first.
  pub Chain-retarget_last :
      (g : Items) (p n m : Addr) (xs : List Addr)
      → ((a : Addr) → has a xs ≡ true → (g a).prev ≡ (h a).prev)
      → ((a : Addr) → has a xs ≡ true → (g a).next ≡ (if a == last_or 0 xs then m else (h a).next))
      → Distinct xs
      → Chain h p xs n
      → Chain g p xs m
  Chain-retarget_last g p n m [] back front d c = tt
  Chain-retarget_last g p n m (x ∷ []) back front d c = ground (arith, back x, front x)
  Chain-retarget_last g p n m (x ∷ y ∷ ys) back front d c = (
    c.0,
    back x here ∙ c.1,
    front x here ∙ rw (==_outside (last_or y ys) x (y ∷ ys) (has-last_or y ys) d.0) c.2,
    Chain-retarget_last g x n m (y ∷ ys) (λ a i. back a (ground arith))
        (λ a i. front a (ground arith)) d.1 c.3,
  )
    where
      here : has x (x ∷ y ∷ ys) ≡ true
      here = ground arith

  pub Chain-retarget_first :
      (g : Items) (p q n : Addr) (xs : List Addr)
      → ((a : Addr) → has a xs ≡ true → (g a).next ≡ (h a).next)
      → ((a : Addr) → has a xs ≡ true → (g a).prev ≡ (if a == head_or 0 xs then q else (h a).prev))
      → Distinct xs
      → Chain h p xs n
      → Chain g q xs n
  Chain-retarget_first g p q n [] front back d c = tt
  Chain-retarget_first g p q n (x ∷ xs) front back d c = (
    c.0,
    ground (arith, back x),
    ground (arith, front x),
    Chain-frame g x n xs (λ a i. ground (arith, front a, back a)) c.3,
  )

  pub Chain-last_next :
      (p n x : Addr) (xs : List Addr) → Chain h p (x ∷ xs) n → (h (last_or x xs)).next ≡ n
  Chain-last_next p n x [] c = c.2
  Chain-last_next p n x (y ∷ ys) c = Chain-last_next x n y ys c.3
