-- ===== src/Timer/Sorted.antt =====
-- What the timers stand for: the sequence of the timers that run, the next one to elapse first.
use messages_queue_disastros.Prelude.{
  ◌≡◌, refl, Bool-cases, true, false, List, [], ◌∷◌, ◌++◌, arith, ℤ, ltb_ℤ, if◌then◌else◌, inl, inr,
  ℕ,
}
use messages_queue_disastros.LinkedList.{Addr}
use messages_queue_disastros.LinkedList.Chain.{IsList, has}
use messages_queue_disastros.PoolAllocator.Free.{IsPool}
use messages_queue_disastros.PoolAllocator.Live.{IsLive}
use messages_queue_disastros.Timer.{Timers, TimerItem}

-- No timer of `xs` elapses before `t`.
abbrev pub NoneBefore : (Addr → TimerItem) → ℤ → List Addr → Type 0
NoneBefore f t [] = Unit {0}
NoneBefore f t (x ∷ xs) = (ltb_ℤ (f x).awakening_time t ≡ false) × NoneBefore f t xs

abbrev pub IsSorted : (Addr → TimerItem) → List Addr → Type 0
IsSorted f [] = Unit {0}
IsSorted f (x ∷ xs) = NoneBefore f (f x).awakening_time xs × IsSorted f xs

-- The timers `xs` run, in the order in which they elapse, and the blocks of no others are taken.
pub record IsTimers (s : Timers) (free : List ℕ) (xs : List Addr) : Type 0 where
  pub pool : IsPool s.timer_item_allocator free
  pub list : IsList s.timer_items s.timer_list xs
  pub live : (a : Addr) → has a xs ≡ true → IsLive s.timer_item_allocator free a
  pub used : (a : Addr) → IsLive s.timer_item_allocator free a → has a xs ≡ true
  pub sorted : IsSorted s.timers xs

-- The timers of a sorted sequence that elapse at `t` or before, and those that elapse later.
unfoldable pub early : (Addr → TimerItem) → ℤ → List Addr → List Addr
early f t [] = []
early f t (x ∷ xs) = if ltb_ℤ t (f x).awakening_time then [] else x ∷ early f t xs

unfoldable pub late : (Addr → TimerItem) → ℤ → List Addr → List Addr
late f t [] = []
late f t (x ∷ xs) = if ltb_ℤ t (f x).awakening_time then x ∷ xs else late f t xs

pub early-append-late :
    (f : Addr → TimerItem) (t : ℤ) (xs : List Addr) → early f t xs ++ late f t xs ≡ xs
unfolding early late
early-append-late f t [] = refl
early-append-late f t (x ∷ xs) = elim (Bool-cases (ltb_ℤ t (f x).awakening_time)) [
  | inl later ↦ rw later refl
  | inr now ↦ rw (now, early-append-late f t xs) refl
]

pub lt_ℤ_trans : (a b c : ℤ) → ltb_ℤ b a ≡ false → ltb_ℤ c b ≡ false → ltb_ℤ c a ≡ false
lt_ℤ_trans a b c p q = ground arith

pub lt_ℤ_asymm : (a b : ℤ) → ltb_ℤ a b ≡ true → ltb_ℤ b a ≡ false
lt_ℤ_asymm a b p = ground arith

pub NoneBefore-trans :
    (f : Addr → TimerItem) (s t : ℤ) (xs : List Addr)
    → ltb_ℤ t s ≡ false
    → NoneBefore f t xs
    → NoneBefore f s xs
NoneBefore-trans f s t [] le b = tt
NoneBefore-trans f s t (x ∷ xs) le b =
    (lt_ℤ_trans s t (f x).awakening_time le b.0, NoneBefore-trans f s t xs le b.1)

-- These depend on the timers of the sequence alone.
module _ (f g : Addr → TimerItem) where
  pub NoneBefore-same :
      (t : ℤ) (xs : List Addr)
      → ((a : Addr) → has a xs ≡ true → g a ≡ f a)
      → NoneBefore f t xs
      → NoneBefore g t xs
  NoneBefore-same t [] same b = tt
  NoneBefore-same t (x ∷ xs) same b =
      (rw (same x (ground arith)) b.0, NoneBefore-same t xs (λ a i. same a (ground arith)) b.1)

  pub IsSorted-same :
      (xs : List Addr) → ((a : Addr) → has a xs ≡ true → g a ≡ f a) → IsSorted f xs → IsSorted g xs
  IsSorted-same [] same b = tt
  IsSorted-same (x ∷ xs) same b = (
    rw (same x (ground arith))
        (NoneBefore-same (f x).awakening_time xs (λ a i. same a (ground arith)) b.0),
    IsSorted-same xs (λ a i. same a (ground arith)) b.1,
  )

-- A timer put between the early and the late ones of a sorted sequence keeps it sorted.
pub NoneBefore-insert :
    (f : Addr → TimerItem) (s t : ℤ) (item : Addr) (xs : List Addr)
    → ltb_ℤ (f item).awakening_time s ≡ false
    → NoneBefore f s xs
    → NoneBefore f s (early f t xs ++ (item ∷ late f t xs))
unfolding early late
NoneBefore-insert f s t item [] le b = (le, tt)
NoneBefore-insert f s t item (x ∷ xs) le b = elim (Bool-cases (ltb_ℤ t (f x).awakening_time)) [
  | inl later ↦ rw later (le, b)
  | inr now ↦ rw now (b.0, NoneBefore-insert f s t item xs le b.1)
]

pub IsSorted-insert :
    (f : Addr → TimerItem) (item : Addr) (xs : List Addr)
    → IsSorted f xs
    → IsSorted f (early f (f item).awakening_time xs ++ (item ∷ late f (f item).awakening_time xs))
unfolding early late
IsSorted-insert f item [] b = (tt, tt)
IsSorted-insert f item (x ∷ xs) b =
    let t = (f item).awakening_time in
    elim (Bool-cases (ltb_ℤ t (f x).awakening_time)) [
      | inl later ↦
          let le = lt_ℤ_asymm t (f x).awakening_time later in
          rw later ((le, NoneBefore-trans f t (f x).awakening_time xs le b.0), b)
      | inr now ↦ rw now (
        NoneBefore-insert f (f x).awakening_time t item xs now b.0,
        IsSorted-insert f item xs b.1,
      )
    ]

pub early-same :
    (f g : Addr → TimerItem) (t : ℤ) (xs : List Addr)
    → ((a : Addr) → has a xs ≡ true → g a ≡ f a)
    → (early g t xs ≡ early f t xs) × (late g t xs ≡ late f t xs)
unfolding early late
early-same f g t [] same = (refl, refl)
early-same f g t (x ∷ xs) same =
    let (e, l) = early-same f g t xs (λ a i. same a (ground arith)) in
    rw (same x (ground arith), e, l) (refl, refl)

-- The same when the new timer is written and the others stay as they were.
pub IsSorted-add :
    (f g : Addr → TimerItem) (t : ℤ) (item : Addr) (xs : List Addr)
    → (g item).awakening_time ≡ t
    → ((a : Addr) → has a xs ≡ true → g a ≡ f a)
    → IsSorted f xs
    → IsSorted g (early f t xs ++ (item ∷ late f t xs))
IsSorted-add f g t item xs new same b =
    let (e, l) = early-same f g t xs same in
    rw (← e, ← l, ← new) (IsSorted-insert g item xs (IsSorted-same f g xs same b))
