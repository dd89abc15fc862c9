-- ===== src/Timer/Current.antt =====
-- TimerList_current and TimerList_removeCurrent.
use messages_queue_disastros.Prelude.{
  ℕ, ◌≡◌, refl, ◌∙◌, ◌≢◌, ◌⊎◌, Bool-cases, true, false, inl, inr, some, List, [], ◌∷◌, arith, ℤ,
  pos, ltb_ℤ, ◌==◌, ==-eq-false, ap, ==_iff,
}
use messages_queue_disastros.LinkedList.{Addr, Items, ListHead, detach}
use messages_queue_disastros.LinkedList.Chain.{has, ne_of_has}
use messages_queue_disastros.LinkedList.Detach.{detach-Detached}
use messages_queue_disastros.PoolAllocator.{PoolAllocator, success, release_block}
use messages_queue_disastros.PoolAllocator.Live.{release_block-Returned}
use messages_queue_disastros.Timer.{
  Timers, TimerItem, timer_list_current, timer_list_remove_current,
}
use messages_queue_disastros.Timer.Sorted.{IsTimers, NoneBefore}

-- The timers of a sequence have all elapsed at `now`, or none of them has.
abbrev pub HasElapsed : (Addr → TimerItem) → ℤ → Addr → Type 0
HasElapsed f now a = ltb_ℤ now (f a).awakening_time ≡ false

later_of_NoneBefore :
    (f : Addr → TimerItem) (now t : ℤ) (xs : List Addr)
    → ltb_ℤ now t ≡ true
    → NoneBefore f t xs
    → (a : Addr) → has a xs ≡ true
    → ltb_ℤ now (f a).awakening_time ≡ true
later_of_NoneBefore f now t [] lt b a m = cc
later_of_NoneBefore f now t (x ∷ xs) lt b a m = elim (Bool-cases (a == x)) [
  | inl same ↦ rw ((==_iff a x).0 same) (lt_le now t (f x).awakening_time lt b.0)
  | inr other ↦ later_of_NoneBefore f now t xs lt b.1 a (ground arith)
]
  where
    lt_le : (a b c : ℤ) → ltb_ℤ a b ≡ true → ltb_ℤ c b ≡ false → ltb_ℤ a c ≡ true
    lt_le a b c p q = ground arith

-- TimerList_current answers NULL exactly when no timer has elapsed, and otherwise the timer that
-- elapses first, which has.
pub timer_list_current-HasElapsed :
    {s : Timers} {free : List ℕ} {xs : List Addr} (now : ℤ)
    → IsTimers s free xs
    → ((timer_list_current s now ≡ 0)
        × ((a : Addr) → has a xs ≡ true → ¬ HasElapsed s.timers now a))
      ⊎ ((x : Addr) × (rest : List Addr) × (xs ≡ x ∷ rest)
          × (timer_list_current s now ≡ x)
          × (x ≢ 0)
          × HasElapsed s.timers now x)
unfolding timer_list_current
timer_list_current-HasElapsed {xs = []} now i = inl (rw i.list.first refl, λ a m. cc)
timer_list_current-HasElapsed {s} {xs = x ∷ rest} now i =
    let nz = i.list.chain.0 in
    let z = ==-eq-false x 0 nz in
    elim (Bool-cases (ltb_ℤ now (s.timers x).awakening_time)) [
      | inl later ↦ inl (
        rw (i.list.first, z, later) refl,
        λ a m e. elim (Bool-cases (a == x)) [
          | inl same ↦ let same' = (==_iff a x).0 same in cc
          | inr other ↦
              let l =
                later_of_NoneBefore s.timers now (s.timers x).awakening_time rest later i.sorted.0 a
                  (ground arith) in
              cc
        ],
      )
      | inr now' ↦ inr (x, rest, refl, rw (i.list.first, z, now') refl, nz, now')
    ]

remove_runs :
    (s : Timers) (item : Addr) (pool : PoolAllocator) (items : Items) (head : ListHead)
    → detach s.timer_items s.timer_list s.timer_list.first ≡ some (items, head, item)
    → item ≢ 0
    → release_block s.timer_item_allocator item ≡ some (success, pool)
    → timer_list_remove_current s
      ≡ some
          (pos 0, record s { timer_item_allocator = pool; timer_items = items; timer_list = head })
unfolding timer_list_remove_current
remove_runs s item pool items head e1 nz e2 = let z = ==-eq-false item 0 nz in rw (e1, z, e2) refl

-- What TimerList_removeCurrent leaves.
pub record Removed (s : Timers) (free : List ℕ) (x : Addr) (rest : List Addr) (s' : Timers)
    : Type 0 where
  pub index : ℕ
  pub timers : IsTimers s' (index ∷ free) rest
  pub same : s'.timers ≡ s.timers

-- TimerList_removeCurrent takes the first timer off the list and frees its block; the other timers
-- stay as they are.
pub timer_list_remove_current-Removed :
    {s : Timers} {free : List ℕ} (x : Addr) (rest : List Addr)
    → IsTimers s free (x ∷ rest)
    → (s' : Timers) × (timer_list_remove_current s ≡ some (pos 0, s')) × Removed s free x rest s'
timer_list_remove_current-Removed {s} {free} x rest i =
    let l = i.live x (ground arith) in
    let (r, detached, done) = detach-Detached x [] rest i.list in
    let run : detach s.timer_items s.timer_list s.timer_list.first ≡ some (r.0, r.1, x) =
      ap (detach s.timer_items s.timer_list) i.list.first
      ∙ detached
      ∙ ap (λ a. some (r.0, r.1, a)) done.returned in
    let (pool, released, back) = release_block-Returned x i.pool l in
    (
      record s { timer_item_allocator = pool; timer_items = r.0; timer_list = r.1 },
      remove_runs s x pool r.0 r.1 run i.list.chain.0 released,
      record {
        index = l.index;
        timers = record {
          pool = back.pool;
          list = done.is_list;
          live =
              λ a m. back.kept a (i.live a (ground arith)) (ne_of_has x a rest i.list.distinct.0 m);
          used =
              λ a m. let old = i.used a (back.others a m) in let ne = back.gone a m in ground arith;
          sorted = i.sorted.1;
        };
        same = refl;
      },
    )
