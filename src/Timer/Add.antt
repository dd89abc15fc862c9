-- ===== src/Timer/Add.antt =====
-- TimerList_add: the new timer stands behind those that elapse no later.
use messages_queue_disastros.Prelude.{
  ℕ, zero, suc, ◌≡◌, refl, ◌∙◌, ◌<◌, ◌≢◌, Bool-cases, true, false, inl, inr, some, List, [], ◌∷◌,
  ◌++◌, arith, ℤ, ◌==◌, ==-eq-false, ap, length, pos_part, update, sym, update_same, update_other,
}
use messages_queue_disastros.LinkedList.{Addr, Linked, rounds, insert, unlink}
use messages_queue_disastros.LinkedList.Chain.{Chain, ne_of_has, has-insert, has, head_or, last_or}
use messages_queue_disastros.LinkedList.Frame.{IsList-unlink, unlink-IsLoose}
use messages_queue_disastros.LinkedList.Insert.{insert-Inserted}
use messages_queue_disastros.PoolAllocator.{PoolAllocator, block_address, get_block}
use messages_queue_disastros.PoolAllocator.GetBlock.{get_block-nil}
use messages_queue_disastros.PoolAllocator.Live.{
  Handed, IsLive, get_block-Handed, live-insert, fresh-not-has,
}
use messages_queue_disastros.Timer.{Timers, TimerItem, timer_list_add, position}
use messages_queue_disastros.Timer.Sorted.{IsTimers, early, late, early-append-late, IsSorted-add}

position-Chain :
    (fuel : ℕ) (s : Timers) (t : ℤ) (p : Addr) (xs : List Addr)
    → Chain s.timer_items p xs 0
    → length xs < fuel
    → position fuel s t (head_or 0 xs) p ≡ some (last_or p (early s.timers t xs))
unfolding position early
position-Chain zero s t p xs c lt = absurd (omega arith)
position-Chain (suc fuel) s t p [] c lt = refl
position-Chain (suc fuel) s t p (x ∷ xs) c lt =
    rw (==-eq-false x 0 c.0, c.2, position-Chain fuel s t x xs c.3 (omega arith)) (ground arith)

position-early :
    {free : List ℕ} {xs : List Addr} (s : Timers) (t : ℤ)
    → IsTimers s free xs
    → position (rounds s.timer_list) s t s.timer_list.first 0
      ≡ some (last_or 0 (early s.timers t xs))
position-early {xs} s t i =
    ap (λ n. position (suc (pos_part n)) s t s.timer_list.first 0) i.list.size
    ∙ ap (λ a. position (suc (length xs)) s t a 0) i.list.first
    ∙ position-Chain (suc (length xs)) s t 0 xs i.list.chain (omega arith)

-- The record that TimerList_add returns.
abbrev grown : Timers → PoolAllocator → Linked → Addr → TimerItem → Timers
grown s pool r item new = record {
  timer_item_allocator = pool;
  timers = update s.timers item new;
  timer_items = r.0;
  timer_list = r.1;
}

add_runs :
    (s : Timers) (t : ℤ) (pcb prev item : Addr) (pool : PoolAllocator) (r : Linked)
    → position (rounds s.timer_list) s t s.timer_list.first 0 ≡ some prev
    → get_block s.timer_item_allocator ≡ some (item, pool)
    → item ≢ 0
    → insert (unlink s.timer_items item) s.timer_list prev item ≡ some r
    → timer_list_add s t pcb
      ≡ some (item, grown s pool r item (record { awakening_time = t; pcb = pcb }))
unfolding timer_list_add
add_runs s t pcb prev item pool r e1 e2 nz e3 =
    let z = ==-eq-false item 0 nz in rw (e1, e2, z, z, e3) refl

module _ {s : Timers} {free rest : List ℕ} {xs : List Addr} {item : Addr} {pool : PoolAllocator}
    (front back : List Addr) (i : IsTimers s free xs)
    (handed : Handed s.timer_item_allocator free pool rest item) (joint : front ++ back ≡ xs) where
  grown-live : (a : Addr) → has a (front ++ (item ∷ back)) ≡ true → IsLive pool rest a
  grown-live = live-insert front back handed λ a m. i.live a (ap (has a) (sym joint) ∙ m)

  grown-used : (a : Addr) → IsLive pool rest a → has a (front ++ (item ∷ back)) ≡ true
  grown-used a l = elim (Bool-cases (a == item)) [
    | inl same ↦ ground (arith, has-insert a item front back)
    | inr other ↦
        let old = i.used a (handed.others a l λ e. ground arith) in
        let m : has a (front ++ back) ≡ true = ap (has a) joint ∙ old in
        ground (arith, has-insert a item front back)
  ]

-- What TimerList_add leaves when it has a block for the new timer.
pub record Added (s : Timers) (t : ℤ) (pcb : Addr) (rest : List ℕ) (xs : List Addr) (item : Addr)
    (s' : Timers) : Type 0 where
  pub timers : IsTimers s' rest (early s.timers t xs ++ (item ∷ late s.timers t xs))
  pub fresh : has item xs ≡ false
  pub ne_null : item ≢ 0
  pub new : s'.timers item ≡ record { awakening_time = t; pcb = pcb }
  pub others : (a : Addr) → a ≢ item → s'.timers a ≡ s.timers a

-- TimerList_add on sorted timers, with a free block: the new timer is put behind all timers that
-- elapse at its time or before and in front of all that elapse later, so the list stays sorted and
-- timers of the same time elapse in the order in which they were added; no other timer changes.
pub timer_list_add-Added :
    {s : Timers} {xs : List Addr} (k : ℕ) (ks : List ℕ) (t : ℤ) (pcb : Addr)
    → IsTimers s (k ∷ ks) xs
    → (item : Addr) × (s' : Timers) × (timer_list_add s t pcb ≡ some (item, s'))
      × Added s t pcb ks xs item s'
timer_list_add-Added {s} {xs} k ks t pcb i =
    let (pool, got, handed) = get_block-Handed k ks i.pool in
    let item = block_address s.timer_item_allocator k in
    let out = fresh-not-has xs handed i.live in
    let new : TimerItem = record { awakening_time = t; pcb = pcb } in
    let front = early s.timers t xs in
    let back = late s.timers t xs in
    let joint : front ++ back ≡ xs = early-append-late s.timers t xs in
    let (r, inserted, done) =
      insert-Inserted {head = s.timer_list} front back (rw joint (IsList-unlink item xs out i.list))
        (unlink-IsLoose s.timer_items item handed.ne_null) (rw joint out) in
    (
      item,
      grown s pool r item new,
      add_runs s t pcb (last_or 0 front) item pool r (position-early s t i) got handed.ne_null
          inserted,
      record {
        timers = record {
          pool = handed.pool;
          list = done.is_list;
          live = grown-live front back i handed joint;
          used = grown-used front back i handed joint;
          sorted =
              IsSorted-add s.timers (update s.timers item new) t item xs
                (ap (λ r. r.awakening_time) (update_same s.timers item new))
                (λ a m. update_other s.timers item a new λ e. ne_of_has item a xs out m e) i.sorted;
        };
        fresh = out;
        ne_null = handed.ne_null;
        new = update_same s.timers item new;
        others = λ a ne. update_other s.timers item a new ne;
      },
    )

-- Without a free block it returns NULL and changes nothing.
pub timer_list_add-full :
    {s : Timers} {xs : List Addr} (t : ℤ) (pcb : Addr)
    → IsTimers s [] xs
    → timer_list_add s t pcb ≡ some (0, s)
unfolding timer_list_add
timer_list_add-full {s} t pcb i = rw (position-early s t i, get_block-nil i.pool) refl
