-- ===== src/Kernel/Scheduling/Sleepers.antt =====
-- What the scheduler sees of the sleeping processes: their timers, and where they wait.
use messages_queue_disastros.Prelude.{
  ℕ, ◌≡◌, refl, ap, true, false, List, [], ◌∷◌, ◌++◌, arith, ◌==◌, ==_iff, if◌then◌else◌,
  Bool-cases, inl, inr,
}
use messages_queue_disastros.LinkedList.{Addr}
use messages_queue_disastros.LinkedList.Chain.{IsList, has, Distinct, has-insert}
use messages_queue_disastros.Timer.{TimerItem}
use messages_queue_disastros.Timer.Sorted.{IsTimers}
use messages_queue_disastros.Kernel.{Kernel}
use messages_queue_disastros.Kernel.Scheduling.Wake.{Disjoint}

-- A sequence without the first occurrence of an address, and without those of several.
abbrev pub remove : Addr → List Addr → List Addr
remove p [] = []
remove p (x ∷ xs) = if x == p then xs else x ∷ remove p xs

abbrev pub without : List Addr → List Addr → List Addr
without [] ws = ws
without (p ∷ ps) ws = without ps (remove p ws)

-- The processes that timers wake.
abbrev pub sleepers : (Addr → TimerItem) → List Addr → List Addr
sleepers f [] = []
sleepers f (t ∷ ts) = (f t).pcb ∷ sleepers f ts

-- The processes of the timers `ts` wait, each with one timer, among the waiting ones `ws`; `rs` are
-- ready.
pub record IsAsleep (k : Kernel) (free : List ℕ) (ts ws rs : List Addr) : Type 0 where
  pub timers : IsTimers k.timing free ts
  pub waiting : IsList k.processes.pcb_items k.waiting_list ws
  pub ready : IsList k.processes.pcb_items k.ready_list rs
  pub apart : Disjoint rs ws
  pub waits : (p : Addr) → has p (sleepers k.timing.timers ts) ≡ true → has p ws ≡ true
  pub distinct : Distinct (sleepers k.timing.timers ts)

-- Where an address stands in a sequence.
pub record Place (p : Addr) (ws : List Addr) : Type 0 where
  pub before : List Addr
  pub after : List Addr
  pub whole : ws ≡ before ++ (p ∷ after)
  pub removed : remove p ws ≡ before ++ after

pub place : (p : Addr) (ws : List Addr) → has p ws ≡ true → Place p ws
place p [] i = cc
place p (x ∷ ws) i = elim (Bool-cases (x == p)) [
  | inl same ↦
      let e : x ≡ p = (==_iff x p).0 same in
      record { before = []; after = ws; whole = ap (λ y. y ∷ ws) e; removed = rw same refl }
  | inr other ↦
      let inside : has p ws ≡ true = ground arith in
      let q = place p ws inside in
      record {
        before = x ∷ q.before;
        after = q.after;
        whole = ap (◌∷◌ x) q.whole;
        removed = rw other (ap (◌∷◌ x) q.removed);
      }
]

pub has_of_remove : (a p : Addr) (ws : List Addr) → has a (remove p ws) ≡ true → has a ws ≡ true
has_of_remove a p [] i = i
has_of_remove a p (x ∷ ws) i = ground (arith, has_of_remove a p ws)

pub has-remove :
    (a p : Addr) (ws : List Addr) → (a == p) ≡ false → has a ws ≡ true → has a (remove p ws) ≡ true
has-remove a p [] ne i = i
has-remove a p (x ∷ ws) ne i = ground (arith, has-remove a p ws ne)

pub remove_self : (p : Addr) (ws : List Addr) → Distinct ws → has p (remove p ws) ≡ false
remove_self p [] d = refl
remove_self p (x ∷ ws) d = ground (arith, remove_self p ws d.1)

pub remove_outside : (a p : Addr) (ws : List Addr) → has a ws ≡ false → has a (remove p ws) ≡ false
remove_outside a p [] o = o
remove_outside a p (x ∷ ws) o = ground (arith, remove_outside a p ws)

-- When one of them is awake, the two lists still share nothing.
pub Disjoint-remove :
    (p : Addr) (ws front back : List Addr)
    → Disjoint (front ++ back) ws
    → Distinct ws
    → Disjoint (front ++ (p ∷ back)) (remove p ws)
Disjoint-remove p ws front back apart d a i = elim (Bool-cases (a == p)) [
  | inl same ↦ rw ((==_iff a p).0 same) (remove_self p ws d)
  | inr other ↦
      let inside : has a (front ++ back) ≡ true = ground (arith, has-insert a p front back, i) in
      remove_outside a p ws (apart a inside)
]

pub waits-remove :
    (p : Addr) (qs ws : List Addr)
    → has p qs ≡ false
    → ((q : Addr) → has q qs ≡ true → has q ws ≡ true)
    → (q : Addr) → has q qs ≡ true
    → has q (remove p ws) ≡ true
waits-remove p qs ws out waits q i = elim (Bool-cases (q == p)) [
  | inl same ↦ let e : q ≡ p = (==_iff q p).0 same in let o : has q qs ≡ false = rw e out in cc
  | inr other ↦ has-remove q p ws other (waits q i)
]
