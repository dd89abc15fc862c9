-- ===== src/Kernel/Files/Opened.antt =====
-- The descriptor that internal_openResource makes.
use mathlib.Core.Path.{subst}
use messages_queue_disastros.Prelude.{
  ℕ, ◌≡◌, refl, ◌∙◌, ◌≢◌, ap, sym, true, some, List, [], ◌∷◌, ◌++◌, arith, ℤ, pos, negsuc, ◌+ℤ◌,
  ltb_ℤ, ◌==◌, ==-eq-false, ==_iff, ==_refl, Bool-cases, inl, inr, update, update_same,
  update_other,
}
use messages_queue_disastros.LinkedList.{Addr, Items, ListHead, insert}
use messages_queue_disastros.LinkedList.Chain.{IsList, has, has-snoc}
use messages_queue_disastros.PoolAllocator.Free.{IsPool}
use messages_queue_disastros.PoolAllocator.Live.{IsLive}
use messages_queue_disastros.Descriptor.{
  Descriptor, Descriptors, descriptor_alloc, descriptor_ptr_alloc,
}
use messages_queue_disastros.Descriptor.Alloc.{
  descriptor_alloc-Described, descriptor_ptr_alloc-Pointed,
}
use messages_queue_disastros.Process.{Pcb}
use messages_queue_disastros.Kernel.{Kernel, pcb_of}
use messages_queue_disastros.PoolAllocator.Placed.{insert_last-Placed}
use messages_queue_disastros.Kernel.Files.{add_descriptor}

-- The block of the running process after the three writes.
abbrev opened_pcbs : (Addr → Pcb) → (p : Addr) → (descriptors : ListHead) → ℤ → Addr → Pcb
opened_pcbs pcbs p descriptors fd =
    let pcbs1 = update pcbs p (record (pcbs p) { last_fd = (pcbs p).last_fd +ℤ pos 1 }) in
    let pcbs2 = update pcbs1 p (record (pcbs1 p) { descriptors = descriptors }) in
    update pcbs2 p (record (pcbs2 p) { syscall_retvalue = fd })

abbrev opened :
    Kernel
    → Descriptors
    → (des desptr res : Addr) → (own theirs : ListHead) → (items ptr_items : Items) → Kernel
opened k s des desptr res own theirs items ptr_items = record k {
  processes = record k.processes {
    pcbs = opened_pcbs k.processes.pcbs k.current own (s.descriptors des).fd;
  };
  files = record s {
    descriptors = update s.descriptors des (record (s.descriptors des) { ptr = desptr });
    descriptor_items = items;
    descriptor_ptr_items = ptr_items;
  };
  devices = record k.devices {
    resources =
        update k.devices.resources res
          (record (k.devices.resources res) { descriptors_ptrs = theirs });
  };
}

add_descriptor_runs :
    (k : Kernel) (s1 s2 : Descriptors) (des desptr res : Addr) (own' theirs' : ListHead)
    (items ptr_items : Items)
    → descriptor_alloc k.files (pcb_of k k.current).last_fd res k.current ≡ some (des, s1)
    → des ≢ 0
    → descriptor_ptr_alloc s1 des ≡ some (desptr, s2)
    → insert s2.descriptor_items
        (pcb_of k k.current).descriptors
        (pcb_of k k.current).descriptors.last
        des
      ≡ some (items, own', des)
    → insert s2.descriptor_ptr_items
        (k.devices.resources res).descriptors_ptrs
        (k.devices.resources res).descriptors_ptrs.last
        desptr
      ≡ some (ptr_items, theirs', desptr)
    → add_descriptor k res ≡ some (opened k s2 des desptr res own' theirs' items ptr_items)
unfolding add_descriptor
add_descriptor_runs k s1 s2 des desptr res own' theirs' items ptr_items e1 nz e2 e3 e4 =
    rw (e1, ==-eq-false des 0 nz, e2, ==_refl k.current, e3, e4) refl

-- The descriptors `ds` of the running process have numbers below the next one, no two the same, and
-- `ps` are the pointers of the resource; all have blocks.
pub record HasFiles (k : Kernel) (js hs : List ℕ) (res : Addr) (ds ps : List Addr) : Type 0 where
  pub pool : IsPool k.files.descriptor_allocator js
  pub ptr_pool : IsPool k.files.descriptor_ptr_allocator hs
  pub own : IsList k.files.descriptor_items (pcb_of k k.current).descriptors ds
  pub theirs : IsList k.files.descriptor_ptr_items (k.devices.resources res).descriptors_ptrs ps
  pub live : (a : Addr) → has a ds ≡ true → IsLive k.files.descriptor_allocator js a
  pub live_ptrs : (a : Addr) → has a ps ≡ true → IsLive k.files.descriptor_ptr_allocator hs a
  pub numbers :
      (a : Addr)
      → has a ds ≡ true
      → ltb_ℤ (k.files.descriptors a).fd (pcb_of k k.current).last_fd ≡ true
  pub injective :
      (a b : Addr)
      → has a ds ≡ true
      → has b ds ≡ true
      → (k.files.descriptors a).fd ≡ (k.files.descriptors b).fd
      → a ≡ b

-- What the new descriptor is, and what it leaves.
pub record Opened (k : Kernel) (js hs : List ℕ) (res : Addr) (ds ps : List Addr) (des desptr : Addr)
    (k' : Kernel) : Type 0 where
  pub files : HasFiles k' js hs res (ds ++ (des ∷ [])) (ps ++ (desptr ∷ []))
  pub fd : (k'.files.descriptors des).fd ≡ (pcb_of k k.current).last_fd
  pub resource : (k'.files.descriptors des).resource ≡ res
  pub pcb : (k'.files.descriptors des).pcb ≡ k.current
  pub ptr : (k'.files.descriptors des).ptr ≡ desptr
  pub target : k'.files.descriptor_ptrs desptr ≡ des
  pub retvalue : (pcb_of k' k.current).syscall_retvalue ≡ (pcb_of k k.current).last_fd
  pub last_fd : (pcb_of k' k.current).last_fd ≡ (pcb_of k k.current).last_fd +ℤ pos 1
  pub others : (a : Addr) → has a ds ≡ true → k'.files.descriptors a ≡ k.files.descriptors a
  pub processes : (p : Addr) → p ≢ k.current → pcb_of k' p ≡ pcb_of k p
  pub current : k'.current ≡ k.current

opened_at :
    (pcbs : Addr → Pcb) (p : Addr) (descriptors : ListHead) (fd : ℤ)
    → opened_pcbs pcbs p descriptors fd p ≡ record (pcbs p) {
      last_fd = (pcbs p).last_fd +ℤ pos 1;
      descriptors = descriptors;
      syscall_retvalue = fd;
    }
opened_at pcbs p descriptors fd = rw (==_refl p) refl

opened_other :
    (pcbs : Addr → Pcb) (p : Addr) (descriptors : ListHead) (fd : ℤ) (q : Addr)
    → q ≢ p
    → opened_pcbs pcbs p descriptors fd q ≡ pcbs q
opened_other pcbs p descriptors fd q ne = rw (==-eq-false q p ne) refl

next_below : (b : ℤ) → ltb_ℤ b (b +ℤ pos 1) ≡ true
unfolding ◌+ℤ◌
next_below (pos n) = ground arith
next_below (negsuc n) = ground arith

below_next : (a b : ℤ) → ltb_ℤ a b ≡ true → ltb_ℤ a (b +ℤ pos 1) ≡ true
below_next a b lt = below_trans a b (b +ℤ pos 1) lt (next_below b)
  where
    below_trans : (a b c : ℤ) → ltb_ℤ a b ≡ true → ltb_ℤ b c ≡ true → ltb_ℤ a c ≡ true
    below_trans a b c p q = ground arith

not_below : (b : ℤ) → ltb_ℤ b b ≡ true → ⊥
not_below b lt = ground arith

-- The numbers after the new descriptor `des` has the next one.
module _ {k : Kernel} {js hs : List ℕ} {res : Addr} {ds ps : List Addr}
    (f : HasFiles k js hs res ds ps) (g : Addr → Descriptor) (des : Addr) (last_fd : ℤ)
    (at_des : (g des).fd ≡ (pcb_of k k.current).last_fd)
    (same : (a : Addr) → has a ds ≡ true → g a ≡ k.files.descriptors a)
    (last : last_fd ≡ (pcb_of k k.current).last_fd +ℤ pos 1) where
  numbers_after : (a : Addr) → has a (ds ++ (des ∷ [])) ≡ true → ltb_ℤ (g a).fd last_fd ≡ true
  numbers_after a m = elim (Bool-cases (a == des)) [
    | inl new ↦ rw ((==_iff a des).0 new, at_des, last) (next_below (pcb_of k k.current).last_fd)
    | inr old ↦
        let i = has-snoc a des ds m old in
        rw (same a i, last)
          (below_next (k.files.descriptors a).fd (pcb_of k k.current).last_fd (f.numbers a i))
  ]

  -- An old number is not the new one.
  new_number : (a : Addr) → has a ds ≡ true → (g a).fd ≢ (g des).fd
  new_number a i e = not_below (pcb_of k k.current).last_fd (
      subst (λ z. ltb_ℤ z (pcb_of k k.current).last_fd ≡ true)
        (ap (λ d. d.fd) (sym (same a i)) ∙ e ∙ at_des) (f.numbers a i))

  injective_after :
      (a b : Addr)
      → has a (ds ++ (des ∷ [])) ≡ true
      → has b (ds ++ (des ∷ [])) ≡ true
      → (g a).fd ≡ (g b).fd
      → a ≡ b
  injective_after a b m n e = elim (Bool-cases (a == des)) [
    | inl new ↦ elim (Bool-cases (b == des)) [
      | inl new' ↦ (==_iff a des).0 new ∙ sym ((==_iff b des).0 new')
      | inr old ↦ absurd (
          new_number b (has-snoc b des ds n old)
            (sym e ∙ ap (λ z. (g z).fd) ((==_iff a des).0 new)))
    ]
    | inr old ↦ elim (Bool-cases (b == des)) [
      | inl new ↦
          absurd
            (new_number a (has-snoc a des ds m old) (e ∙ ap (λ z. (g z).fd) ((==_iff b des).0 new)))
      | inr old' ↦
          let i = has-snoc a des ds m old in
          let j = has-snoc b des ds n old' in
          f.injective a b i j (ap (λ d. d.fd) (sym (same a i)) ∙ e ∙ ap (λ d. d.fd) (same b j))
    ]
  ]

-- With a free block for the descriptor and one for the pointer, a process that opens a resource gets
-- the next number: its descriptor with that number stands for the resource, behind the others, whose
-- numbers are all different from it, and the resource keeps a pointer to it.
pub add_descriptor-Opened :
    (k : Kernel) (j : ℕ) (js : List ℕ) (h : ℕ) (hs : List ℕ) (res : Addr) (ds ps : List Addr)
    → HasFiles k (j ∷ js) (h ∷ hs) res ds ps
    → (des : Addr) × (ptr : Addr) × (k' : Kernel) × (add_descriptor k res ≡ some k')
      × Opened k js hs res ds ps des ptr k'
add_descriptor-Opened k j js h hs res ds ps f =
    let c = k.current in
    let fd = (pcb_of k c).last_fd in
    let (des, s1, alloc, new) = descriptor_alloc-Described {s = k.files} j js fd res c f.pool in
    let (desptr, s2, ptr_alloc, point) =
      descriptor_ptr_alloc-Pointed {s = s1} h hs des (rw new.ptr_allocator f.ptr_pool) in
    let (r1, own) = insert_last-Placed ds f.own f.live new.kept new.items new.loose new.live in
    let (r2, theirs) =
      insert_last-Placed {a0 = s1.descriptor_ptr_allocator} {h0 = s1.descriptor_ptr_items} ps
        (rw new.ptr_items f.theirs) (rw new.ptr_allocator f.live_ptrs) point.kept point.ptr_items
        point.loose point.live in
    let other : (a : Addr) → has a ds ≡ true → a ≢ des = λ a m. (new.kept a (f.live a m)).1 in
    let made : Descriptor = record (k.files.descriptors des) { fd = fd; resource = res; pcb = c } in
    let at_new : s2.descriptors des ≡ made = ap (λ g. g des) point.descriptors ∙ new.new in
    let last = record (s2.descriptors des) { ptr = desptr } in
    let files' = update s2.descriptors des last in
    let at_des : files' des ≡ record made { ptr = desptr } =
      update_same s2.descriptors des last
      ∙ ap {A = Descriptor} {B = Descriptor} (λ d. record d { ptr = desptr }) at_new in
    let old : (a : Addr) → has a ds ≡ true → files' a ≡ k.files.descriptors a = λ a m.
      update_other s2.descriptors des a last (other a m)
      ∙ ap (λ g. g a) point.descriptors
      ∙ new.others a (other a m) in
    let pcb = opened_at k.processes.pcbs c r1.1 (s2.descriptors des).fd in
    let number = ap (λ d. d.fd) at_des in
    let next = ap (λ p. p.last_fd) pcb in
    let k' = opened k s2 des desptr res r1.1 r2.1 r1.0 r2.0 in
    (
      des,
      desptr,
      k',
      add_descriptor_runs k s1 s2 des desptr res r1.1 r2.1 r1.0 r2.0 alloc new.ne_null ptr_alloc
          (rw point.items own.inserted) theirs.inserted,
      record {
        files = record {
          pool = rw point.allocator new.pool;
          ptr_pool = point.pool;
          own =
              subst (λ z. IsList r1.0 z (ds ++ (des ∷ []))) (sym (ap (λ p. p.descriptors) pcb))
                own.list;
          theirs =
              subst (λ z. IsList r2.0 z (ps ++ (desptr ∷ [])))
                (sym (ap (λ r. r.descriptors_ptrs) (update_same k.devices.resources res _)))
                theirs.list;
          live = rw point.allocator own.live;
          live_ptrs = theirs.live;
          numbers = numbers_after f files' des (pcb_of k' c).last_fd number old next;
          injective = injective_after f files' des (pcb_of k' c).last_fd number old next;
        };
        fd = number;
        resource = ap (λ d. d.resource) at_des;
        pcb = ap (λ d. d.pcb) at_des;
        ptr = ap (λ d. d.ptr) at_des;
        target = point.target;
        retvalue = ap (λ p. p.syscall_retvalue) pcb ∙ ap (λ d. d.fd) at_new;
        last_fd = next;
        others = old;
        processes = λ p ne. opened_other k.processes.pcbs c r1.1 (s2.descriptors des).fd p ne;
        current = refl;
      },
    )
