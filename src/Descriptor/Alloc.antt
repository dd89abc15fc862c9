-- ===== src/Descriptor/Alloc.antt =====
-- Descriptor_alloc and DescriptorPtr_alloc with a free block.
use messages_queue_disastros.Prelude.{
  ℕ, ◌≡◌, refl, ◌≢◌, some, List, ◌∷◌, ==-eq-false, ℤ, update, update_same, update_other,
}
use messages_queue_disastros.LinkedList.{Addr, unlink}
use messages_queue_disastros.LinkedList.Chain.{IsLoose}
use messages_queue_disastros.LinkedList.Frame.{unlink-IsLoose, unlink_ne}
use messages_queue_disastros.PoolAllocator.{block_address}
use messages_queue_disastros.PoolAllocator.Free.{IsPool}
use messages_queue_disastros.PoolAllocator.Live.{IsLive, get_block-Handed}
use messages_queue_disastros.Descriptor.{Descriptors, descriptor_alloc, descriptor_ptr_alloc}

-- A descriptor is made in a block that was free.
pub record Described (s : Descriptors) (k : ℕ) (ks : List ℕ) (fd : ℤ) (res pcb d : Addr)
    (s' : Descriptors) : Type 0 where
  pub ne_null : d ≢ 0
  pub pool : IsPool s'.descriptor_allocator ks
  pub live : IsLive s'.descriptor_allocator ks d
  pub loose : IsLoose s'.descriptor_items d
  pub new : s'.descriptors d ≡ record (s.descriptors d) { fd = fd; resource = res; pcb = pcb }
  pub kept :
      (q : Addr)
      → IsLive s.descriptor_allocator (k ∷ ks) q
      → IsLive s'.descriptor_allocator ks q × (q ≢ d)
  pub others : (q : Addr) → q ≢ d → s'.descriptors q ≡ s.descriptors q
  pub items : (q : Addr) → q ≢ d → s'.descriptor_items q ≡ s.descriptor_items q
  pub ptr_allocator : s'.descriptor_ptr_allocator ≡ s.descriptor_ptr_allocator
  pub ptr_items : s'.descriptor_ptr_items ≡ s.descriptor_ptr_items

pub descriptor_alloc-Described :
    {s : Descriptors} (k : ℕ) (ks : List ℕ) (fd : ℤ) (res pcb : Addr)
    → IsPool s.descriptor_allocator (k ∷ ks)
    → (d : Addr) × (s' : Descriptors) × (descriptor_alloc s fd res pcb ≡ some (d, s'))
      × Described s k ks fd res pcb d s'
unfolding descriptor_alloc
descriptor_alloc-Described {s} k ks fd res pcb i =
    let (b, run, h) = get_block-Handed k ks i in
    let d = block_address s.descriptor_allocator k in
    let new = record (s.descriptors d) { fd = fd; resource = res; pcb = pcb } in
    (
      d,
      record s {
        descriptor_allocator = b;
        descriptor_items = unlink s.descriptor_items d;
        descriptors = update s.descriptors d new;
      },
      rw (run, ==-eq-false d 0 h.ne_null) refl,
      record {
        ne_null = h.ne_null;
        pool = h.pool;
        live = h.live;
        loose = unlink-IsLoose s.descriptor_items d h.ne_null;
        new = update_same s.descriptors d new;
        kept = λ q l. (h.kept q l, h.fresh q l);
        others = λ q ne. update_other s.descriptors d q new ne;
        items = λ q ne. unlink_ne s.descriptor_items d q ne;
        ptr_allocator = refl;
        ptr_items = refl;
      },
    )

-- A pointer to the descriptor is made in a block that was free.
pub record Pointed (s : Descriptors) (k : ℕ) (ks : List ℕ) (descriptor ptr : Addr)
    (s' : Descriptors) : Type 0 where
  pub pool : IsPool s'.descriptor_ptr_allocator ks
  pub live : IsLive s'.descriptor_ptr_allocator ks ptr
  pub loose : IsLoose s'.descriptor_ptr_items ptr
  pub target : s'.descriptor_ptrs ptr ≡ descriptor
  pub kept :
      (q : Addr)
      → IsLive s.descriptor_ptr_allocator (k ∷ ks) q
      → IsLive s'.descriptor_ptr_allocator ks q × (q ≢ ptr)
  pub ptr_items : (q : Addr) → q ≢ ptr → s'.descriptor_ptr_items q ≡ s.descriptor_ptr_items q
  pub allocator : s'.descriptor_allocator ≡ s.descriptor_allocator
  pub descriptors : s'.descriptors ≡ s.descriptors
  pub items : s'.descriptor_items ≡ s.descriptor_items

pub descriptor_ptr_alloc-Pointed :
    {s : Descriptors} (k : ℕ) (ks : List ℕ) (descriptor : Addr)
    → IsPool s.descriptor_ptr_allocator (k ∷ ks)
    → (ptr : Addr) × (s' : Descriptors) × (descriptor_ptr_alloc s descriptor ≡ some (ptr, s'))
      × Pointed s k ks descriptor ptr s'
unfolding descriptor_ptr_alloc
descriptor_ptr_alloc-Pointed {s} k ks descriptor i =
    let (b, run, h) = get_block-Handed k ks i in
    let ptr = block_address s.descriptor_ptr_allocator k in
    (
      ptr,
      record s {
        descriptor_ptr_allocator = b;
        descriptor_ptr_items = unlink s.descriptor_ptr_items ptr;
        descriptor_ptrs = update s.descriptor_ptrs ptr descriptor;
      },
      rw (run, ==-eq-false ptr 0 h.ne_null) refl,
      record {
        pool = h.pool;
        live = h.live;
        loose = unlink-IsLoose s.descriptor_ptr_items ptr h.ne_null;
        target = update_same s.descriptor_ptrs ptr descriptor;
        kept = λ q l. (h.kept q l, h.fresh q l);
        ptr_items = λ q ne. unlink_ne s.descriptor_ptr_items ptr q ne;
        allocator = refl;
        descriptors = refl;
        items = refl;
      },
    )
