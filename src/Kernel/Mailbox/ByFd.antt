-- ===== src/Kernel/Mailbox/ByFd.antt =====
-- The search for the queue of a file descriptor, the first half of both system calls.
use messages_queue_disastros.Prelude.{
  ◌≡◌, refl, ◌∙◌, ◌≢◌, ap, Bool, true, false, some, List, [], ◌∷◌, arith, ◌==◌, ==-eq-false, ℤ,
  eqb_ℤ, Bool-cases, inl, inr, eqb_ℤ_refl, eqb_ℤ-eq, eqb_ℤ-eq-false,
}
use messages_queue_disastros.Constants.{
  message_queue_type, resource_not_found, e_resource_type_wrong,
}
use messages_queue_disastros.LinkedList.{Addr}
use messages_queue_disastros.LinkedList.Chain.{IsList, has, Chain-ne_null, ne_of_has}
use messages_queue_disastros.LinkedList.Find.{first_match, scan-first_match}
use messages_queue_disastros.Descriptor.{descriptor_list_by_fd}
use messages_queue_disastros.Kernel.{Kernel, pcb_of}
use messages_queue_disastros.Kernel.Mailbox.{queue, refused, lookup_queue}

-- The descriptors `ds` of the running process, none of which has the number of another, and each
-- of which stands for a resource.
pub record HasDescriptors (k : Kernel) (ds : List Addr) : Type 0 where
  pub list : IsList k.files.descriptor_items (pcb_of k k.current).descriptors ds
  pub injective :
      (a b : Addr)
      → has a ds ≡ true
      → has b ds ≡ true
      → (k.files.descriptors a).fd ≡ (k.files.descriptors b).fd
      → a ≡ b
  pub resources : (a : Addr) → has a ds ≡ true → (k.files.descriptors a).resource ≢ 0

module _ (test : Addr → Bool) where
  pub first_match_unique :
      (d : Addr) (xs : List Addr)
      → has d xs ≡ true
      → test d ≡ true
      → ((a : Addr) → has a xs ≡ true → test a ≡ true → a ≡ d)
      → first_match test xs ≡ d
  unfolding first_match
  first_match_unique d [] i t u = cc
  first_match_unique d (x ∷ xs) i t u = elim (Bool-cases (test x)) [
    | inl passes ↦ rw passes (u x (ground arith) passes)
    | inr fails ↦
        let other : (d == x) ≡ false = ==-eq-false d x (λ same. cc same) in
        let inside : has d xs ≡ true = ground arith in
        rw fails (first_match_unique d xs inside t λ a j. u a (ground arith))
  ]

  pub first_match_none :
      (xs : List Addr) → ((a : Addr) → has a xs ≡ true → test a ≡ false) → first_match test xs ≡ 0
  unfolding first_match
  first_match_none [] u = refl
  first_match_none (x ∷ xs) u =
      rw (u x (ground arith)) (first_match_none xs λ a i. u a (ground arith))

module _ {k : Kernel} {ds : List Addr} (h : HasDescriptors k ds) where
  by_fd : (fd : ℤ) → Addr → Bool
  by_fd fd aux = eqb_ℤ (k.files.descriptors aux).fd fd

  found :
      (d : Addr)
      → has d ds ≡ true
      → descriptor_list_by_fd k.files (pcb_of k k.current).descriptors (k.files.descriptors d).fd
        ≡ some d
  unfolding descriptor_list_by_fd
  found d i =
      let fd = (k.files.descriptors d).fd in
      let test : Addr → Bool = λ aux. eqb_ℤ (k.files.descriptors aux).fd fd in
      scan-first_match test ds h.list
      ∙ ap some (
          first_match_unique test d ds i (eqb_ℤ_refl fd)
            λ a j t. h.injective a d j i (eqb_ℤ-eq (k.files.descriptors a).fd fd t))

  missing :
      (fd : ℤ)
      → ((a : Addr) → has a ds ≡ true → (k.files.descriptors a).fd ≢ fd)
      → descriptor_list_by_fd k.files (pcb_of k k.current).descriptors fd ≡ some 0
  unfolding descriptor_list_by_fd
  missing fd away =
      let test : Addr → Bool = λ aux. eqb_ℤ (k.files.descriptors aux).fd fd in
      scan-first_match test ds h.list
      ∙ ap some
          (first_match_none test ds λ a i. eqb_ℤ-eq-false (k.files.descriptors a).fd fd (away a i))

  ne_null : (d : Addr) → has d ds ≡ true → (d == 0) ≡ false
  ne_null d i =
      let out : has 0 ds ≡ false = Chain-ne_null k.files.descriptor_items 0 0 ds h.list.chain in
      ==-eq-false d 0 (ne_of_has 0 d ds out i)

  -- The number of a descriptor of a queue is found, and leads to the queue.
  pub lookup_queue-found :
      (d : Addr)
      → has d ds ≡ true
      → (k.devices.resources (k.files.descriptors d).resource).type ≡ message_queue_type
      → lookup_queue k (k.files.descriptors d).fd ≡ some (queue (k.files.descriptors d).resource)
  unfolding lookup_queue
  lookup_queue-found d i t =
      rw
        (
          found d i,
          ne_null d i,
          ==-eq-false (k.files.descriptors d).resource 0 (h.resources d i),
          t,
        )
        refl

  -- A number that no descriptor has is refused.
  pub lookup_queue-missing :
      (fd : ℤ)
      → ((a : Addr) → has a ds ≡ true → (k.files.descriptors a).fd ≢ fd)
      → lookup_queue k fd ≡ some (refused resource_not_found)
  unfolding lookup_queue
  lookup_queue-missing fd away = rw (missing fd away) refl

  -- So is the number of a descriptor of another resource.
  pub lookup_queue-wrong :
      (d : Addr)
      → has d ds ≡ true
      → (k.devices.resources (k.files.descriptors d).resource).type ≢ message_queue_type
      → lookup_queue k (k.files.descriptors d).fd ≡ some (refused e_resource_type_wrong)
  unfolding lookup_queue
  lookup_queue-wrong d i t =
      let other = eqb_ℤ-eq-false _ message_queue_type t in
      rw
        (
          found d i,
          ne_null d i,
          ==-eq-false (k.files.descriptors d).resource 0 (h.resources d i),
          other,
        )
        refl
