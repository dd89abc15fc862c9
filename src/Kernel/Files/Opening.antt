-- ===== src/Kernel/Files/Opening.antt =====
-- internal_openResource on a resource that is there.
use messages_queue_disastros.Prelude.{
  ℕ, ◌≡◌, refl, ◌∙◌, ◌≢◌, ap, Bool, true, false, not, ◌&&◌, ◌||◌, some, List, ◌∷◌, ◌==◌,
  ==-eq-false, ℤ, pos, eqb_ℤ, ltb_ℤ, eqb_ℤ_refl, eqb_ℤ-eq, to_int, Option, if◌then◌else◌, ◌>>=◌,
}
use messages_queue_disastros.Constants.{
  dsos_create, dsos_excl, standard_resource_type, e_resource_create,
}
use messages_queue_disastros.LinkedList.{Addr}
use messages_queue_disastros.LinkedList.Chain.{IsList, has, Chain-ne_null, ne_of_has}
use messages_queue_disastros.LinkedList.Find.{scan-first_match}
use messages_queue_disastros.Resource.{resource_list_by_id}
use messages_queue_disastros.Kernel.{Kernel, arg, set_retvalue}
use messages_queue_disastros.Kernel.Mailbox.ByFd.{first_match_unique}
use messages_queue_disastros.Kernel.Files.{
  add_descriptor, open_found, create_resource, internal_open_resource,
}
use messages_queue_disastros.Kernel.Files.Opened.{HasFiles, Opened, add_descriptor-Opened}

-- The resources `rs`, none of which has the number of another.
pub record HasResources (k : Kernel) (rs : List Addr) : Type 0 where
  pub list : IsList k.devices.resource_items k.devices.resources_list rs
  pub injective :
      (a b : Addr)
      → has a rs ≡ true
      → has b rs ≡ true
      → (k.devices.resources a).id ≡ (k.devices.resources b).id
      → a ≡ b

if_false : {A : Type 0} {b : Bool} (x y : A) → b ≡ false → (if b then x else y) ≡ y
if_false x y e = rw e refl

if_true : {A : Type 0} {b : Bool} (x y : A) → b ≡ true → (if b then x else y) ≡ x
if_true x y e = rw e refl

abbrev lookup : Kernel → ℤ → Option Addr
lookup k id = resource_list_by_id k.devices k.devices.resources_list id

-- What internal_openResource does with the resource that it finds.
abbrev open_body : Kernel → (id type open_mode : ℤ) → Addr → Option Kernel
open_body k id type open_mode res =
    if not (eqb_ℤ open_mode dsos_create)
    then open_found k res type open_mode
    else if not (res == 0)
    then some (set_retvalue k e_resource_create)
    else (do (created, k1) ← create_resource k id type; open_found k1 created type open_mode)

module _ {k : Kernel} {rs : List Addr} (r : HasResources k rs) (res : Addr)
    (i : has res rs ≡ true) where
  resource_found :
      resource_list_by_id k.devices k.devices.resources_list (k.devices.resources res).id ≡ some res
  unfolding resource_list_by_id
  resource_found =
      let id = (k.devices.resources res).id in
      let test : Addr → Bool = λ aux. eqb_ℤ (k.devices.resources aux).id id in
      scan-first_match test rs r.list
      ∙ ap some (
          first_match_unique test res rs i (eqb_ℤ_refl id)
            λ a j t. r.injective a res j i (eqb_ℤ-eq (k.devices.resources a).id id t))

  resource_ne_null : (res == 0) ≡ false
  resource_ne_null =
      let out : has 0 rs ≡ false = Chain-ne_null k.devices.resource_items 0 0 rs r.list.chain in
      ==-eq-false res 0 (ne_of_has 0 res rs out i)

  open_found_runs :
      (mode : ℤ)
      → (k.devices.resources res).type ≡ standard_resource_type
      → eqb_ℤ mode dsos_excl ≡ false
      → open_found k res standard_resource_type mode ≡ add_descriptor k res
  unfolding open_found
  open_found_runs mode t e =
      let type = (k.devices.resources res).type in
      let size = (k.devices.resources res).descriptors_ptrs.size in
      let there : ((res == 0) || not (eqb_ℤ type standard_resource_type)) ≡ false =
        rw (resource_ne_null, t) refl in
      let shared : (eqb_ℤ mode dsos_excl && not (eqb_ℤ size (pos 0))) ≡ false = rw e refl in
      let standard : (ltb_ℤ standard_resource_type type && not (eqb_ℤ mode dsos_create)) ≡ false =
        rw t refl in
      if_false _ _ there ∙ if_false _ _ shared ∙ if_false _ _ standard

  open_runs :
      (mode : ℤ)
      → k.current ≢ 0
      → to_int (arg k 0) ≡ (k.devices.resources res).id
      → to_int (arg k 1) ≡ standard_resource_type
      → to_int (arg k 2) ≡ mode
      → eqb_ℤ mode dsos_create ≡ false
      → internal_open_resource k ≡ open_found k res standard_resource_type mode
  unfolding internal_open_resource
  open_runs mode nz e0 e1 e2 other =
      let id = (k.devices.resources res).id in
      let a1 = to_int (arg k 1) in
      let a2 = to_int (arg k 2) in
      if_false _ _ (==-eq-false k.current 0 nz)
      ∙ ap (λ z. lookup k z >>= open_body k z a1 a2) e0
      ∙ ap (λ z. lookup k id >>= open_body k id z a2) e1
      ∙ ap (λ z. lookup k id >>= open_body k id standard_resource_type z) e2
      ∙ ap (λ o. o >>= open_body k id standard_resource_type mode) resource_found
      ∙ if_true _ _ (ap not other)

-- A process that opens a standard resource by its number, neither to create it nor for itself
-- alone, gets the next number, with a free block for the descriptor and one for the pointer: its
-- descriptor with that number stands for the resource, behind the others, whose numbers are all
-- different from it, and the resource keeps a pointer to it, behind the others.
pub internal_open_resource-Opened :
    (k : Kernel) (j : ℕ) (js : List ℕ) (h : ℕ) (hs : List ℕ) (res : Addr) (ds ps rs : List Addr)
    (mode : ℤ)
    → k.current ≢ 0
    → HasFiles k (j ∷ js) (h ∷ hs) res ds ps
    → HasResources k rs
    → has res rs ≡ true
    → (k.devices.resources res).type ≡ standard_resource_type
    → to_int (arg k 0) ≡ (k.devices.resources res).id
    → to_int (arg k 1) ≡ standard_resource_type
    → to_int (arg k 2) ≡ mode
    → eqb_ℤ mode dsos_create ≡ false
    → eqb_ℤ mode dsos_excl ≡ false
    → (des : Addr) × (ptr : Addr) × (k' : Kernel) × (internal_open_resource k ≡ some k')
      × Opened k js hs res ds ps des ptr k'
internal_open_resource-Opened k j js h hs res ds ps rs mode nz f r i t e0 e1 e2 other shared =
    let (des, ptr, k', run, o) = add_descriptor-Opened k j js h hs res ds ps f in
    (
      des,
      ptr,
      k',
      open_runs r res i mode nz e0 e1 e2 other ∙ open_found_runs r res i mode t shared ∙ run,
      o,
    )
