-- ===== src/Kernel/Files.antt =====
-- disastrOS_open_resource.c, disastrOS_close_resource.c and disastrOS_destroy_resource.c.
pub mod Opened
pub mod Opening
use messages_queue_disastros.Prelude.{
  not, ◌&&◌, ◌||◌, Option, none, some, ◌>>=◌, ◌==◌, if◌then◌else◌, update, ℤ, pos, ◌+ℤ◌, ltb_ℤ,
  eqb_ℤ, to_int,
}
use messages_queue_disastros.Constants.{
  dsos_create, dsos_excl, standard_resource_type, e_resource_create, e_resource_open,
  e_resource_no_excl, e_resource_no_fd, e_resource_close, e_resource_in_use,
}
use messages_queue_disastros.LinkedList
use messages_queue_disastros.LinkedList.{Addr}
use messages_queue_disastros.Descriptor.{
  descriptor_alloc, descriptor_ptr_alloc, descriptor_free, descriptor_ptr_free,
  descriptor_list_by_fd,
}
use messages_queue_disastros.Resource.{resource_list_by_id}
use messages_queue_disastros.Resource.Operations.{
  resource_alloc, resource_open, resource_release, resource_free,
}
use messages_queue_disastros.Kernel.{Kernel, pcb_of, set_pcb, arg, set_retvalue}

-- The steps of internal_openResource that make the descriptor and return its number.
unfoldable pub add_descriptor : Kernel → Addr → Option Kernel
add_descriptor k res = do
  let p = k.current
  (des, files1) ← descriptor_alloc k.files (pcb_of k p).last_fd res p
  let k1 = record k { files = files1 }
  if des == 0 then some (set_retvalue k1 e_resource_no_fd) else (do
    let k2 = set_pcb k1 p (record (pcb_of k1 p) { last_fd = (pcb_of k1 p).last_fd +ℤ pos 1 })
    (desptr, files2) ← descriptor_ptr_alloc files1 des
    let own = (pcb_of k2 p).descriptors
    (items, own', _) ← LinkedList.insert files2.descriptor_items own own.last des
    let k3 = set_pcb k2 p (record (pcb_of k2 p) { descriptors = own' })
    let theirs = (k3.devices.resources res).descriptors_ptrs
    (ptr_items, theirs', _) ←
        LinkedList.insert files2.descriptor_ptr_items theirs theirs.last desptr
    let k4 = record k3 {
      files = record files2 {
        descriptors =
            update files2.descriptors des (record (files2.descriptors des) { ptr = desptr });
        descriptor_items = items;
        descriptor_ptr_items = ptr_items;
      };
      devices = record k3.devices {
        resources =
            update k3.devices.resources res
              (record (k3.devices.resources res) { descriptors_ptrs = theirs' });
      };
    }
    some (set_retvalue k4 (files2.descriptors des).fd))

-- internal_openResource once the resource is there or not: the type, exclusive use, the mode.
unfoldable pub open_found : Kernel → Addr → (type open_mode : ℤ) → Option Kernel
unfolding add_descriptor
open_found k res type open_mode =
    let r = k.devices.resources res in
    if (res == 0) || not (eqb_ℤ r.type type)
    then some (set_retvalue k e_resource_open)
    else if eqb_ℤ open_mode dsos_excl && not (eqb_ℤ r.descriptors_ptrs.size (pos 0))
    then some (set_retvalue k e_resource_no_excl)
    else if ltb_ℤ standard_resource_type r.type && not (eqb_ℤ open_mode dsos_create)
    then (do
      (result, processes, devices) ← resource_open k.processes k.devices k.current res open_mode
      let k1 = record k { processes = processes; devices = devices }
      if eqb_ℤ result (pos 0)
          then some (set_retvalue k1 e_resource_open)
          else add_descriptor k1 res)
    else add_descriptor k res

-- The creation of a resource in internal_openResource.
unfoldable pub create_resource : Kernel → (id type : ℤ) → Option (Addr × Kernel)
create_resource k id type = do
  (res, devices) ← resource_alloc k.devices id type
  (items, list, _) ←
      LinkedList.insert devices.resource_items devices.resources_list devices.resources_list.last
        res
  some
      (res, record k { devices = record devices { resource_items = items; resources_list = list } })

-- internal_openResource
unfoldable pub internal_open_resource : Kernel → Option Kernel
unfolding open_found create_resource
internal_open_resource k =
    let id = to_int (arg k 0) in
    let type = to_int (arg k 1) in
    let open_mode = to_int (arg k 2) in
    if k.current == 0 then none else (do
      res ← resource_list_by_id k.devices k.devices.resources_list id
      if not (eqb_ℤ open_mode dsos_create)
          then open_found k res type open_mode
          else if not (res == 0)
          then some (set_retvalue k e_resource_create)
          else (do (created, k1) ← create_resource k id type; open_found k1 created type open_mode))

-- internal_closeResource, once the descriptor is out of the list of the process.
unfoldable pub drop_descriptor : Kernel → (des res : Addr) → Option Kernel
drop_descriptor k des res = do
  (ptr_items, theirs, desptr) ←
      LinkedList.detach k.files.descriptor_ptr_items (k.devices.resources res).descriptors_ptrs
        (k.files.descriptors des).ptr
  (_, files1) ← descriptor_free (record k.files { descriptor_ptr_items = ptr_items }) des
  (_, files2) ← descriptor_ptr_free files1 desptr
  some (
      set_retvalue
        (record k {
          files = files2;
          devices = record k.devices {
            resources =
                update k.devices.resources res
                  (record (k.devices.resources res) { descriptors_ptrs = theirs });
          };
        })
        (pos 0))

-- The mode of a resource that is no standard one is deleted before that.
unfoldable pub release_mode : Kernel → (des res : Addr) → ℤ → Option Kernel
unfolding drop_descriptor
release_mode k des res mode =
    if ltb_ℤ standard_resource_type (k.devices.resources res).type
    then (do
      (result, devices) ← resource_release k.devices res mode
      let k1 = record k { devices = devices }
      if eqb_ℤ result (pos 0)
          then some (set_retvalue k1 e_resource_close)
          else drop_descriptor k1 des res)
    else drop_descriptor k des res

-- internal_closeResource
unfoldable pub internal_close_resource : Kernel → Option Kernel
unfolding release_mode
internal_close_resource k =
    let fd = to_int (arg k 0) in
    let mode = to_int (arg k 1) in
    let own = (pcb_of k k.current).descriptors in
    if k.current == 0 then none else (do
      des ← descriptor_list_by_fd k.files own fd
      if des == 0 then some (set_retvalue k e_resource_close) else (do
        (items, own', _) ← LinkedList.detach k.files.descriptor_items own des
        let k1 = record k { files = record k.files { descriptor_items = items } }
        let k2 = set_pcb k1 k.current (record (pcb_of k1 k.current) { descriptors = own' })
        let res = (k.files.descriptors des).resource
        release_mode k2 des res mode))

-- internal_destroyResource
unfoldable pub internal_destroy_resource : Kernel → Option Kernel
internal_destroy_resource k =
    let id = to_int (arg k 0) in
    if k.current == 0 then none else (do
      res ← resource_list_by_id k.devices k.devices.resources_list id
      if res == 0
          then some (set_retvalue k e_resource_close)
          else if not (eqb_ℤ (k.devices.resources res).descriptors_ptrs.size (pos 0))
          then some (set_retvalue k e_resource_in_use)
          else (do
            (items, list, _) ←
                LinkedList.detach k.devices.resource_items k.devices.resources_list res
            (_, devices, mail) ←
                resource_free (record k.devices { resource_items = items; resources_list = list })
                  k.mail res
            some (set_retvalue (record k { devices = devices; mail = mail }) (pos 0))))
