-- ===== src/LinkedList/Frame.antt =====
-- What writes to links elsewhere leave of a list, and the links of a block that is newly allocated.
use messages_queue_disastros.Prelude.{◌≡◌, ◌≢◌, true, false, List, arith}
use messages_queue_disastros.LinkedList.{Addr, Items, ListHead, unlink}
use messages_queue_disastros.LinkedList.Chain.{IsList, IsLoose, Chain-frame, has, ne_of_has}

pub IsList-frame :
    {h : Items} {head : ListHead} (g : Items) (xs : List Addr)
    → ((a : Addr) → has a xs ≡ true → g a ≡ h a)
    → IsList h head xs
    → IsList g head xs
IsList-frame {h} g xs same l = record {
  first = l.first;
  last = l.last;
  size = l.size;
  chain = Chain-frame h g 0 0 xs same l.chain;
  distinct = l.distinct;
}

pub unlink-IsLoose : (h : Items) (item : Addr) → item ≢ 0 → IsLoose (unlink h item) item
unfolding unlink
unlink-IsLoose h item nz = record { ne_null = nz; no_prev = ground arith; no_next = ground arith }

pub unlink_ne : (h : Items) (item a : Addr) → a ≢ item → unlink h item a ≡ h a
unfolding unlink
unlink_ne h item a ne = ground arith

-- Links cleared at an item outside a list leave the list.
pub IsList-unlink :
    {h : Items} {head : ListHead} (item : Addr) (xs : List Addr)
    → has item xs ≡ false
    → IsList h head xs
    → IsList (unlink h item) head xs
IsList-unlink {h} item xs out l =
    IsList-frame (unlink h item) xs (λ a i. unlink_ne h item a (λ e. ne_of_has item a xs out i e)) l
