-- ===== src/Message/Queue.antt =====
-- What the messages of a queue stand for: a sequence of texts; and the allocation of a message.
use messages_queue_disastros.Prelude.{
  ℕ, ◌≤◌, ◌≡◌, refl, ◌≢◌, ap, true, false, some, List, [], ◌∷◌, ◌++◌, arith, length, ℤ, pos, ltb_ℤ,
  ==-eq-false, update,
}
use messages_queue_disastros.LinkedList.{Addr, ListHead}
use messages_queue_disastros.LinkedList.Chain.{IsList, IsLoose, has}
use messages_queue_disastros.PoolAllocator.{PoolAllocator, block_address, get_block}
use messages_queue_disastros.PoolAllocator.Free.{IsPool}
use messages_queue_disastros.PoolAllocator.GetBlock.{get_block-nil}
use messages_queue_disastros.PoolAllocator.Live.{IsLive}
use messages_queue_disastros.Constants.{message_string_max_length}
use messages_queue_disastros.Message.{Message, Messages, m_alloc, copy_chars}
use messages_queue_disastros.Message.Text.{segment, text, copy_chars-segment}

-- The messages: the free blocks have no links, and every array has its 128 characters.
pub record IsMail (s : Messages) (free : List ℕ) : Type 0 where
  pub pool : IsPool s.m_allocator free
  pub clear : (k : ℕ) → has k free ≡ true → IsLoose s.message_items (block_address s.m_allocator k)
  pub chars : (a : Addr) → length (s.messages a).msg ≡ message_string_max_length

-- The texts of messages, in order.
unfoldable pub texts : (Addr → Message) → List Addr → List (List ℕ)
texts f [] = []
texts f (x ∷ xs) = text (f x) ∷ texts f xs

-- The length that is stored is a length of a text that fits.
abbrev pub HasText : Message → Type 0
HasText m = (n : ℕ) × (m.length ≡ pos n) × (n ≤ message_string_max_length)

-- A queue of messages: its items are live messages, none twice.
pub record IsQueue (s : Messages) (free : List ℕ) (head : ListHead) (ms : List Addr) : Type 0 where
  pub list : IsList s.message_items head ms
  pub live : (a : Addr) → has a ms ≡ true → IsLive s.m_allocator free a
  pub texts : (a : Addr) → has a ms ≡ true → HasText (s.messages a)

pub texts-append :
    (f : Addr → Message) (xs ys : List Addr) → texts f (xs ++ ys) ≡ texts f xs ++ texts f ys
unfolding texts
texts-append f [] ys = refl
texts-append f (x ∷ xs) ys = ap (◌∷◌ (text (f x))) (texts-append f xs ys)

pub texts-same :
    (f g : Addr → Message) (xs : List Addr)
    → ((a : Addr) → has a xs ≡ true → g a ≡ f a)
    → texts g xs ≡ texts f xs
unfolding texts
texts-same f g [] same = refl
texts-same f g (x ∷ xs) same =
    rw (same x (ground arith), texts-same f g xs λ a i. same a (ground arith)) refl

pub text-written :
    {s : Messages} {free : List ℕ} (m : Addr) (source : ℕ → ℕ) (n : ℕ)
    → IsMail s free
    → n ≤ message_string_max_length
    → text (record { msg = copy_chars n 0 source (s.messages m).msg; length = pos n })
      ≡ segment source 0 n
text-written {s} m source n i le =
    copy_chars-segment n source (s.messages m).msg (omega (arith, i.chars m))

-- m_alloc with a free block writes a message with the given text into it.
pub m_alloc-eq :
    (s : Messages) (source : ℕ → ℕ) (n : ℕ) (m : Addr) (pool : PoolAllocator)
    → get_block s.m_allocator ≡ some (m, pool)
    → m ≢ 0
    → n ≤ message_string_max_length
    → m_alloc s source (pos n)
      ≡ some (
        m,
        record s {
          m_allocator = pool;
          messages =
              update s.messages m
                (record { msg = copy_chars n 0 source (s.messages m).msg; length = pos n });
        },
      )
unfolding m_alloc
m_alloc-eq s source n m pool e nz le =
    let fits : ltb_ℤ (pos 128) (pos n) ≡ false = ground arith in
    rw (e, ==-eq-false m 0 nz, fits) refl

-- With no free block it returns NULL.
pub m_alloc-nil :
    {s : Messages} (source : ℕ → ℕ) (length : ℤ)
    → IsMail s []
    → m_alloc s source length ≡ some (0, s)
unfolding m_alloc
m_alloc-nil source length i = rw (get_block-nil i.pool) refl
