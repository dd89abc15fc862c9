-- ===== src/Examples/Lost.antt =====
-- A write to a queue where the free block still has the link of the queue that it was in.
use messages_queue_disastros.Prelude.{◌≡◌, refl, some, [], arith, pos, ◌==◌, if◌then◌else◌}
use messages_queue_disastros.LinkedList.{Items}
use messages_queue_disastros.Kernel.{Kernel}
use messages_queue_disastros.Kernel.Mailbox.{enqueue}
use messages_queue_disastros.Kernel.Mailbox.Lost.{Lost, enqueue-Lost}
use messages_queue_disastros.Examples.Pools.{two_taken-IsPool}
use messages_queue_disastros.Examples.Mail.{two_messages}
use messages_queue_disastros.Examples.Calls.{with_empty, different}

abbrev stale : Items
stale a = if a == 1032 then record { prev = 0; next = 1048 } else record { prev = 0; next = 0 }

abbrev with_stale : Kernel
with_stale = record with_empty { mail = record two_messages { message_items = stale } }

enqueue-Lost_example :
    (k' : Kernel) × (enqueue with_stale 900 (pos 10000) (pos 2) ≡ some k') × Lost with_stale [] 2 k'
enqueue-Lost_example =
    enqueue-Lost 900 (pos 10000) 2 two_taken-IsPool refl (different 0 128 λ e. omega (arith, e))
      (omega arith)
