-- ===== src/Mlme/Queue/Examples.antt =====
-- Runs of the queue of Module/mlme.c at concrete messages.
use rt.Prelude.{ℕ, ◌≤◌, ◌<◌, ◌≡◌, refl, ◌≢◌, ◌⊎◌, true, false, none, some, List, [], ◌∷◌, arith}
use rt.Prelude.Lists.{length, get_or, get_or-replicate}
use rt.Mlme.Queue.{
  Queue, Message, blank, queue_init, entry_at, plain_message, reserve, copy, mark, mlme_enqueue,
  mlme_get_head, mlme_dequeue, max_len_of_mlme_buffer,
}
use rt.Mlme.Queue.Fifo.{
  Carries, Filled, Represents, message_at, enqueued, enqueued-Represents, queue_init-Represents,
}
use rt.Mlme.Queue.Enqueue.{Accepted, mlme_enqueue_lem}
use rt.Mlme.Queue.Dequeue.{head-dequeue_lem}
use rt.Mlme.Queue.Steps.{
  idle, looking, Shared, writer_at, start, Step, Reach, here, next, reserve_slot, copy_message,
  publish, enter, take_head, after_reserve, after_copy, after_publish, after_take,
}
use rt.Mlme.Queue.Safety.{dispatched_in_order, reserve_fresh, bubble_has_writer}
use rt.Mlme.Queue.Restart.{restart, restart-publish_stale}

-- A beacon of two bytes.
abbrev beacon : Message
beacon = plain_message 4 3 2 (128 ∷ 0 ∷ [])

abbrev one_waiting : Queue
one_waiting = enqueued beacon queue_init

one_waiting-Represents : Represents one_waiting (beacon ∷ [])
one_waiting-Represents =
    enqueued-Represents beacon queue_init [] (omega arith) queue_init-Represents (omega arith)

mlme_enqueue_lem_example :
    ((false ≡ false)
      × (2 ≤ max_len_of_mlme_buffer)
      × (1 < 10)
      × Accepted beacon (beacon ∷ []) (mlme_enqueue false 4 3 2 (128 ∷ 0 ∷ []) one_waiting))
    ⊎ (((false ≡ true) ⊎ ((max_len_of_mlme_buffer < 2) ⊎ (length (beacon ∷ []) ≡ 10)))
        × (mlme_enqueue false 4 3 2 (128 ∷ 0 ∷ []) one_waiting ≡ (one_waiting, false)))
mlme_enqueue_lem_example =
    mlme_enqueue_lem false 4 3 2 (128 ∷ 0 ∷ []) one_waiting (beacon ∷ []) (omega arith)
      one_waiting-Represents

head-dequeue_lem_example :
    ((beacon ∷ [] ≡ [])
      × (mlme_get_head one_waiting ≡ none)
      × (mlme_dequeue one_waiting ≡ (one_waiting, false)))
    ⊎ ((m : Message) × (rest : List Message) × (beacon ∷ [] ≡ m ∷ rest)
        × ((i : ℕ) × (mlme_get_head one_waiting ≡ some i) × Filled (entry_at one_waiting i) m)
        × ((mlme_dequeue one_waiting).1 ≡ true)
        × Represents (mlme_dequeue one_waiting).0 rest)
head-dequeue_lem_example = head-dequeue_lem one_waiting (beacon ∷ []) one_waiting-Represents

-- A run: a slot is reserved, written and published, and the handler takes it.
abbrev reserved_queue : Queue
reserved_queue = record queue_init { num = 1; tail = 1 }

abbrev s1 : Shared
s1 = after_reserve start beacon 0 reserved_queue

abbrev s2 : Shared
s2 = after_copy s1 0 beacon

abbrev s3 : Shared
s3 = after_publish s2 0

abbrev s4 : Shared
s4 = record s3 { running = true; phase = looking }

abbrev s5 : Shared
s5 = after_take s4 0

s1-Reach : Reach start s1
s1-Reach =
    unfold start queue_init reserve in
    next here (reserve_slot beacon 0 reserved_queue (omega arith) refl)

s2-Reach : Reach start s2
s2-Reach = unfold start in next s1-Reach (copy_message 0 beacon (omega arith) refl)

s3-Reach : Reach start s3
s3-Reach = unfold start in next s2-Reach (publish 0 beacon (omega arith) refl)

s5-Reach : Reach start s5
s5-Reach =
    unfold start queue_init copy mark mlme_get_head in
    next (next s3-Reach (enter refl)) (take_head 0 refl refl refl)

dispatched_in_order_example :
    (0 < length s5.sent) × Carries (get_or s5.handled 0 blank) (message_at s5.sent 0)
dispatched_in_order_example = dispatched_in_order s5 0 s5-Reach (unfold start in omega arith)

reserve_fresh_example : (writer_at s1 1 ≡ idle) × ((entry_at s1.queue 1).occupied ≡ false)
reserve_fresh_example =
    reserve_fresh s1 1 (record reserved_queue { num = 2; tail = 2 }) s1-Reach
      (unfold start queue_init reserve in refl)

-- The handler comes while the beacon is still being written.
abbrev bubble : Shared
bubble = record s1 { running = true; phase = looking }

bubble-Reach : Reach start bubble
bubble-Reach = unfold start in next s1-Reach (enter refl)

bubble_has_writer_example : writer_at bubble 0 ≢ idle
bubble_has_writer_example =
    bubble_has_writer bubble 0 bubble-Reach refl (unfold queue_init mlme_get_head in refl)
      (unfold queue_init blank in refl)

quiet : (j : ℕ) → j < 10 → writer_at s3 j ≡ idle
quiet j h = unfold start in get_or-replicate 10 j idle

restart-publish_stale_example :
    (t : Shared) × Step (restart s2) t × (t.queue.num ≡ 0) × ((entry_at t.queue 0).occupied ≡ true)
restart-publish_stale_example =
    restart-publish_stale s2 0 beacon s2-Reach (omega arith) (unfold start in refl)
      (unfold start in refl)
