-- ===== src/Mlme/Queue.antt =====
-- The queue of MLME messages (Module/mlme.c, MlmeQueueInit to MlmeQueueDestroy; the structures
-- are in Module/mlme.h): a ring of ten elements with a count, a head and a tail. `BOOLEAN` and
-- pointer results are an `Option`; the spin lock shows as the split of an enqueue into `reserve`,
-- made under the lock, and `copy` and `publish`, made outside it.
pub mod Fifo
pub mod Enqueue
pub mod Dequeue
pub mod Drain
pub mod Steps
pub mod Invariant
pub mod Safety
pub mod Restart
mod Examples
use rt.Prelude.{
  ℕ, zero, suc, ◌+◌, ◌-◌, ◌%◌, Bool, true, false, Option, none, some, List, ltb, ◌==◌,
  if◌then◌else◌,
}
use rt.Prelude.Lists.{get_or, set, replicate, memcpy}

abbrev pub max_len_of_mlme_queue : ℕ
max_len_of_mlme_queue = 10

abbrev pub max_len_of_mlme_buffer : ℕ
max_len_of_mlme_buffer = 2048

pub record Elem : Type 0 where
  pub machine : ℕ
  pub msg_type : ℕ
  pub msg_len : ℕ
  pub time_low : ℕ
  pub time_high : ℕ
  pub rssi : ℕ
  pub signal : ℕ
  pub channel : ℕ
  pub occupied : Bool
  pub msg : List ℕ

pub record Queue : Type 0 where
  pub num : ℕ
  pub head : ℕ
  pub tail : ℕ
  pub entry : List Elem

-- An element of zeroed memory. `MlmeQueueInit` clears the three fields it names; the adapter that
-- holds the queue is allocated zeroed.
unfoldable pub blank : Elem
blank = record {
  machine = 0;
  msg_type = 0;
  msg_len = 0;
  time_low = 0;
  time_high = 0;
  rssi = 0;
  signal = 0;
  channel = 0;
  occupied = false;
  msg = replicate max_len_of_mlme_buffer 0;
}

unfoldable pub queue_init : Queue
queue_init = record { num = 0; head = 0; tail = 0; entry = replicate max_len_of_mlme_queue blank }

-- `Queue->Entry[i]`.
abbrev pub entry_at : Queue → ℕ → Elem
entry_at q i = get_or q.entry i blank

-- What a frame adds to a message: the arguments of `MlmeEnqueueForRecv` and the latched channel.
pub record Reception : Type 0 where
  pub time_low : ℕ
  pub time_high : ℕ
  pub rssi : ℕ
  pub signal : ℕ
  pub channel : ℕ

-- The arguments that an enqueue copies; `recv` is there for a received frame.
pub record Message : Type 0 where
  pub machine : ℕ
  pub msg_type : ℕ
  pub msg_len : ℕ
  pub msg : List ℕ
  pub recv : Option Reception

-- The part under the lock: take the slot at the tail, or `none` on a full queue.
unfoldable pub reserve : Queue → Option (ℕ × Queue)
reserve q =
    if q.num == max_len_of_mlme_queue
    then none
    else some (
      q.tail,
      record q {
        num = q.num + 1;
        tail = if q.tail + 1 == max_len_of_mlme_queue then 0 else q.tail + 1;
      },
    )

-- The fields that only `MlmeEnqueueForRecv` writes.
unfoldable pub stamp : Option Reception → Elem → Elem
stamp none e = e
stamp (some r) e = record e {
  time_low = r.time_low;
  time_high = r.time_high;
  rssi = r.rssi;
  signal = r.signal;
  channel = r.channel;
}

-- The writes of the fields and the `memcpy`, with `Occupied` left as it is.
unfoldable pub copy_elem : Message → Elem → Elem
unfolding stamp
copy_elem m e = stamp m.recv (record e {
  machine = m.machine;
  msg_type = m.msg_type;
  msg_len = m.msg_len;
  msg = memcpy e.msg m.msg m.msg_len;
})

unfoldable pub copy : ℕ → Message → Queue → Queue
copy i m q = record q { entry = set q.entry i (copy_elem m (entry_at q i)) }

abbrev pub set_occupied : Bool → Elem → Elem
set_occupied b e = record e { occupied = b }

-- `Queue->Entry[i].Occupied = b`.
unfoldable pub mark : ℕ → Bool → Queue → Queue
mark i b q = record q { entry = set q.entry i (set_occupied b (entry_at q i)) }

-- The locked part and the copy of an enqueue that nothing interrupts.
unfoldable pub enqueue_message : Message → Queue → Option Queue
unfolding reserve
enqueue_message m q = elim (reserve q) [
  | none ↦ none
  | some (i, q') ↦ some (mark i true (copy i m q'))
]

-- The message of `MlmeEnqueue`.
abbrev pub plain_message : ℕ → ℕ → ℕ → List ℕ → Message
plain_message machine msg_type msg_len msg = record {
  machine = machine;
  msg_type = msg_type;
  msg_len = msg_len;
  msg = msg;
  recv = none;
}

-- `MlmeEnqueue`; `halting` is the flag fRTMP_ADAPTER_HALT_IN_PROGRESS.
unfoldable pub mlme_enqueue : Bool → ℕ → ℕ → ℕ → List ℕ → Queue → Queue × Bool
mlme_enqueue halting machine msg_type msg_len msg q =
    if halting
    then (q, false)
    else if ltb max_len_of_mlme_buffer msg_len
    then (q, false)
    else elim (enqueue_message (plain_message machine msg_type msg_len msg) q) [
      | none ↦ (q, false)
      | some q' ↦ (q', true)
    ]

-- `MlmeGetHead`: the index of the element that `*Elem` points to.
unfoldable pub mlme_get_head : Queue → Option ℕ
mlme_get_head q = if q.num == 0 then none else some q.head

-- `MlmeDequeue`.
unfoldable pub mlme_dequeue : Queue → Queue × Bool
mlme_dequeue q =
    if q.num == 0
    then (q, false)
    else (record q { head = (q.head + 1) % max_len_of_mlme_queue; num = q.num - 1 }, true)

-- One round of the loop of `MlmeRestartStateMachine` that empties the queue.
unfoldable pub drop_head : Queue → Queue
unfolding mlme_get_head mlme_dequeue mark
drop_head q = elim (mlme_get_head q) [ none ↦ q | some i ↦ mark i false (mlme_dequeue q).0 ]

-- `while (Queue->Num > 0)`, with the count of rounds as fuel.
unfoldable pub drain : ℕ → Queue → Queue
drain zero q = q
drain (suc n) q = let rest = drain n (drop_head q) in if q.num == 0 then q else rest

-- `MlmeQueueDestroy`: the elements are left as they are.
unfoldable pub mlme_queue_destroy : Queue → Queue
mlme_queue_destroy q = record q { num = 0; head = 0; tail = 0 }
