-- ===== src/Mlme/Queue/Fifo.antt =====
-- The ring of Module/mlme.c against a bounded first-in first-out list of messages, for operations
-- that nothing interrupts.
use rt.Prelude.{
  sym, ℕ, ◌+◌, ◌%◌, ◌≤◌, ◌<◌, ◌≡◌, refl, ap, ◌∙◌, ◌≢◌, ◌⊎◌, inl, inr, Bool, true, Option, none,
  some, List, [], ◌∷◌, ◌++◌, arith, ◌==◌, if◌then◌else◌, Bool-cases,
}
use rt.Prelude.Lists.{
  length, get_or, set, take, length-append, length-set, length-replicate, get_or-set, get_or-append,
  take-append_take,
}
use mathlib.Core.Path.{subst, subst₂}
use native.Mathlib.Decide.{dec_lt}
use rt.Mlme.Queue.{
  Elem, Queue, Message, Reception, blank, queue_init, entry_at, stamp, copy_elem, copy, mark,
  enqueue_message, max_len_of_mlme_queue, set_occupied,
}

-- The fields of a reception that an element shows.
abbrev pub Stamped : Option Reception → Elem → Type 0
Stamped none e = Unit
Stamped (some r) e =
    (e.time_low ≡ r.time_low)
    × (e.time_high ≡ r.time_high)
    × (e.rssi ≡ r.rssi)
    × (e.signal ≡ r.signal)
    × (e.channel ≡ r.channel)

-- The element holds the message: each field, and the bytes up to the length.
pub record Carries (e : Elem) (m : Message) : Type 0 where
  pub machine : e.machine ≡ m.machine
  pub msg_type : e.msg_type ≡ m.msg_type
  pub msg_len : e.msg_len ≡ m.msg_len
  pub body : take m.msg_len e.msg ≡ take m.msg_len m.msg
  pub recv : Stamped m.recv e

-- The handler may take the element: it is marked as occupied, and holds the message.
abbrev pub Filled : Elem → Message → Type 0
Filled e m = Carries e m × (e.occupied ≡ true)

-- The caller hands over at least as many bytes as it says.
abbrev pub IsComplete : Message → Type 0
IsComplete m = m.msg_len ≤ length m.msg

abbrev pub no_message : Message
no_message = record { machine = 0; msg_type = 0; msg_len = 0; msg = []; recv = none }

abbrev pub message_at : List Message → ℕ → Message
message_at ms k = get_or ms k no_message

-- The slot of the k-th waiting message.
abbrev pub slot : Queue → ℕ → ℕ
slot q k = (q.head + k) % max_len_of_mlme_queue

-- The ring fields agree with one another.
pub record IsRing (q : Queue) : Type 0 where
  pub entries : length q.entry ≡ max_len_of_mlme_queue
  pub num_le : q.num ≤ max_len_of_mlme_queue
  pub head_lt : q.head < max_len_of_mlme_queue
  pub tail_eq : q.tail ≡ (q.head + q.num) % max_len_of_mlme_queue

-- The queue stands for a list of messages, the oldest first.
pub record Represents (q : Queue) (ms : List Message) : Type 0 where
  pub ring : IsRing q
  pub count : q.num ≡ length ms
  pub holds : (k : ℕ) → k < length ms → Filled (entry_at q (slot q k)) (message_at ms k)

pub queue_init-IsRing : IsRing queue_init
unfolding queue_init
queue_init-IsRing = record {
  entries = length-replicate 10 blank;
  num_le = omega arith;
  head_lt = omega arith;
  tail_eq = refl;
}

pub queue_init-Represents : Represents queue_init []
unfolding queue_init
queue_init-Represents = record {
  ring = queue_init-IsRing;
  count = refl;
  holds = λ k h. absurd (omega arith);
}

-- `stamp` writes its fields and leaves the others.
stamp-Stamped : (r : Option Reception) (e : Elem) → Stamped r (stamp r e)
unfolding stamp
stamp-Stamped none e = tt
stamp-Stamped (some r) e = (refl, refl, refl, refl, refl)

stamp_frame :
    (r : Option Reception) (e : Elem)
    → ((stamp r e).machine ≡ e.machine)
      × ((stamp r e).msg_type ≡ e.msg_type)
      × ((stamp r e).msg_len ≡ e.msg_len)
      × ((stamp r e).msg ≡ e.msg)
      × ((stamp r e).occupied ≡ e.occupied)
unfolding stamp
stamp_frame none e = (refl, refl, refl, refl, refl)
stamp_frame (some r) e = (refl, refl, refl, refl, refl)

pub copy_elem-Carries : (m : Message) (e : Elem) → IsComplete m → Carries (copy_elem m e) m
unfolding copy_elem
copy_elem-Carries m e h = record {
  machine = (stamp_frame m.recv _).0;
  msg_type = (stamp_frame m.recv _).1;
  msg_len = (stamp_frame m.recv _).2;
  body = ap (take m.msg_len) (stamp_frame m.recv _).3 ∙ take-append_take m.msg_len m.msg _ h;
  recv = stamp-Stamped m.recv _;
}

pub copy_elem-occupied : (m : Message) (e : Elem) → (copy_elem m e).occupied ≡ e.occupied
unfolding copy_elem
copy_elem-occupied m e = (stamp_frame m.recv _).4

-- The flag is no part of the message.
pub set_occupied-Carries :
    {e : Elem} {m : Message} (b : Bool) → Carries e m → Carries (set_occupied b e) m
set_occupied-Carries b c = record {
  machine = c.machine;
  msg_type = c.msg_type;
  msg_len = c.msg_len;
  body = c.body;
  recv = stamped _ _ b c.recv;
}
  where
    stamped :
        (r : Option Reception) (e : Elem) (b : Bool) → Stamped r e → Stamped r (set_occupied b e)
    stamped none e b s = tt
    stamped (some r) e b s = s

-- The slots of different waiting messages, and the tail, are different.
pub slot-ne : (h k n : ℕ) → h < 10 → n ≤ 10 → k < n → n < 10 → (h + k) % 10 ≢ (h + n) % 10
slot-ne h k n a b c d e = omega arith

-- The queue that an uninterrupted enqueue leaves.
pub enqueued : Message → Queue → Queue
enqueued m q = mark q.tail true (
    copy q.tail m (record q {
      num = q.num + 1;
      tail = if q.tail + 1 == max_len_of_mlme_queue then 0 else q.tail + 1;
    }))

enqueue_message-enqueued :
    (m : Message) (q : Queue) → q.num < 10 → enqueue_message m q ≡ some (enqueued m q)
unfolding enqueue_message enqueued
enqueue_message-enqueued m q h = ground arith

entry_at-enqueued :
    (m : Message) (q : Queue) (j : ℕ)
    → IsRing q
    → entry_at (enqueued m q) j
      ≡ (if q.tail == j then set_occupied true (copy_elem m (entry_at q q.tail)) else entry_at q j)
unfolding enqueued mark copy
entry_at-enqueued m q j r = ground (
  arith,
  get_or-set q.entry q.tail j (copy_elem m (entry_at q q.tail)) blank,
  get_or-set q.entry q.tail q.tail (copy_elem m (entry_at q q.tail)) blank,
  length-set q.entry q.tail (copy_elem m (entry_at q q.tail)),
  get_or-set (set q.entry q.tail (copy_elem m (entry_at q q.tail))) q.tail j
      (set_occupied true (copy_elem m (entry_at q q.tail))) blank,
)

module _ (m : Message) (q : Queue) (r : IsRing q) (room : q.num < 10) where
  slot-enqueued : (k : ℕ) → slot (enqueued m q) k ≡ slot q k
  unfolding enqueued mark copy
  slot-enqueued k = refl

  entry_at-enqueued_old :
      (k : ℕ) → k < q.num → entry_at (enqueued m q) (slot (enqueued m q) k) ≡ entry_at q (slot q k)
  entry_at-enqueued_old k h =
      rw (slot-enqueued k) (ground (arith, r, entry_at-enqueued m q (slot q k) r))

  entry_at-enqueued_new :
      entry_at (enqueued m q) (slot (enqueued m q) q.num)
      ≡ set_occupied true (copy_elem m (entry_at q q.tail))
  entry_at-enqueued_new =
      rw (slot-enqueued q.num) (ground (arith, r, entry_at-enqueued m q (slot q q.num) r))

  enqueued-IsRing : IsRing (enqueued m q)
  unfolding enqueued mark copy
  enqueued-IsRing = record {
    entries = length-set _ q.tail _ ∙ length-set q.entry q.tail _ ∙ r.entries;
    num_le = omega arith;
    head_lt = r.head_lt;
    tail_eq = ground (arith, r);
  }

message_at-append_old :
    (ms : List Message) (m : Message) (k : ℕ)
    → k < length ms
    → message_at (ms ++ m ∷ []) k ≡ message_at ms k
message_at-append_old ms m k h = ground (arith, get_or-append ms (m ∷ []) k no_message)

message_at-append_new :
    (ms : List Message) (m : Message) → message_at (ms ++ m ∷ []) (length ms) ≡ m
message_at-append_new [] m = refl
message_at-append_new (x ∷ ms) m = message_at-append_new ms m

pub enqueued-Represents :
    (m : Message) (q : Queue) (ms : List Message)
    → IsComplete m
    → Represents q ms
    → length ms < 10
    → Represents (enqueued m q) (ms ++ m ∷ [])
enqueued-Represents m q ms c r h = record {
  ring = enqueued-IsRing m q r.ring room;
  count = unfold enqueued mark copy in omega (arith, length-append ms (m ∷ []), r.count);
  holds = λ k p. elim (Bool-cases (k == length ms)) [
    | inl e ↦ newest k (ground arith)
    | inr e ↦ older k (ground (arith, length-append ms (m ∷ [])))
  ];
}
  where
    room : q.num < 10
    room = omega (arith, r.count)

    older :
        (k : ℕ)
        → k < length ms
        → Filled (entry_at (enqueued m q) (slot (enqueued m q) k)) (message_at (ms ++ m ∷ []) k)
    older k p =
        subst₂ Filled (sym (entry_at-enqueued_old m q r.ring room k (omega (arith, r.count))))
          (sym (message_at-append_old ms m k p)) (r.holds k p)

    newest :
        (k : ℕ)
        → k ≡ length ms
        → Filled (entry_at (enqueued m q) (slot (enqueued m q) k)) (message_at (ms ++ m ∷ []) k)
    newest k p =
        let at_end : k ≡ q.num = omega (arith, r.count) in
        rw (p, message_at-append_new ms m)
          (subst (λ j. Filled (entry_at (enqueued m q) (slot (enqueued m q) j)) m) (sym at_end ∙ p)
            (rw (entry_at-enqueued_new m q r.ring room)
              (set_occupied-Carries true (copy_elem-Carries m _ c), refl)))

-- An enqueue appends the message to the waiting ones while fewer than ten wait, and is refused
-- with nothing changed otherwise.
pub enqueue_message_lem :
    (m : Message) (q : Queue) (ms : List Message)
    → IsComplete m
    → Represents q ms
    → ((length ms < 10)
        × ((q' : Queue) × (enqueue_message m q ≡ some q') × Represents q' (ms ++ m ∷ [])))
      ⊎ ((length ms ≡ 10) × (enqueue_message m q ≡ none))
enqueue_message_lem m q ms c r = elim (dec_lt (length ms) 10) [
  | yes h ↦ inl (
    h,
    (
      enqueued m q,
      enqueue_message-enqueued m q (omega (arith, r.count)),
      enqueued-Represents m q ms c r h,
    ),
  )
  | no h ↦
      inr (omega (arith, r.ring.num_le, r.count), refused (omega (arith, r.ring.num_le, r.count)))
]
  where
    refused : q.num ≡ 10 → enqueue_message m q ≡ none
    refused e = unfold enqueue_message in ground arith
