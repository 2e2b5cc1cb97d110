-- ===== src/Mlme/Queue/Enqueue.antt =====
-- MlmeEnqueue (Module/mlme.c) as a whole, on every branch.
use rt.Prelude.{
  ℕ, ◌≤◌, ◌<◌, ◌≡◌, refl, ◌⊎◌, inl, inr, Bool, true, false, List, [], ◌∷◌, ◌++◌, arith, none, some,
}
use rt.Prelude.Lists.{length}
use native.Mathlib.Decide.{dec_lt}
use rt.Mlme.Queue.{
  Queue, Message, plain_message, mlme_enqueue, enqueue_message, max_len_of_mlme_buffer,
}
use rt.Mlme.Queue.Fifo.{Represents, enqueue_message_lem}

-- The call went through: the message waits behind the others.
abbrev pub Accepted : Message → List Message → Queue × Bool → Type 0
Accepted m ms r = (r.1 ≡ true) × Represents r.0 (ms ++ m ∷ [])

module _ (machine msg_type msg_len : ℕ) (msg : List ℕ) (q : Queue) (ms : List Message) where
  m : Message
  m = plain_message machine msg_type msg_len msg

  stored :
      (q' : Queue)
      → msg_len ≤ 2048
      → enqueue_message (plain_message machine msg_type msg_len msg) q ≡ some q'
      → mlme_enqueue false machine msg_type msg_len msg q ≡ (q', true)
  unfolding mlme_enqueue
  stored q' h e = ground arith

  refused :
      msg_len ≤ 2048
      → enqueue_message (plain_message machine msg_type msg_len msg) q ≡ none
      → mlme_enqueue false machine msg_type msg_len msg q ≡ (q, false)
  unfolding mlme_enqueue
  refused h e = ground arith

  too_long : 2048 < msg_len → mlme_enqueue false machine msg_type msg_len msg q ≡ (q, false)
  unfolding mlme_enqueue
  too_long h = ground arith

-- MlmeEnqueue appends the message to the waiting ones and returns TRUE when the driver is not
-- halting, the length fits the buffer and fewer than ten messages wait; when one of these fails
-- it returns FALSE and leaves the queue as it was.
pub mlme_enqueue_lem :
    (halting : Bool) (machine msg_type msg_len : ℕ) (msg : List ℕ) (q : Queue) (ms : List Message)
    → msg_len ≤ length msg
    → Represents q ms
    → ((halting ≡ false)
        × (msg_len ≤ max_len_of_mlme_buffer)
        × (length ms < 10)
        × Accepted
            (plain_message machine msg_type msg_len msg)
            ms
            (mlme_enqueue halting machine msg_type msg_len msg q))
      ⊎ (((halting ≡ true) ⊎ ((max_len_of_mlme_buffer < msg_len) ⊎ (length ms ≡ 10)))
          × (mlme_enqueue halting machine msg_type msg_len msg q ≡ (q, false)))
mlme_enqueue_lem true machine msg_type msg_len msg q ms c r =
    inr (inl refl, unfold mlme_enqueue in refl)
mlme_enqueue_lem false machine msg_type msg_len msg q ms c r =
    elim (dec_lt max_len_of_mlme_buffer msg_len) [
      | yes h ↦ inr (inr (inl h), too_long machine msg_type msg_len msg q ms h)
      | no h ↦ elim (enqueue_message_lem (plain_message machine msg_type msg_len msg) q ms c r) [
        | inl (room, (q', e, r')) ↦ inl (
          refl,
          omega arith,
          room,
          rw (stored machine msg_type msg_len msg q ms q' (omega arith) e) (refl, r'),
        )
        | inr (full, e) ↦
            inr (inr (inr full), refused machine msg_type msg_len msg q ms (omega arith) e)
      ]
    ]
