-- ===== src/Mlme/Queue/Dequeue.antt =====
-- The consuming side of the ring of Module/mlme.c: MlmeGetHead, MlmeDequeue, and the loop of
-- MlmeRestartStateMachine that empties the queue.
use rt.Prelude.{
  ℕ, suc, ◌+◌, ◌%◌, ◌<◌, ◌≡◌, refl, ap, ◌⊎◌, inl, inr, true, false, none, some, List, [], ◌∷◌,
  arith,
}
use mathlib.Core.Path.{subst}
use rt.Prelude.Lists.{get_or}
use rt.Mlme.Queue.{Queue, Message, blank, entry_at, mlme_get_head, mlme_dequeue}
use rt.Mlme.Queue.Fifo.{slot, Filled, IsRing, Represents}

dequeue-IsRing : (q : Queue) → IsRing q → 0 < q.num → IsRing (mlme_dequeue q).0
unfolding mlme_dequeue
dequeue-IsRing q r h = ground (arith, r)

dequeue_fields :
    (q : Queue)
    → 0 < q.num
    → ((mlme_dequeue q).1 ≡ true)
      × ((mlme_dequeue q).0.num + 1 ≡ q.num)
      × ((mlme_dequeue q).0.head ≡ (q.head + 1) % 10)
      × ((mlme_dequeue q).0.entry ≡ q.entry)
unfolding mlme_dequeue
dequeue_fields q h = ground arith

slot-dequeue : (q : Queue) (k : ℕ) → 0 < q.num → slot (mlme_dequeue q).0 k ≡ slot q (suc k)
slot-dequeue q k h = omega (arith, dequeue_fields q h)

entry_at-dequeue :
    (q : Queue) (k : ℕ)
    → 0 < q.num
    → entry_at (mlme_dequeue q).0 (slot (mlme_dequeue q).0 k) ≡ entry_at q (slot q (suc k))
entry_at-dequeue q k h =
    rw (slot-dequeue q k h) (ap (λ es. get_or es (slot q (suc k)) blank) (dequeue_fields q h).3)

dequeue-Represents :
    (q : Queue) (m : Message) (ms : List Message)
    → Represents q (m ∷ ms)
    → Represents (mlme_dequeue q).0 ms
dequeue-Represents q m ms r = record {
  ring = dequeue-IsRing q r.ring some_left;
  count = omega (arith, r.count, dequeue_fields q some_left);
  holds = λ k p. rw (entry_at-dequeue q k some_left) (r.holds (suc k) (omega arith));
}
  where
    some_left : 0 < q.num
    some_left = omega (arith, r.count)

-- The head is the oldest waiting message and a dequeue removes it; on an empty queue both say so
-- and change nothing.
pub head-dequeue_lem :
    (q : Queue) (ms : List Message)
    → Represents q ms
    → ((ms ≡ []) × (mlme_get_head q ≡ none) × (mlme_dequeue q ≡ (q, false)))
      ⊎ ((m : Message) × (rest : List Message) × (ms ≡ m ∷ rest)
          × ((i : ℕ) × (mlme_get_head q ≡ some i) × Filled (entry_at q i) m)
          × ((mlme_dequeue q).1 ≡ true)
          × Represents (mlme_dequeue q).0 rest)
unfolding mlme_get_head
head-dequeue_lem q [] r = inl (refl, ground (arith, r.count), empty (omega (arith, r.count)))
  where
    empty : q.num ≡ 0 → mlme_dequeue q ≡ (q, false)
    empty e = unfold mlme_dequeue in ground arith
head-dequeue_lem q (m ∷ rest) r = inr (
  m,
  rest,
  refl,
  (q.head, ground (arith, r.count), at_head),
  (dequeue_fields q (omega (arith, r.count))).0,
  dequeue-Represents q m rest r,
)
  where
    at_head : Filled (entry_at q q.head) m
    at_head =
        let e : slot q 0 ≡ q.head = omega (arith, r.ring.head_lt) in
        subst (λ j. Filled (entry_at q j) m) e (r.holds 0 (omega arith))
