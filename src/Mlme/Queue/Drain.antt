-- ===== src/Mlme/Queue/Drain.antt =====
-- The loop of MlmeRestartStateMachine (Module/mlme.c) that empties the queue.
use rt.Prelude.{
  ℕ, zero, suc, ◌+◌, ◌-◌, ◌%◌, ◌<◌, ◌≡◌, refl, ◌∙◌, false, arith, ◌==◌, ltb, if◌then◌else◌,
}
use rt.Prelude.Lists.{set, length-set, get_or-set}
use rt.Mlme.Queue.{Queue, blank, entry_at, drop_head, drain, set_occupied}
use rt.Mlme.Queue.Fifo.{IsRing}

-- How far behind the head a slot lies.
abbrev pub offset : Queue → ℕ → ℕ
offset q j = (j + 10 - q.head) % 10

drop_head_fields :
    (q : Queue)
    → IsRing q
    → 0 < q.num
    → IsRing (drop_head q)
      × ((drop_head q).num + 1 ≡ q.num)
      × ((drop_head q).head ≡ (q.head + 1) % 10)
      × ((drop_head q).entry ≡ set q.entry q.head (set_occupied false (entry_at q q.head)))
unfolding drop_head
drop_head_fields q r h =
    ground (arith, r, length-set q.entry q.head (set_occupied false (entry_at q q.head)))

entry_at-drop_head :
    (q : Queue) (j : ℕ)
    → IsRing q
    → 0 < q.num
    → entry_at (drop_head q) j
      ≡ (if q.head == j then set_occupied false (entry_at q j) else entry_at q j)
entry_at-drop_head q j r h =
    rw (drop_head_fields q r h).3 (
      ground (arith, r, get_or-set q.entry q.head j (set_occupied false (entry_at q q.head)) blank))

drain_step : (n : ℕ) (q : Queue) → 0 < q.num → drain (suc n) q ≡ drain n (drop_head q)
unfolding drain
drain_step n q h = ground arith

-- The ring is empty, the slots that waited are marked free, and nothing else changed.
abbrev pub Drained : Queue → Queue → Type 0
Drained q q' =
    IsRing q'
    × (q'.num ≡ 0)
    × (q'.tail ≡ q.tail)
    × ((j : ℕ)
        → j < 10
        → entry_at q' j
          ≡ (if ltb (offset q j) q.num then set_occupied false (entry_at q j) else entry_at q j))

drop_head_tail : (q : Queue) → (drop_head q).tail ≡ q.tail
unfolding drop_head
drop_head_tail q = ground arith

Drained-step : (q q' : Queue) → IsRing q → 0 < q.num → Drained (drop_head q) q' → Drained q q'
Drained-step q q' r h d = (d.0, d.1, d.2 ∙ drop_head_tail q, λ j p. point j p (d.3 j p))
  where
    point :
        (j : ℕ)
        → j < 10
        → entry_at q' j ≡ (
            if ltb (offset (drop_head q) j) (drop_head q).num
            then set_occupied false (entry_at (drop_head q) j)
            else entry_at (drop_head q) j)
        → entry_at q' j
          ≡ (if ltb (offset q j) q.num then set_occupied false (entry_at q j) else entry_at q j)
    point j p e = ground (
      arith,
      r,
      (drop_head_fields q r h).1,
      (drop_head_fields q r h).2,
      entry_at-drop_head q j r h,
    )

pub drain-Drained : (n : ℕ) (q : Queue) → IsRing q → q.num ≡ n → Drained q (drain n q)
drain-Drained zero q r e = unfold drain in (r, e, refl, λ j h. ground arith)
drain-Drained (suc n) q r e = rw (drain_step n q (omega arith)) (
    Drained-step q (drain n (drop_head q)) r (omega arith) (
      drain-Drained n (drop_head q) (drop_head_fields q r (omega arith)).0
        (omega (arith, (drop_head_fields q r (omega arith)).1))))

-- With as many rounds as messages the loop of MlmeRestartStateMachine ends with an empty ring in
-- which exactly the slots that waited are marked free, and nothing else of an element is touched.
pub drain_lem :
    (q : Queue) (j : ℕ)
    → IsRing q
    → j < 10
    → IsRing (drain q.num q)
      × ((drain q.num q).num ≡ 0)
      × (entry_at (drain q.num q) j
          ≡ (if ltb (offset q j) q.num then set_occupied false (entry_at q j) else entry_at q j))
drain_lem q j r h = let d = drain-Drained q.num q r refl in (d.0, d.1, d.3 j h)
