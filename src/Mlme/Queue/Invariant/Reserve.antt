-- ===== src/Mlme/Queue/Invariant/Reserve.antt =====
-- The locked part of MlmeEnqueue and MlmeEnqueueForRecv (Module/mlme.c) keeps the invariant.
use rt.Prelude.{ℕ, ◌+◌, ◌≤◌, ◌<◌, ◌≡◌, refl, sym, ap, ◌∙◌, ◌≢◌, ◌⊎◌, inr, some, [], ◌∷◌, arith}
use rt.Prelude.Lists.{get_or, get_or-set_self, get_or-set_ne, length-set, length-append}
use mathlib.Core.Path.{subst}
use native.Mathlib.Decide.{ℕ_discrete}
use rt.Mlme.Queue.{Elem, Queue, Message, blank, entry_at, reserve}
use rt.Mlme.Queue.Fifo.{IsRing, Carries, IsComplete, message_at}
use rt.Mlme.Queue.Drain.{offset}
use rt.Mlme.Queue.Steps.{idle, writing, Shared, writer_at, after_reserve}
use rt.Mlme.Queue.Invariant.{
  CellOk, CellFree, spent, PhaseOk, Inv, CellOk-same, CellFree-same, message_at-append_old,
  message_at-append_new, reserve_inv, phase_bounds, PhaseOk-respects,
}

module _ (s : Shared) (v : Inv s) (m : Message) (i : ℕ) (q' : Queue) (c : IsComplete m)
    (e : reserve s.queue ≡ some (i, q')) where
  abbrev t : Shared
  t = after_reserve s m i q'

  abbrev inv :
      IsRing q'
      × (s.queue.num < 10)
      × (i ≡ s.queue.tail)
      × (q'.num ≡ s.queue.num + 1)
      × (q'.head ≡ s.queue.head)
      × (q'.entry ≡ s.queue.entry)
  inv = reserve_inv s.queue q' i v.ring e

  offset-reserve : (j : ℕ) → offset s.queue j ≡ offset q' j
  offset-reserve j = omega (arith, inv)

  entry-reserve : (j : ℕ) → entry_at s.queue j ≡ entry_at q' j
  entry-reserve j = ap (λ es. get_or es j blank) (sym inv.5)

  at_tail : offset s.queue i ≡ s.queue.num
  at_tail = omega (arith, inv, v.ring)

  tail_only : (j : ℕ) → j < 10 → offset s.queue j ≡ s.queue.num → i ≡ j
  tail_only j h p = omega (arith, inv, v.ring)

  writer-reserve_new : writer_at t i ≡ writing m
  writer-reserve_new =
      get_or-set_self s.writers i (writing m) idle (omega (arith, inv, v.ring, v.places))

  writer-reserve_old : (j : ℕ) → i ≢ j → writer_at s j ≡ writer_at t j
  writer-reserve_old j ne = sym (get_or-set_ne s.writers i j (writing m) idle ne)

  tail_free : CellFree (writer_at s i) (entry_at s.queue i)
  tail_free = v.outside i (omega (arith, inv, v.ring)) (inr (omega (arith, at_tail)))

  older : (j : ℕ) → j < 10 → i ≢ j → offset q' j < q'.num → offset s.queue j < s.queue.num
  older j h ne hi = elim (ℕ_discrete (offset s.queue j) s.queue.num) [
    | yes p ↦ absurd (ne (tail_only j h p))
    | no np ↦ omega (arith, inv, offset-reserve j)
  ]

  message-reserve :
      (j : ℕ)
      → offset s.queue j < s.queue.num
      → message_at s.sent (s.taken + offset s.queue j) ≡ message_at t.sent (s.taken + offset q' j)
  message-reserve j h =
      message_at-append_old s.sent m (s.taken + offset s.queue j) (omega (arith, v.counts))
      ∙ ap (λ o. message_at t.sent (s.taken + o)) (offset-reserve j)

  newest : CellOk (writer_at t i) (entry_at q' i) (message_at t.sent (s.taken + offset q' i))
  newest =
      rw
        (
          writer-reserve_new,
          message_at-append_new s.sent m (s.taken + offset q' i)
              (omega (arith, v.counts, at_tail, offset-reserve i)),
        )
        (refl, c, ap (λ (x : Elem). x.occupied) (sym (entry-reserve i)) ∙ tail_free.1)

  inside-reserve :
      (j : ℕ)
      → j < 10
      → spent s.phase ≤ offset q' j
      → offset q' j < q'.num
      → CellOk (writer_at t j) (entry_at q' j) (message_at t.sent (s.taken + offset q' j))
  inside-reserve j h lo hi = elim (ℕ_discrete i j) [
    | yes p ↦
        subst
          (λ k. CellOk (writer_at t k) (entry_at q' k) (message_at t.sent (s.taken + offset q' k)))
          p newest
    | no ne ↦
        let before : offset s.queue j < s.queue.num = older j h ne hi in
        CellOk-same (writer-reserve_old j ne) (entry-reserve j) (message-reserve j before)
          (v.inside j h (omega (arith, offset-reserve j)) before)
  ]

  outside-reserve :
      (j : ℕ)
      → j < 10
      → (offset q' j < spent s.phase) ⊎ (q'.num ≤ offset q' j)
      → CellFree (writer_at t j) (entry_at q' j)
  outside-reserve j h o =
      CellFree-same
        (writer-reserve_old j (λ p. omega (
          arith,
          inv,
          at_tail,
          offset-reserve j,
          ap (λ k. offset s.queue k) p,
          (phase_bounds s.phase s v.phase).0,
        )))
        (entry-reserve j) (v.outside j h (omega (arith, inv, offset-reserve j)))

  phase-reserve : PhaseOk s.phase t
  phase-reserve =
      PhaseOk-respects s.phase s t
        (record {
          running = refl;
          handled = refl;
          taken = refl;
          head = sym inv.4;
          num = omega (arith, inv);
          held = λ k p pos w o. (
            sym (writer-reserve_old k (λ q. omega (arith, inv, at_tail, p, q, v.ring))) ∙ w,
            ap (λ (x : Elem). x.occupied) (sym (entry-reserve k)) ∙ o,
          );
        })
        v.phase

  pub reserve-Inv : Inv t
  reserve-Inv = record {
    ring = inv.0;
    places = length-set s.writers i (writing m) ∙ v.places;
    counts = omega (arith, length-append s.sent (m ∷ []), v.counts, inv);
    phase = phase-reserve;
    inside = inside-reserve;
    outside = outside-reserve;
    dispatched = λ k h.
        subst (Carries (get_or s.handled k blank))
          (message_at-append_old s.sent m k
            (omega (arith, v.counts, (phase_bounds s.phase s v.phase).1)))
          (v.dispatched k h);
  }
