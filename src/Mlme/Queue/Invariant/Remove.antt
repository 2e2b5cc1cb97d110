-- ===== src/Mlme/Queue/Invariant/Remove.antt =====
-- The end of a round of MlmeHandler (Module/mlme.c), where the element is freed and the head
-- advances, keeps the invariant.
use rt.Prelude.{ℕ, ◌+◌, ◌%◌, ◌≤◌, ◌<◌, ◌≡◌, refl, sym, ap, ◌∙◌, ◌≢◌, ◌⊎◌, inl, inr, false, arith}
use rt.Prelude.Lists.{get_or, get_or-set_self, get_or-set_ne, length-set}
use mathlib.Core.Path.{subst}
use rt.Mlme.Queue.{Elem, blank, entry_at, mark, mlme_dequeue}
use rt.Mlme.Queue.Fifo.{IsRing, message_at}
use rt.Mlme.Queue.Drain.{offset}
use rt.Mlme.Queue.Steps.{Phase, acting, freed, Shared, writer_at, after_free, after_advance}
use rt.Mlme.Queue.Invariant.{CellOk, CellFree, spent, PhaseOk, Inv, CellOk-same, CellFree-same}

phase_at : {s : Shared} {p : Phase} → Inv s → s.phase ≡ p → PhaseOk p s
phase_at {s} v e = subst (λ p. PhaseOk p s) e v.phase

module _ (s : Shared) (v : Inv s) (i : ℕ) (q : s.phase ≡ acting i) where
  abbrev held : PhaseOk (acting i) s
  held = phase_at v q

  abbrev t : Shared
  t = after_free s i

  entry-free_new : (entry_at t.queue i).occupied ≡ false
  unfolding mark
  entry-free_new =
      ap (λ (x : Elem). x.occupied)
        (get_or-set_self s.queue.entry i _ blank (omega (arith, held, v.ring)))

  entry-free_old : (j : ℕ) → i ≢ j → entry_at s.queue j ≡ entry_at t.queue j
  unfolding mark
  entry-free_old j ne = sym (get_or-set_ne s.queue.entry i j _ blank ne)

  num-free : t.queue.num ≡ s.queue.num
  unfolding mark
  num-free = refl

  ring-free : IsRing t.queue
  unfolding mark
  ring-free = record {
    entries = length-set s.queue.entry i _ ∙ v.ring.entries;
    num_le = v.ring.num_le;
    head_lt = v.ring.head_lt;
    tail_eq = v.ring.tail_eq;
  }

  at_head : offset s.queue i ≡ 0
  at_head = omega (arith, held, v.ring)

  head_only : (j : ℕ) → j < 10 → offset s.queue j ≡ 0 → i ≡ j
  head_only j h e = omega (arith, held, v.ring)

  inside-free :
      (j : ℕ)
      → j < 10
      → 1 ≤ offset s.queue j
      → offset s.queue j < s.queue.num
      → CellOk (writer_at s j) (entry_at t.queue j) (message_at s.sent (s.taken + offset s.queue j))
  inside-free j h lo hi =
      CellOk-same refl
        (entry-free_old j (λ p. omega (arith, at_head, ap (λ k. offset s.queue k) p))) refl
        (v.inside j h (omega (arith, ap spent q)) hi)

  outside-free :
      (j : ℕ)
      → j < 10
      → (offset s.queue j < 1) ⊎ (s.queue.num ≤ offset s.queue j)
      → CellFree (writer_at s j) (entry_at t.queue j)
  outside-free j h (inl lo) =
      let p : i ≡ j = head_only j h (omega arith) in
      subst (λ k. CellFree (writer_at s k) (entry_at t.queue k)) p (held.4, entry-free_new)
  outside-free j h (inr hi) =
      CellFree-same refl
        (entry-free_old j (λ p. omega (arith, at_head, held, ap (λ k. offset s.queue k) p)))
        (v.outside j h (inr hi))

  pub free-Inv : Inv t
  free-Inv = record {
    ring = ring-free;
    places = v.places;
    counts = v.counts ∙ ap (λ n. s.taken + n) (sym num-free);
    phase = (held.0, held.1, unfold mark in held.2, unfold mark in held.3);
    inside = unfold mark in inside-free;
    outside = unfold mark in outside-free;
    dispatched = v.dispatched;
  }

module _ (s : Shared) (v : Inv s) (i : ℕ) (q : s.phase ≡ freed i) where
  abbrev at_end : PhaseOk (freed i) s
  at_end = phase_at v q

  abbrev u : Shared
  u = after_advance s

  ring-advance : IsRing u.queue
  unfolding mlme_dequeue
  ring-advance = ground (arith, at_end, v.ring)

  queue-advance :
      (u.queue.num + 1 ≡ s.queue.num)
      × (u.queue.head ≡ (s.queue.head + 1) % 10)
      × (u.queue.entry ≡ s.queue.entry)
  unfolding mlme_dequeue
  queue-advance = ground (arith, at_end)

  entry-advance : (j : ℕ) → entry_at s.queue j ≡ entry_at u.queue j
  entry-advance j = ap (λ es. get_or es j blank) (sym queue-advance.2)

  -- The next waiting message is one nearer to the head; the old head is the farthest slot.
  offset-advance :
      (j : ℕ)
      → j < 10
      → ((offset s.queue j ≡ offset u.queue j + 1) × (offset u.queue j < 9))
        ⊎ ((offset s.queue j ≡ 0) × (offset u.queue j ≡ 9))
  offset-advance j h = omega (arith, queue-advance, v.ring)

  inside-advance :
      (j : ℕ)
      → j < 10
      → offset u.queue j < u.queue.num
      → CellOk (writer_at s j) (entry_at u.queue j) (message_at s.sent (u.taken + offset u.queue j))
  inside-advance j h hi =
      CellOk-same refl (entry-advance j)
        (ap (message_at s.sent) (omega (arith, offset-advance j h, queue-advance, v.ring)))
        (v.inside j h (omega (arith, offset-advance j h, queue-advance, v.ring, ap spent q))
          (omega (arith, offset-advance j h, queue-advance, v.ring)))

  outside-advance :
      (j : ℕ)
      → j < 10
      → u.queue.num ≤ offset u.queue j
      → CellFree (writer_at s j) (entry_at u.queue j)
  outside-advance j h hi =
      CellFree-same refl (entry-advance j)
        (v.outside j h (omega (arith, offset-advance j h, queue-advance, v.ring, ap spent q)))

  pub advance-Inv : Inv u
  advance-Inv = record {
    ring = ring-advance;
    places = v.places;
    counts = omega (arith, v.counts, queue-advance);
    phase = (at_end.0, omega (arith, at_end));
    inside = λ j h lo hi. inside-advance j h hi;
    outside = λ j h o. outside-advance j h (omega arith);
    dispatched = v.dispatched;
  }
