-- ===== src/Mlme/Queue/Invariant/Handle.antt =====
-- The steps of MlmeHandler (Module/mlme.c) up to the dispatch keep the invariant.
use rt.Prelude.{ℕ, ◌+◌, ◌<◌, ◌≡◌, refl, ap, Bool, true, false, some, [], ◌∷◌, ◌++◌, arith}
use rt.Prelude.Lists.{length, get_or, length-append, get_or-append}
use mathlib.Core.Path.{subst, subst₂}
use native.Mathlib.Decide.{dec_lt}
use rt.Mlme.Queue.{Elem, Queue, Message, blank, entry_at, mlme_get_head}
use rt.Mlme.Queue.Fifo.{Carries, message_at}
use rt.Mlme.Queue.Drain.{offset}
use rt.Mlme.Queue.Steps.{
  Writer, idle, writing, copied, Phase, out, looking, acting, freed, Shared, writer_at, after_take,
}
use rt.Mlme.Queue.Invariant.{CellOk, spent, PhaseOk, Inv}

-- With the phase known, the invariant speaks of that phase.
pub phase_at : {s : Shared} {p : Phase} → Inv s → s.phase ≡ p → PhaseOk p s
phase_at {s} v e = subst (λ p. PhaseOk p s) e v.phase

-- A step that moves the handler alone, between phases that hold no freed head.
rephase-Inv :
    (s : Shared) (b : Bool) (p : Phase)
    → Inv s
    → spent s.phase ≡ 0
    → spent p ≡ 0
    → PhaseOk p (record s { running = b; phase = p })
    → Inv (record s { running = b; phase = p })
rephase-Inv s b p v old new ok = record {
  ring = v.ring;
  places = v.places;
  counts = v.counts;
  phase = ok;
  inside = λ j h lo hi. v.inside j h (omega (arith, old)) hi;
  outside = λ j h o. v.outside j h (omega (arith, old, new));
  dispatched = v.dispatched;
}

pub enter-Inv :
    (s : Shared) → Inv s → s.running ≡ false → Inv (record s { running = true; phase = looking })
enter-Inv s v e = go s.phase refl
  where
    go : (p : Phase) → s.phase ≡ p → Inv (record s { running = true; phase = looking })
    go out q = rephase-Inv s true looking v (ap spent q) refl (refl, (phase_at v q).1)
    go looking q = cc ((phase_at v q).0)
    go (acting i) q = cc ((phase_at v q).0)
    go (freed i) q = cc ((phase_at v q).0)

pub leave-Inv :
    (s : Shared) → Inv s → s.phase ≡ looking → Inv (record s { running = false; phase = out })
leave-Inv s v q = rephase-Inv s false out v (ap spent q) refl (refl, (phase_at v q).1)

pub get_head_inv : (q : Queue) (i : ℕ) → mlme_get_head q ≡ some i → (i ≡ q.head) × (0 < q.num)
unfolding mlme_get_head
get_head_inv q i e = ground arith

-- An occupied element of the window has no writer and holds its message.
occupied_cell :
    (w : Writer) (e : Elem) (m : Message)
    → CellOk w e m
    → e.occupied ≡ true
    → (w ≡ idle) × Carries e m
occupied_cell idle e m c o = (refl, c.0)
occupied_cell (writing x) e m c o = cc (c.2)
occupied_cell (copied x) e m c o = cc (c.2)

module _ (s : Shared) (v : Inv s) (i : ℕ) (q : s.phase ≡ looking)
    (e : mlme_get_head s.queue ≡ some i) (o : (entry_at s.queue i).occupied ≡ true) where
  at_head : (i ≡ s.queue.head) × (0 < s.queue.num) × (i < 10) × (offset s.queue i ≡ 0)
  at_head = ground (arith, get_head_inv s.queue i e, v.ring)

  head_cell : (writer_at s i ≡ idle) × Carries (entry_at s.queue i) (message_at s.sent s.taken)
  head_cell =
      let index : s.taken + offset s.queue i ≡ s.taken = omega (arith, at_head) in
      occupied_cell (writer_at s i) (entry_at s.queue i) (message_at s.sent s.taken)
        (subst (λ k. CellOk (writer_at s i) (entry_at s.queue i) (message_at s.sent k)) index
          (v.inside i at_head.2 (omega (arith, ap spent q)) (omega (arith, at_head))))
        o

  dispatched-take :
      (k : ℕ)
      → k < length (s.handled ++ entry_at s.queue i ∷ [])
      → Carries (get_or (s.handled ++ entry_at s.queue i ∷ []) k blank) (message_at s.sent k)
  dispatched-take k h = elim (dec_lt k (length s.handled)) [
    | yes p ↦
        subst (λ x. Carries x (message_at s.sent k))
          (ground (arith, get_or-append s.handled (entry_at s.queue i ∷ []) k blank))
          (v.dispatched k p)
    | no p ↦ last (omega (arith, p, h, length-append s.handled (entry_at s.queue i ∷ [])))
  ]
    where
      last :
          k ≡ length s.handled
          → Carries (get_or (s.handled ++ entry_at s.queue i ∷ []) k blank) (message_at s.sent k)
      last p =
          subst₂ Carries (ground (arith, get_or-append s.handled (entry_at s.queue i ∷ []) k blank))
            (ap (message_at s.sent) (omega (arith, (phase_at v q).1, p))) head_cell.1

  pub take-Inv : Inv (after_take s i)
  take-Inv = record {
    ring = v.ring;
    places = v.places;
    counts = v.counts;
    phase = (
      (phase_at v q).0,
      omega (arith, length-append s.handled (entry_at s.queue i ∷ []), (phase_at v q).1),
      at_head.0,
      at_head.1,
      head_cell.0,
      o,
    );
    inside = λ j h lo hi. v.inside j h (omega (arith, ap spent q)) hi;
    outside = λ j h d. v.outside j h (omega (arith, ap spent q));
    dispatched = dispatched-take;
  }
