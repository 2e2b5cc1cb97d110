-- ===== src/Mlme/Queue/Invariant/Write.antt =====
-- The copy and the publication of a message (Module/mlme.c, the end of MlmeEnqueue and of
-- MlmeEnqueueForRecv), made outside the lock, keep the invariant.
use rt.Prelude.{ℕ, ◌+◌, ◌≤◌, ◌<◌, ◌≡◌, refl, sym, ap, ◌∙◌, ◌≢◌, ◌⊎◌, true, arith}
use rt.Prelude.Lists.{set, get_or-set_self, get_or-set_ne, length-set}
use mathlib.Core.Path.{subst}
use native.Mathlib.Decide.{ℕ_discrete}
use rt.Mlme.Queue.{Elem, Message, blank, entry_at, copy_elem, copy, mark, set_occupied}
use rt.Mlme.Queue.Fifo.{
  Carries, IsComplete, message_at, copy_elem-Carries, copy_elem-occupied, set_occupied-Carries,
}
use rt.Mlme.Queue.Drain.{offset}
use rt.Mlme.Queue.Steps.{
  Writer, idle, writing, copied, Shared, writer_at, after_copy, after_publish,
}
use rt.Mlme.Queue.Invariant.{
  CellOk, CellFree, spent, Inv, CellOk-same, CellFree-same, PhaseOk-respects,
}

-- A write to the slot of a busy writer, which moves the writer on.
module _ (s : Shared) (v : Inv s) (i : ℕ) (w : Writer) (e : Elem) (h : i < 10)
    (busy : writer_at s i ≢ idle)
    (moves : (m : Message) → CellOk (writer_at s i) (entry_at s.queue i) m → CellOk w e m) where
  abbrev touched : Shared
  touched = record s {
    queue = record s.queue { entry = set s.queue.entry i e };
    writers = set s.writers i w;
  }
    where
      open s use {queue}

  writer-touched_new : writer_at touched i ≡ w
  writer-touched_new = get_or-set_self s.writers i w idle (omega (arith, v.places))

  writer-touched_old : (j : ℕ) → i ≢ j → writer_at s j ≡ writer_at touched j
  writer-touched_old j ne = sym (get_or-set_ne s.writers i j w idle ne)

  entry-touched_new : entry_at touched.queue i ≡ e
  entry-touched_new = get_or-set_self s.queue.entry i e blank (omega (arith, v.ring))

  entry-touched_old : (j : ℕ) → i ≢ j → entry_at s.queue j ≡ entry_at touched.queue j
  entry-touched_old j ne = sym (get_or-set_ne s.queue.entry i j e blank ne)

  abbrev CellAt : Shared → ℕ → Type 0
  CellAt t j =
      CellOk (writer_at t j) (entry_at t.queue j) (message_at s.sent (s.taken + offset s.queue j))

  inside-touched :
      (j : ℕ)
      → j < 10
      → spent s.phase ≤ offset s.queue j
      → offset s.queue j < s.queue.num
      → CellAt touched j
  inside-touched j p lo hi = elim (ℕ_discrete i j) [
    | yes q ↦ subst (CellAt touched) q (
        rw (writer-touched_new, entry-touched_new)
          (moves _ (subst (CellAt s) (sym q) (v.inside j p lo hi))))
    | no ne ↦
        CellOk-same (writer-touched_old j ne) (entry-touched_old j ne) refl (v.inside j p lo hi)
  ]

  elsewhere : (j : ℕ) → writer_at s j ≡ idle → i ≢ j
  elsewhere j f q = busy (ap (writer_at s) q ∙ f)

  outside-touched :
      (j : ℕ)
      → j < 10
      → (offset s.queue j < spent s.phase) ⊎ (s.queue.num ≤ offset s.queue j)
      → CellFree (writer_at touched j) (entry_at touched.queue j)
  outside-touched j p o =
      let was = v.outside j p o in
      let ne = elsewhere j was.0 in
      CellFree-same (writer-touched_old j ne) (entry-touched_old j ne) was

  pub touched-Inv : Inv touched
  touched-Inv = record {
    ring = record {
      entries = length-set s.queue.entry i e ∙ v.ring.entries;
      num_le = v.ring.num_le;
      head_lt = v.ring.head_lt;
      tail_eq = v.ring.tail_eq;
    };
    places = length-set s.writers i w ∙ v.places;
    counts = v.counts;
    phase =
        PhaseOk-respects s.phase s touched
          (record {
            running = refl;
            handled = refl;
            taken = refl;
            head = refl;
            num = omega arith;
            held = λ k p pos f o. (
              sym (writer-touched_old k (elsewhere k f)) ∙ f,
              ap (λ (x : Elem). x.occupied) (sym (entry-touched_old k (elsewhere k f))) ∙ o,
            );
          })
          v.phase;
    inside = inside-touched;
    outside = outside-touched;
    dispatched = v.dispatched;
  }

copy_moves :
    (m m' : Message) (e : Elem) → CellOk (writing m) e m' → CellOk (copied m) (copy_elem m e) m'
copy_moves m m' e c = (
  c.0,
  subst (Carries (copy_elem m e)) c.0 (copy_elem-Carries m e (subst IsComplete (sym c.0) c.1)),
  copy_elem-occupied m e ∙ c.2,
)

publish_moves :
    (m m' : Message) (e : Elem) → CellOk (copied m) e m' → CellOk idle (set_occupied true e) m'
publish_moves m m' e c = (set_occupied-Carries true c.1, refl)

pub copy-Inv :
    (s : Shared) (i : ℕ) (m : Message)
    → Inv s
    → i < 10
    → writer_at s i ≡ writing m
    → Inv (after_copy s i m)
unfolding copy
copy-Inv s i m v h e =
    touched-Inv s v i (copied m) (copy_elem m (entry_at s.queue i)) h (λ p. cc)
      λ m' c.
        copy_moves m m' (entry_at s.queue i) (subst (λ w. CellOk w (entry_at s.queue i) m') e c)

pub publish-Inv :
    (s : Shared) (i : ℕ) (m : Message)
    → Inv s
    → i < 10
    → writer_at s i ≡ copied m
    → Inv (after_publish s i)
unfolding mark
publish-Inv s i m v h e =
    touched-Inv s v i idle (set_occupied true (entry_at s.queue i)) h (λ p. cc)
      λ m' c.
        publish_moves m m' (entry_at s.queue i) (subst (λ w. CellOk w (entry_at s.queue i) m') e c)
