-- ===== src/Mlme/Queue/Invariant.antt =====
-- The invariant of the shared queue of Module/mlme.c, and what its steps have in common. The
-- children show that each step keeps it.
pub mod Reserve
pub mod Write
pub mod Handle
pub mod Remove
use rt.Prelude.{
  ℕ, zero, suc, ◌+◌, ◌-◌, ◌%◌, ◌≤◌, ◌<◌, ◌≡◌, refl, sym, ap, ◌∙◌, ◌≢◌, ◌⊎◌, inl, inr, Bool, true,
  false, Option, none, some, List, [], ◌∷◌, ◌++◌, arith, ◌==◌, ltb, if◌then◌else◌,
}
use rt.Prelude.Lists.{
  length, get_or, set, get_or-set_self, get_or-set_ne, length-set, get_or-set, length-append,
  get_or-append, length-replicate,
}
use mathlib.Core.Path.{subst, subst₂, subst₃}
use native.Mathlib.Decide.{ℕ_discrete}
use rt.Mlme.Queue.{
  Elem, Queue, Message, blank, entry_at, copy_elem, copy, mark, reserve, queue_init, mlme_get_head,
  mlme_dequeue, set_occupied,
}
use rt.Mlme.Queue.Fifo.{IsRing, Carries, Filled, IsComplete, message_at, no_message}
use rt.Mlme.Queue.Drain.{offset}
use rt.Mlme.Queue.Steps.{
  Writer, idle, writing, copied, Phase, out, looking, acting, freed, Shared, writer_at, start, Step,
  after_reserve, after_copy, after_publish, after_take, after_free, after_advance, NothingReady,
  Reach,
}

-- An element inside the window: written and published, or in the hands of its one writer.
abbrev pub CellOk : Writer → Elem → Message → Type 0
CellOk idle e m = Filled e m
CellOk (writing w) e m = (w ≡ m) × IsComplete m × (e.occupied ≡ false)
CellOk (copied w) e m = (w ≡ m) × Carries e m × (e.occupied ≡ false)

-- An element outside: no writer, and not occupied.
abbrev pub CellFree : Writer → Elem → Type 0
CellFree w e = (w ≡ idle) × (e.occupied ≡ false)

-- The handler has freed the head and has still to remove it.
abbrev pub spent : Phase → ℕ
spent (freed i) = 1
spent _ = 0

-- What each phase of the handler knows.
abbrev pub PhaseOk : Phase → Shared → Type 0
PhaseOk out s = (s.running ≡ false) × (length s.handled ≡ s.taken)
PhaseOk looking s = (s.running ≡ true) × (length s.handled ≡ s.taken)
PhaseOk (acting i) s =
    (s.running ≡ true)
    × (length s.handled ≡ suc s.taken)
    × (i ≡ s.queue.head)
    × (0 < s.queue.num)
    × (writer_at s i ≡ idle)
    × ((entry_at s.queue i).occupied ≡ true)
PhaseOk (freed i) s =
    (s.running ≡ true) × (length s.handled ≡ suc s.taken) × (i ≡ s.queue.head) × (0 < s.queue.num)

pub record Inv (s : Shared) : Type 0 where
  pub ring : IsRing s.queue
  pub places : length s.writers ≡ 10
  pub counts : length s.sent ≡ s.taken + s.queue.num
  pub phase : PhaseOk s.phase s
  pub inside :
      (j : ℕ)
      → j < 10
      → spent s.phase ≤ offset s.queue j
      → offset s.queue j < s.queue.num
      → CellOk (writer_at s j) (entry_at s.queue j) (message_at s.sent (s.taken + offset s.queue j))
  pub outside :
      (j : ℕ)
      → j < 10
      → (offset s.queue j < spent s.phase) ⊎ (s.queue.num ≤ offset s.queue j)
      → CellFree (writer_at s j) (entry_at s.queue j)
  pub dispatched :
      (k : ℕ) → k < length s.handled → Carries (get_or s.handled k blank) (message_at s.sent k)

-- A cell seen through equal parts.
pub CellOk-same :
    {w w' : Writer} {e e' : Elem} {m m' : Message}
    → w ≡ w'
    → e ≡ e'
    → m ≡ m'
    → CellOk w e m
    → CellOk w' e' m'
CellOk-same p q r c = subst₃ CellOk p q r c

pub CellFree-same : {w w' : Writer} {e e' : Elem} → w ≡ w' → e ≡ e' → CellFree w e → CellFree w' e'
CellFree-same p q c = subst₂ CellFree p q c

pub message_at-append_old :
    (ms : List Message) (m : Message) (k : ℕ)
    → k < length ms
    → message_at ms k ≡ message_at (ms ++ m ∷ []) k
message_at-append_old ms m k h = ground (arith, get_or-append ms (m ∷ []) k no_message)

pub message_at-append_new :
    (ms : List Message) (m : Message) (k : ℕ) → k ≡ length ms → message_at (ms ++ m ∷ []) k ≡ m
message_at-append_new ms m k h = ground (arith, get_or-append ms (m ∷ []) k no_message)

-- A successful reservation.
pub reserve_inv :
    (q q' : Queue) (i : ℕ)
    → IsRing q
    → reserve q ≡ some (i, q')
    → IsRing q'
      × (q.num < 10)
      × (i ≡ q.tail)
      × (q'.num ≡ q.num + 1)
      × (q'.head ≡ q.head)
      × (q'.entry ≡ q.entry)
unfolding reserve
reserve_inv q q' i r e = ground (arith, r)

pub phase_bounds :
    (p : Phase) (s : Shared)
    → PhaseOk p s
    → (spent p ≤ s.queue.num) × (length s.handled ≤ s.taken + s.queue.num)
phase_bounds out s h = omega arith
phase_bounds looking s h = omega arith
phase_bounds (acting i) s h = omega arith
phase_bounds (freed i) s h = omega arith

-- What a step of another context has to respect.
pub record Respects (s t : Shared) : Type 0 where
  pub running : s.running ≡ t.running
  pub handled : s.handled ≡ t.handled
  pub taken : s.taken ≡ t.taken
  pub head : s.queue.head ≡ t.queue.head
  pub num : s.queue.num ≤ t.queue.num
  pub held :
      (i : ℕ)
      → i ≡ s.queue.head
      → 0 < s.queue.num
      → writer_at s i ≡ idle
      → (entry_at s.queue i).occupied ≡ true
      → (writer_at t i ≡ idle) × ((entry_at t.queue i).occupied ≡ true)

pub PhaseOk-respects : (p : Phase) (s t : Shared) → Respects s t → PhaseOk p s → PhaseOk p t
PhaseOk-respects out s t r h = (sym r.running ∙ h.0, ap length (sym r.handled) ∙ h.1 ∙ r.taken)
PhaseOk-respects looking s t r h = (sym r.running ∙ h.0, ap length (sym r.handled) ∙ h.1 ∙ r.taken)
PhaseOk-respects (acting i) s t r h =
    let kept = r.held i h.2 h.3 h.4 h.5 in
    (
      sym r.running ∙ h.0,
      ap length (sym r.handled) ∙ h.1 ∙ ap suc r.taken,
      h.2 ∙ r.head,
      omega (arith, r.num, h.3),
      kept.0,
      kept.1,
    )
PhaseOk-respects (freed i) s t r h = (
  sym r.running ∙ h.0,
  ap length (sym r.handled) ∙ h.1 ∙ ap suc r.taken,
  h.2 ∙ r.head,
  omega (arith, r.num, h.3),
)
