-- ===== src/Mlme/Queue/Steps.antt =====
-- The queue of Module/mlme.c shared by several contexts, as a step relation. An enqueue is three
-- steps of its context: the part under the lock, the copy of the message, and the write of
-- `Occupied`. MlmeHandler is a loop of four steps; the enqueues that its actions make, or that an
-- interrupt makes meanwhile, are steps of their own and may fall between any two of these.
use rt.Prelude.{ℕ, ◌+◌, ◌<◌, ◌≡◌, ◌⊎◌, Bool, true, false, none, some, List, [], ◌∷◌, ◌++◌}
use rt.Prelude.Lists.{get_or, set, replicate}
use rt.Mlme.Queue.{
  Elem, Queue, Message, queue_init, entry_at, reserve, copy, mark, mlme_get_head, mlme_dequeue,
}
use rt.Mlme.Queue.Fifo.{IsComplete}

-- How far the context that reserved a slot has come.
pub data Writer : Type 0 where
  idle : Writer
  writing : Message → Writer
  copied : Message → Writer

-- Where the one running MlmeHandler stands; the number is the element that `Elem` points to.
pub data Phase : Type 0 where
  out : Phase
  looking : Phase
  acting : ℕ → Phase
  freed : ℕ → Phase

-- `running` is `pAd->Mlme.Running`, and `writers` has one place for each slot. `sent`, `handled`
-- and `taken` are history: the messages whose slot was reserved, the elements as they stood when
-- they were dispatched, and the count of dequeues.
pub record Shared : Type 0 where
  pub queue : Queue
  pub running : Bool
  pub phase : Phase
  pub writers : List Writer
  pub sent : List Message
  pub handled : List Elem
  pub taken : ℕ

abbrev pub writer_at : Shared → ℕ → Writer
writer_at s j = get_or s.writers j idle

unfoldable pub start : Shared
start = record {
  queue = queue_init;
  running = false;
  phase = out;
  writers = replicate 10 idle;
  sent = [];
  handled = [];
  taken = 0;
}

-- The loop of MlmeHandler ends: nothing waits, or the head is still being written.
abbrev pub NothingReady : Queue → Type 0
NothingReady q =
    (mlme_get_head q ≡ none)
    ⊎ ((i : ℕ) × (mlme_get_head q ≡ some i) × ((entry_at q i).occupied ≡ false))

abbrev pub after_reserve : Shared → Message → ℕ → Queue → Shared
after_reserve s m i q' = record s {
  queue = q';
  writers = set s.writers i (writing m);
  sent = s.sent ++ m ∷ [];
}

abbrev pub after_copy : Shared → ℕ → Message → Shared
after_copy s i m = record s { queue = copy i m s.queue; writers = set s.writers i (copied m) }

abbrev pub after_publish : Shared → ℕ → Shared
after_publish s i = record s { queue = mark i true s.queue; writers = set s.writers i idle }

abbrev pub after_take : Shared → ℕ → Shared
after_take s i = record s { phase = acting i; handled = s.handled ++ entry_at s.queue i ∷ [] }

abbrev pub after_free : Shared → ℕ → Shared
after_free s i = record s { queue = mark i false s.queue; phase = freed i }

abbrev pub after_advance : Shared → Shared
after_advance s = record s {
  queue = (mlme_dequeue s.queue).0;
  phase = looking;
  taken = s.taken + 1;
}

pub data Step (s : Shared) : Shared → Type 0 where
  reserve_slot :
      (m : Message) (i : ℕ) (q' : Queue)
      → IsComplete m
      → reserve s.queue ≡ some (i, q')
      → Step s (after_reserve s m i q')
  copy_message :
      (i : ℕ) (m : Message) → i < 10 → writer_at s i ≡ writing m → Step s (after_copy s i m)
  publish : (i : ℕ) (m : Message) → i < 10 → writer_at s i ≡ copied m → Step s (after_publish s i)
  enter : s.running ≡ false → Step s (record s { running = true; phase = looking })
  take_head :
      (i : ℕ)
      → s.phase ≡ looking
      → mlme_get_head s.queue ≡ some i
      → (entry_at s.queue i).occupied ≡ true
      → Step s (after_take s i)
  leave :
      s.phase ≡ looking → NothingReady s.queue → Step s (record s { running = false; phase = out })
  free : (i : ℕ) → s.phase ≡ acting i → Step s (after_free s i)
  advance : (i : ℕ) → s.phase ≡ freed i → Step s (after_advance s)

pub data Reach (s : Shared) : Shared → Type 0 where
  here : Reach s s
  next : {t u : Shared} → Reach s t → Step t u → Reach s u
