-- ===== src/Scan/Channels.antt =====
-- The order in which a scan (Module/sync.c) goes through the channels.
use rt.Prelude.{
  ℕ, zero, suc, ◌+◌, ◌-◌, ◌≤◌, ◌<◌, ◌≡◌, refl, sym, ap, ◌∙◌, List, [], ◌∷◌, ◌==◌, false,
  if◌then◌else◌, arith, ◌≢◌,
}
use native.Mathlib.Decide.{dec_lt}
use rt.Prelude.Lists.{length, get_or, get_or_beyond, drop}
use rt.Scan.{first_channel, next_from, next_channel}

-- No two channels of the list are equal.
abbrev pub Distinct : List ℕ → Type 0
Distinct list =
    (i j : ℕ) → i < length list → j < length list → get_or list i 0 ≡ get_or list j 0 → i ≡ j

next_from-get_or :
    (left i k : ℕ) (list : List ℕ)
    → Distinct list
    → i + left + 1 ≡ length list
    → i ≤ k
    → k < length list
    → next_from left i list (get_or list k 0) ≡ get_or list (k + 1) 0
unfolding next_from
next_from-get_or zero i k list d e p q = sym (get_or_beyond list (k + 1) 0 (omega arith))
next_from-get_or (suc left) i k list d e p q = elim (dec_lt i k) [
  | yes h ↦ ground (
    arith,
    d k i q (omega arith),
    next_from-get_or left (i + 1) k list d (omega arith) (omega arith) q,
  )
  | no h ↦
      let same : i ≡ k = omega arith in
      ground
        (arith, ap (λ (j : ℕ). get_or list j 0) same, ap (λ (j : ℕ). get_or list (j + 1) 0) same)
]

-- From each channel of a list of different channels NextChannel goes to the one behind it in the
-- list, and from the last to 0, which ends the scan.
pub next_channel_lem :
    (list : List ℕ) (k : ℕ)
    → Distinct list
    → k < length list
    → next_channel list (get_or list k 0) ≡ get_or list (k + 1) 0
unfolding next_channel
next_channel_lem list k d h =
    next_from-get_or (length list - 1) 0 k list d (omega arith) (omega arith) h

-- The channels visited from one on, until NextChannel gives 0, with the rounds left.
unfoldable pub visits : ℕ → List ℕ → ℕ → List ℕ
visits zero list channel = []
visits (suc left) list channel =
    let rest = visits left list (next_channel list channel) in
    if channel == 0 then [] else channel ∷ rest

drop-get_or :
    (list : List ℕ) (k : ℕ) → k < length list → drop k list ≡ get_or list k 0 ∷ drop (suc k) list
drop-get_or [] k h = absurd (omega arith)
drop-get_or (x ∷ list) zero h = refl
drop-get_or (x ∷ list) (suc k) h = drop-get_or list k (omega arith)

drop_beyond : (list : List ℕ) (k : ℕ) → length list ≤ k → drop k list ≡ []
drop_beyond [] zero h = refl
drop_beyond [] (suc k) h = refl
drop_beyond (x ∷ list) zero h = absurd (omega arith)
drop_beyond (x ∷ list) (suc k) h = drop_beyond list k (omega arith)

visits-drop :
    (n k : ℕ) (list : List ℕ)
    → Distinct list
    → ((i : ℕ) → i < length list → get_or list i 0 ≢ 0)
    → length list ≤ k + n
    → visits n list (get_or list k 0) ≡ drop k list
unfolding visits
visits-drop zero k list d z h = sym (drop_beyond list k (omega arith))
visits-drop (suc n) k list d z h = elim (dec_lt k (length list)) [
  | yes p ↦
      let behind : k + 1 ≡ suc k = omega arith in
      let rest : visits n list (next_channel list (get_or list k 0)) ≡ drop (suc k) list =
        ap (visits n list) (next_channel_lem list k d p)
        ∙ visits-drop n (k + 1) list d z (omega arith)
        ∙ ap (λ (j : ℕ). drop j list) behind in
      let nonzero : (get_or list k 0 == 0) ≡ false = ground (arith, z k p) in
      rw nonzero (ap (λ t. get_or list k 0 ∷ t) rest ∙ sym (drop-get_or list k p))
  | no p ↦
      let past : get_or list k 0 ≡ 0 = get_or_beyond list k 0 (omega arith) in
      rw past (sym (drop_beyond list k (omega arith)))
]

-- A scan that starts with FirstChannel and goes on with NextChannel until it gives 0 visits exactly
-- the channels of the list, each once and in its order, when they are different and none is 0; as
-- many rounds as channels are enough.
pub visits_lem :
    (list : List ℕ)
    → Distinct list
    → ((i : ℕ) → i < length list → get_or list i 0 ≢ 0)
    → visits (length list + 1) list (first_channel list) ≡ list
unfolding first_channel
visits_lem list d z = visits-drop (length list + 1) 0 list d z (omega arith)
