-- ===== src/Wpa/Group/Run/Keyed.antt =====
-- Every pairwise key that a run of the handshake adds is derived from the master key.
use rt.Prelude.{
  ℕ, ◌≡◌, ◌≤◌, refl, sym, ap₂, ◌∙◌, arith, Bool, true, false, not, ◌&&◌, ◌||◌, List, [], ◌==◌,
  if◌then◌else◌, Bool-cases, inl, inr,
}
use mathlib.Core.Path.{subst}
use mathlib.Core.Bool.{true≢false}
use rt.Prelude.Lists.{take, drop}
use rt.Wpa.Digest.{Crypto}
use rt.Wpa.Keys.{Port, is_pairwise}
use rt.Wpa.Packet.{packet_of, mic_matches}
use rt.Wpa.State.{Supplicant, Moment, WpaResult, install}
use rt.Wpa.Pair.{
  counted, is_genuine, after_msg1, pair_msg1, wpa_pair_msg1_action, wpa2_pair_msg1_action,
  msg1_action, msg3_action,
}
use rt.Wpa.Pair.Session.{AreFrom, AreFrom-append, Continues, stays-Continues}
use rt.Wpa.Pair.Message3.{refused, passed}
use rt.Wpa.Group.{
  group_packet, group_passes, group_key, group_gtk, after_gtk, answer_group, wpa_group_msg1_action,
  KeyMessage, invalid, pair_msg_1, pair_msg_3, group_msg_1, classify_wpa, classify_wpa2,
  descriptor_matches, replay_refused, to_state, unsecured, on_message, wpa_eapol_key_action,
}
use rt.Wpa.Group.Run.{KeyReach, start, message, session_ptk, IsKeyed}

-- One of two, and one of three with their tests.
if_both {ℓ} :
    {A : Type 0} (P : A → Type ℓ) (b : Bool) (x y : A) → P x → P y → P (if b then x else y)
if_both P true x y px py = px
if_both P false x y px py = py

if_two {ℓ} :
    {A : Type 0} (P : A → Type ℓ) (b : Bool) (x y : A)
    → (b ≡ true → P x)
    → P y
    → P (if b then x else y)
if_two P true x y px py = px refl
if_two P false x y px py = py

if_three {ℓ} :
    {A : Type 0} (P : A → Type ℓ) (a b : Bool) (x y z : A)
    → (a ≡ true → P x)
    → (b ≡ true → P y)
    → P z
    → P (if a then x else if b then y else z)
if_three P true b x y z px py pz = px refl
if_three P false true x y z px py pz = py refl
if_three P false false x y z px py pz = pz

module _ (c : Crypto) (p : Port) where
  -- What a call keeps, whichever state it goes to.
  record IsSound (ptk : List ℕ) (r : WpaResult) : Type 0 where
    keyed : r.0.ptk ≡ session_ptk c p r.0.a_nonce r.0.s_nonce
    derived : AreFrom ptk r.1

  Continues-IsSound :
      (s : Supplicant) (r : WpaResult)
      → s.ptk ≡ session_ptk c p s.a_nonce s.s_nonce
      → Continues s r
      → IsSound (session_ptk c p s.a_nonce s.s_nonce) r
  Continues-IsSound s r h k = record {
    keyed = k.same_ptk ∙ h ∙ ap₂ (session_ptk c p) (sym k.same_a_nonce) (sym k.same_s_nonce);
    derived = subst (λ z. AreFrom z r.1) h k.from_ptk;
  }

  abbrev Held : List ℕ → WpaResult → Type 0
  Held ptk r = IsKeyed c p r.0 × AreFrom ptk r.1

  to_state-Held : (n : ℕ) (ptk : List ℕ) (r : WpaResult) → IsSound ptk r → Held ptk (to_state n r)
  unfolding IsKeyed
  to_state-Held n ptk r h = (inr h.keyed, h.derived)

  unsecured-Held :
      (n : ℕ) (ptk : List ℕ) (r : WpaResult) → IsSound ptk r → Held ptk (unsecured (to_state n r))
  unfolding IsKeyed
  unsecured-Held n ptk r h = (inr h.keyed, h.derived)

  pair_msg1-IsSound :
      (ptk : List ℕ) (wpa2 : Bool) (e : Moment) (msg : List ℕ) (s : Supplicant)
      → IsSound ptk (pair_msg1 wpa2 c p e msg s)
  unfolding pair_msg1 after_msg1 session_ptk AreFrom
  pair_msg1-IsSound ptk wpa2 e msg s =
      if_both (IsSound ptk) e.out_buffer _ _ (record { keyed = refl; derived = tt })
        (record { keyed = refl; derived = tt })

  msg1-IsSound :
      (ptk : List ℕ) (wpa2 : Bool) (e : Moment) (msg : List ℕ) (s : Supplicant)
      → e.pool ≡ true
      → IsSound ptk (msg1_action wpa2 c p e msg s)
  unfolding msg1_action wpa_pair_msg1_action wpa2_pair_msg1_action
  msg1-IsSound ptk true e msg s h = pair_msg1-IsSound ptk true e msg s
  msg1-IsSound ptk false e msg s h =
      rw (h, wpa_pair_msg1_action) (pair_msg1-IsSound ptk false e msg s)

  msg3-IsSound :
      (wpa2 : Bool) (e : Moment) (msg : List ℕ) (s : Supplicant)
      → e.pool ≡ true
      → s.ptk ≡ session_ptk c p s.a_nonce s.s_nonce
      → IsSound (session_ptk c p s.a_nonce s.s_nonce) (msg3_action wpa2 c p e msg s)
  msg3-IsSound wpa2 e msg s m h = elim (Bool-cases (is_genuine c p (packet_of p msg) s)) [
    | inl g ↦
        Continues-IsSound (counted (packet_of p msg) s) (msg3_action wpa2 c p e msg s) h
          (passed c p msg wpa2 e s m g)
    | inr g ↦
        subst (IsSound (session_ptk c p s.a_nonce s.s_nonce)) (sym (refused c p msg wpa2 e s g))
          (Continues-IsSound s (s, []) h (stays-Continues s))
  ]

  group_key-is_pairwise : (packet gtk : List ℕ) → is_pairwise (group_key p packet gtk) ≡ false
  unfolding group_key
  group_key-is_pairwise packet gtk = ground arith

  from_group :
      (ptk packet gtk : List ℕ)
      → is_pairwise (group_key p packet gtk) ≡ true
      → (group_key p packet gtk).material ≡ take 32 (drop 32 ptk)
  from_group ptk packet gtk h = absurd (true≢false (sym h ∙ group_key-is_pairwise packet gtk))

  after_gtk-Continues :
      (packet gtk : List ℕ) (s : Supplicant) → Continues s (after_gtk p packet gtk s)
  unfolding after_gtk install AreFrom
  after_gtk-Continues packet gtk s =
      if_both (Continues s) (p.port_status == 6) _ _
        (record {
          same_counter = refl;
          same_a_nonce = refl;
          same_s_nonce = refl;
          same_ptk = refl;
          same_state = refl;
          from_ptk = (from_group s.ptk packet gtk, tt);
        })
        (record {
          same_counter = refl;
          same_a_nonce = refl;
          same_s_nonce = refl;
          same_ptk = refl;
          same_state = refl;
          from_ptk = tt;
        })

  answer_group-Continues :
      (e : Moment) (packet : List ℕ) (s : Supplicant) → Continues s (answer_group c p e packet s)
  unfolding answer_group install AreFrom
  answer_group-Continues e packet s =
      let gtk = group_gtk c p e packet s in
      let first = after_gtk-Continues packet gtk s in
      if_both (Continues s) (not e.key_pool) _ _ (stays-Continues s) (
        if_both (Continues s) (not e.out_buffer) _ _
          (record {
            same_counter = first.same_counter;
            same_a_nonce = first.same_a_nonce;
            same_s_nonce = first.same_s_nonce;
            same_ptk = first.same_ptk;
            same_state = first.same_state;
            from_ptk = first.from_ptk;
          })
          (record {
            same_counter = first.same_counter;
            same_a_nonce = first.same_a_nonce;
            same_s_nonce = first.same_s_nonce;
            same_ptk = first.same_ptk;
            same_state = first.same_state;
            from_ptk =
                AreFrom-append s.ptk (after_gtk p packet gtk s).1 _ first.from_ptk
                  (from_group s.ptk packet gtk, tt);
          }))

  group-IsSound :
      (e : Moment) (msg : List ℕ) (s : Supplicant)
      → s.ptk ≡ session_ptk c p s.a_nonce s.s_nonce
      → IsSound (session_ptk c p s.a_nonce s.s_nonce) (wpa_group_msg1_action c p e msg s)
  unfolding wpa_group_msg1_action
  group-IsSound e msg s h =
      let packet = group_packet p msg in
      let s1 = counted packet s in
      if_both (IsSound (session_ptk c p s.a_nonce s.s_nonce))
        (e.pool && group_passes p msg packet s.replay_counter) _ _
        (if_both (IsSound (session_ptk c p s.a_nonce s.s_nonce)) (mic_matches c p s.ptk packet) _ _
          (Continues-IsSound s1 (answer_group c p e packet s1) h
            (answer_group-Continues e packet s1))
          (Continues-IsSound s1 (s1, []) h (stays-Continues s1)))
        (Continues-IsSound s (s, []) h (stays-Continues s))

  -- The group action keeps the temporal key.
  pub group-same_ptk :
      (e : Moment) (msg : List ℕ) (s : Supplicant)
      → (wpa_group_msg1_action c p e msg s).0.ptk ≡ s.ptk
  unfolding wpa_group_msg1_action
  group-same_ptk e msg s =
      let packet = group_packet p msg in
      if_both (λ (r : WpaResult). r.0.ptk ≡ s.ptk)
        (e.pool && group_passes p msg packet s.replay_counter) _ _
        (if_both (λ (r : WpaResult). r.0.ptk ≡ s.ptk) (mic_matches c p s.ptk packet) _ _
          (answer_group-Continues e packet (counted packet s)).same_ptk refl)
        refl

  quiet-Held : (ptk : List ℕ) (s : Supplicant) → IsKeyed c p s → Held ptk (s, [])
  unfolding AreFrom
  quiet-Held ptk s h = (h, tt)

  -- Beyond SS_START there is a key.
  keyed_beyond :
      (s : Supplicant)
      → IsKeyed c p s
      → ¬ (s.wpa_state ≤ 1)
      → s.ptk ≡ session_ptk c p s.a_nonce s.s_nonce
  unfolding IsKeyed
  keyed_beyond s (inl low) h = absurd (h low)
  keyed_beyond s (inr e) h = e

  abbrev session : Supplicant → List ℕ
  session s = session_ptk c p s.a_nonce s.s_nonce

  on_message-Held :
      (wpa2 : Bool) (e : Moment) (msg : List ℕ) (m : KeyMessage) (s : Supplicant)
      → e.pool ≡ true
      → IsKeyed c p s
      → Held (session s) (on_message wpa2 c p e msg m s)
  unfolding on_message
  on_message-Held wpa2 e msg invalid s a h = quiet-Held (session s) s h
  on_message-Held wpa2 e msg pair_msg_1 s a h =
      if_three (Held (session s)) (s.wpa_state == 1 || s.wpa_state == 2)
        (s.wpa_state == 3 || s.wpa_state == 4) _ _ _
        (λ t. to_state-Held 2 (session s) _ (msg1-IsSound (session s) wpa2 e msg s a))
        (λ t. unsecured-Held 2 (session s) _ (msg1-IsSound (session s) wpa2 e msg s a))
        (quiet-Held (session s) s h)
  on_message-Held wpa2 e msg pair_msg_3 s a h =
      if_three (Held (session s)) (s.wpa_state == 2) (s.wpa_state == 3 || s.wpa_state == 4) _ _ _
        (λ t.
          to_state-Held 3 (session s) _
            (msg3-IsSound wpa2 e msg s a (keyed_beyond s h (λ low. ground arith))))
        (λ t.
          unsecured-Held 3 (session s) _
            (msg3-IsSound wpa2 e msg s a (keyed_beyond s h (λ low. ground arith))))
        (quiet-Held (session s) s h)
  on_message-Held wpa2 e msg group_msg_1 s a h =
      if_two (Held (session s)) (s.wpa_state == 3 || s.wpa_state == 4) _ _
        (λ t.
          to_state-Held 4 (session s) _
            (group-IsSound e msg s (keyed_beyond s h (λ low. ground arith))))
        (quiet-Held (session s) s h)

  action-Held :
      (e : Moment) (msg : List ℕ) (s : Supplicant)
      → e.pool ≡ true
      → IsKeyed c p s
      → Held (session s) (wpa_eapol_key_action c p e msg s)
  unfolding wpa_eapol_key_action
  action-Held e msg s a h =
      let k = packet_of p msg in
      if_both (Held (session s))
        (not (descriptor_matches p k) || replay_refused p msg k s.replay_counter) _ _
        (quiet-Held (session s) s h)
        (if_three (Held (session s)) (p.port_mode == 7) (p.port_mode == 4) _ _ _
          (λ t. on_message-Held true e msg (classify_wpa2 k) s a h)
          (λ t. on_message-Held false e msg (classify_wpa k) s a h) (quiet-Held (session s) s h))

  reach-IsKeyed : (s0 s : Supplicant) → s0.wpa_state ≤ 1 → KeyReach c p s0 s → IsKeyed c p s
  unfolding IsKeyed
  reach-IsKeyed s0 s h start = inl h
  reach-IsKeyed s0 s h (message {s = s1} e msg run m) =
      (action-Held e msg s1 m (reach-IsKeyed s0 s1 h run)).0

  -- In every run of the handshake that starts in SS_NOTUSE or SS_START and in which kmalloc gives
  -- the action of each message its first block, beyond SS_START the key kept is the one that
  -- WpaCountPTK derives from the master key, the two addresses and the two nonces kept; and every
  -- pairwise key that the next message gives to RTMPWPAAddKeyProc is the temporal key of that one.
  pub pairwise_keys_derived :
      (s0 s : Supplicant) (e : Moment) (msg : List ℕ)
      → s0.wpa_state ≤ 1
      → KeyReach c p s0 s
      → e.pool ≡ true
      → IsKeyed c p s
        × AreFrom (session_ptk c p s.a_nonce s.s_nonce) (wpa_eapol_key_action c p e msg s).1
  pairwise_keys_derived s0 s e msg h run m =
      let keyed = reach-IsKeyed s0 s h run in (keyed, (action-Held e msg s m keyed).1)
