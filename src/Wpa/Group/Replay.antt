-- ===== src/Wpa/Group/Replay.antt =====
-- A group message that comes again (Module/wpa.c, WpaGroupMsg1Action).
use rt.Prelude.{
  ℕ, ◌≡◌, refl, ap, ap₂, ◌∙◌, arith, Bool, true, false, not, ◌&&◌, ◌==◌, List, [], ◌∷◌, ◌++◌,
  if◌then◌else◌,
}
use rt.Auth.Frame.{make_outgoing_frame}
use rt.Wpa.Digest.{Crypto}
use rt.Wpa.Keys.{Port}
use rt.Wpa.Packet.{is_qos, mic_matches, wpa_make_8023_hdr, signed_packet}
use rt.Wpa.State.{Supplicant, Moment, WpaResult, to_station, add_key}
use rt.Wpa.Pair.{counted}
use rt.Wpa.Group.{
  group_packet, group_passes, group_key, group_gtk, after_gtk, group_message_2, answer_group,
  wpa_group_msg1_action,
}
use rt.Wpa.Group.Run.Keyed.{group-same_ptk}

-- Without a QoS header the counter is not asked for.
group_passes-counter :
    (p : Port) (msg packet a b : List ℕ)
    → is_qos msg ≡ false
    → group_passes p msg packet a ≡ group_passes p msg packet b
unfolding group_passes
group_passes-counter p msg packet a b h = ground (arith, h)

-- One test of two results each, with the same effects.
same_test :
    (b : Bool) (x x' y y' : WpaResult)
    → x.1 ≡ x'.1
    → y.1 ≡ y'.1
    → (if b then x else y).1 ≡ (if b then x' else y').1
same_test true x x' y y' h k = h
same_test false x x' y y' h k = k

module _ (c : Crypto) (p : Port) (e : Moment) where
  -- What is done behind a valid MIC is by the temporal key alone.
  answer_group-effects :
      (packet : List ℕ) (s t : Supplicant)
      → s.ptk ≡ t.ptk
      → (answer_group c p e packet s).1 ≡ (answer_group c p e packet t).1
  unfolding answer_group after_gtk group_gtk
  answer_group-effects packet s t same =
      let gtks : group_gtk c p e packet s ≡ group_gtk c p e packet t =
        ap (λ (z : List ℕ). group_gtk c p e packet (record s { ptk = z })) same in
      let firsts : (after_gtk p packet (group_gtk c p e packet s) s).1
          ≡ (after_gtk p packet (group_gtk c p e packet t) t).1 =
        same_test (p.port_status == 6) _ _ _ _
          (ap (λ (g : List ℕ). add_key (group_key p packet g) ∷ []) gtks) refl in
      same_test (not e.key_pool) _ _ _ _ refl (
        same_test (not e.out_buffer) _ _ _ _ firsts (
          ap₂ (◌++◌) firsts (
            ap₂
              (λ (z g : List ℕ).
                to_station (
                  make_outgoing_frame
                    (wpa_make_8023_hdr p ∷ signed_packet c p z (group_message_2 p packet) ∷ []))
                ∷ add_key (group_key p packet g)
                ∷ [])
              same gtks)))

  -- So is all that the action does, where the counter is not asked for.
  group_msg1-effects :
      (msg : List ℕ) (s t : Supplicant)
      → is_qos msg ≡ false
      → s.ptk ≡ t.ptk
      → (wpa_group_msg1_action c p e msg s).1 ≡ (wpa_group_msg1_action c p e msg t).1
  unfolding wpa_group_msg1_action
  group_msg1-effects msg s t h same =
      let packet = group_packet p msg in
      let s1 = counted packet s in
      let t1 = counted packet t in
      let passes : Bool = e.pool && group_passes p msg packet t.replay_counter in
      ap
        (λ (b : Bool).
          (if e.pool && b
            then (if mic_matches c p s.ptk packet then answer_group c p e packet s1 else (s1, []))
            else (s, [])).1)
        (group_passes-counter p msg packet s.replay_counter t.replay_counter h)
      ∙ ap
          (λ (z : List ℕ).
            (if passes
              then (if mic_matches c p z packet then answer_group c p e packet s1 else (s1, []))
              else (s, [])).1)
          same
      ∙ same_test passes _ _ _ _
          (same_test (mic_matches c p t.ptk packet) _ _ _ _ (answer_group-effects packet s1 t1 same)
            refl)
          refl

-- A group message in a frame without a QoS header does again, when it comes a second time and meets
-- what the first met, all that it did the first time, at the state that the first call left, which
-- holds its counter: it is not recognised as old.
pub group_message_again :
    (c : Crypto) (p : Port) (e : Moment) (msg : List ℕ) (s : Supplicant)
    → is_qos msg ≡ false
    → (wpa_group_msg1_action c p e msg (wpa_group_msg1_action c p e msg s).0).1
      ≡ (wpa_group_msg1_action c p e msg s).1
group_message_again c p e msg s h =
    group_msg1-effects c p e msg (wpa_group_msg1_action c p e msg s).0 s h
      (group-same_ptk c p e msg s)
