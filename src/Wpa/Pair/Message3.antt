-- ===== src/Wpa/Pair/Message3.antt =====
-- Message 3 of the pairwise handshake is answered once (Module/wpa.c, WpaPairMsg3Action and
-- Wpa2PairMsg3Action).
use rt.Prelude.{
  ℕ, zero, suc, ◌+◌, ◌≡◌, refl, sym, ap, ◌∙◌, arith, Bool, true, false, ◌&&◌, List, [], Bool-cases,
  inl, inr,
}
use mathlib.Core.Bool.{true≢false}
use rt.Prelude.Lists.{mem_eq}
use rt.Wpa.Digest.{Crypto, mem_gt_from, mem_gt}
use rt.Wpa.Keys.{Port}
use rt.Wpa.Packet.{packet_of, replay_of, nonce_of, secure, is_newer}
use rt.Wpa.State.{Supplicant, Moment, WpaResult}
use rt.Wpa.Pair.{
  counted, checked, is_genuine, answer_msg3, answer_wpa2, wpa_pair_msg3_action,
  wpa2_pair_msg3_action, msg3_action,
}
use rt.Wpa.Pair.Session.{Continues, stays-Continues, answer_msg3-Continues, answer_wpa2-Continues}

mem_gt_irrefl : (a : List ℕ) (left i : ℕ) → mem_gt_from a a left i ≡ false
unfolding mem_gt_from
mem_gt_irrefl a zero i = refl
mem_gt_irrefl a (suc left) i = ground (arith, mem_gt_irrefl a left (i + 1))

-- A message whose counter is that of the state is not genuine.
old-is_genuine :
    (c : Crypto) (p : Port) (packet : List ℕ) (s : Supplicant)
    → s.replay_counter ≡ replay_of packet
    → is_genuine c p packet s ≡ false
unfolding is_genuine is_newer
old-is_genuine c p packet s e =
    let old : mem_gt (replay_of packet) s.replay_counter 8 ≡ false =
      ap (λ (z : List ℕ). mem_gt (replay_of packet) z 8) e ∙ mem_gt_irrefl (replay_of packet) 8 0 in
    ground (arith, old)

checked-refused :
    (genuine same : Bool) (s s1 : Supplicant) (r : WpaResult)
    → genuine ≡ false
    → checked genuine same s s1 r ≡ (s, [])
checked-refused false same s s1 r g = refl
checked-refused true same s s1 r g = absurd (true≢false g)

checked-Continues :
    (genuine same : Bool) (s s1 : Supplicant) (r : WpaResult)
    → genuine ≡ true
    → Continues s1 r
    → Continues s1 (checked genuine same s s1 r)
checked-Continues true true s s1 r g h = h
checked-Continues true false s s1 r g h = stays-Continues s1
checked-Continues false same s s1 r g h = absurd (true≢false (sym g))

abbrev quiet : Supplicant → WpaResult
quiet s = (s, [])

module _ (c : Crypto) (p : Port) (msg : List ℕ) where
  -- A message that is not genuine does nothing.
  pub refused :
      (wpa2 : Bool) (e : Moment) (s : Supplicant)
      → is_genuine c p (packet_of p msg) s ≡ false
      → msg3_action wpa2 c p e msg s ≡ (s, [])
  unfolding msg3_action wpa_pair_msg3_action wpa2_pair_msg3_action
  refused true e s g =
      checked-refused (e.pool && is_genuine c p (packet_of p msg) s)
        (mem_eq s.a_nonce (nonce_of (packet_of p msg)) 32) s (counted (packet_of p msg) s)
        (answer_wpa2 c p e msg (counted (packet_of p msg) s)) (ground arith)
  refused false e s g =
      checked-refused (is_genuine c p (packet_of p msg) s)
        (mem_eq s.a_nonce (nonce_of (packet_of p msg)) 32) s (counted (packet_of p msg) s)
        (answer_msg3 (secure (packet_of p msg)) c p e msg (counted (packet_of p msg) s)) g

  -- A genuine one renews the counter, and the session goes on.
  pub passed :
      (wpa2 : Bool) (e : Moment) (s : Supplicant)
      → e.pool ≡ true
      → is_genuine c p (packet_of p msg) s ≡ true
      → Continues (counted (packet_of p msg) s) (msg3_action wpa2 c p e msg s)
  unfolding msg3_action wpa_pair_msg3_action wpa2_pair_msg3_action
  passed true e s m g =
      checked-Continues (e.pool && is_genuine c p (packet_of p msg) s)
        (mem_eq s.a_nonce (nonce_of (packet_of p msg)) 32) s (counted (packet_of p msg) s)
        (answer_wpa2 c p e msg (counted (packet_of p msg) s)) (ground arith)
        (answer_wpa2-Continues c p e msg (counted (packet_of p msg) s))
  passed false e s m g =
      checked-Continues (is_genuine c p (packet_of p msg) s)
        (mem_eq s.a_nonce (nonce_of (packet_of p msg)) 32) s (counted (packet_of p msg) s)
        (answer_msg3 (secure (packet_of p msg)) c p e msg (counted (packet_of p msg) s)) g
        (answer_msg3-Continues (secure (packet_of p msg)) c p e msg (counted (packet_of p msg) s))

  -- Where kmalloc gave the first call its block of memory, a second call of WpaPairMsg3Action or
  -- Wpa2PairMsg3Action with the same message 3 itself leaves the state as the first call left it,
  -- adds no key and sends nothing. (WpaEAPOLKeyAction writes WpaState and PortSecured behind each
  -- call.)
  pub message_3_once :
      (wpa2 : Bool) (e e' : Moment) (s : Supplicant)
      → e.pool ≡ true
      → let r = msg3_action wpa2 c p e msg s in msg3_action wpa2 c p e' msg r.0 ≡ (r.0, [])
  message_3_once wpa2 e e' s m = elim (Bool-cases (is_genuine c p (packet_of p msg) s)) [
    | inl g ↦ refused wpa2 e' (msg3_action wpa2 c p e msg s).0 (
        old-is_genuine c p (packet_of p msg) (msg3_action wpa2 c p e msg s).0
          (passed wpa2 e s m g).same_counter)
    | inr g ↦
        ap (λ (r : WpaResult). msg3_action wpa2 c p e' msg r.0) (refused wpa2 e s g)
        ∙ refused wpa2 e' s g
        ∙ ap (λ (r : WpaResult). quiet r.0) (sym (refused wpa2 e s g))
  ]
