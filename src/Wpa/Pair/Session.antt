-- ===== src/Wpa/Pair/Session.antt =====
-- What the parts of the handshake leave as it is, and the keys that they add (Module/wpa.c,
-- ParseKeyData, WpaPairMsg3Action and Wpa2PairMsg3Action).
use rt.Prelude.{
  ℕ, ◌≡◌, refl, sym, ◌∙◌, arith, true, false, ◌&&◌, List, [], ◌∷◌, ◌++◌, Bool-cases, inl, inr,
}
use mathlib.Core.Path.{subst}
use mathlib.Core.Bool.{true≢false}
use rt.Prelude.Lists.{take, drop}
use rt.Wpa.Digest.{Crypto}
use rt.Wpa.Keys.{Port, WpaKey, is_pairwise}
use rt.Wpa.Packet.{packet_of, key_data_len}
use rt.Wpa.State.{Supplicant, Moment, WpaEffect, send, to_station, add_key, WpaResult, install}
use rt.Wpa.Gtk.{kde_offset, group_key_of, has_group_key, parse_key_data, decrypted, obtain_gtk}
use rt.Wpa.Pair.{peer_key, answer_msg3, answer_wpa2}

-- Every pairwise key among the effects is the temporal key part of `ptk`.
unfoldable pub AreFrom : List ℕ → List WpaEffect → Type 0
AreFrom ptk [] = Unit {0}
AreFrom ptk (send f ∷ es) = AreFrom ptk es
AreFrom ptk (to_station f ∷ es) = AreFrom ptk es
AreFrom ptk (add_key k ∷ es) =
    (is_pairwise k ≡ true → k.material ≡ take 32 (drop 32 ptk)) × AreFrom ptk es

pub AreFrom-append :
    (ptk : List ℕ) (es fs : List WpaEffect)
    → AreFrom ptk es
    → AreFrom ptk fs
    → AreFrom ptk (es ++ fs)
unfolding AreFrom
AreFrom-append ptk [] fs a b = b
AreFrom-append ptk (send f ∷ es) fs a b = AreFrom-append ptk es fs a b
AreFrom-append ptk (to_station f ∷ es) fs a b = AreFrom-append ptk es fs a b
AreFrom-append ptk (add_key k ∷ es) fs a b = (a.0, AreFrom-append ptk es fs a.1 b)

-- The session goes on: the nonces, the keys derived of them, the counter and the state are as
-- they were, and the keys added are from there.
pub record Continues (s : Supplicant) (r : WpaResult) : Type 0 where
  pub same_counter : r.0.replay_counter ≡ s.replay_counter
  pub same_a_nonce : r.0.a_nonce ≡ s.a_nonce
  pub same_s_nonce : r.0.s_nonce ≡ s.s_nonce
  pub same_ptk : r.0.ptk ≡ s.ptk
  pub same_state : r.0.wpa_state ≡ s.wpa_state
  pub from_ptk : AreFrom s.ptk r.1

pub stays-Continues : (s : Supplicant) → Continues s (s, [])
unfolding AreFrom
stays-Continues s = record {
  same_counter = refl;
  same_a_nonce = refl;
  same_s_nonce = refl;
  same_ptk = refl;
  same_state = refl;
  from_ptk = tt;
}

pub append-Continues :
    (s : Supplicant) (r q : WpaResult)
    → Continues s r
    → Continues r.0 q
    → Continues s (q.0, r.1 ++ q.1)
append-Continues s r q a b = record {
  same_counter = b.same_counter ∙ a.same_counter;
  same_a_nonce = b.same_a_nonce ∙ a.same_a_nonce;
  same_s_nonce = b.same_s_nonce ∙ a.same_s_nonce;
  same_ptk = b.same_ptk ∙ a.same_ptk;
  same_state = b.same_state ∙ a.same_state;
  from_ptk =
      AreFrom-append s.ptk r.1 q.1 a.from_ptk
        (subst (λ (z : List ℕ). AreFrom z q.1) a.same_ptk b.from_ptk);
}

group_key_of-is_pairwise :
    (p : Port) (bytes : List ℕ) (at : ℕ) → is_pairwise (group_key_of p bytes at) ≡ false
unfolding group_key_of
group_key_of-is_pairwise p bytes at = ground arith

installed-Continues :
    (p : Port) (k : WpaKey) (s : Supplicant)
    → (is_pairwise k ≡ true → k.material ≡ take 32 (drop 32 s.ptk))
    → Continues s (install p k s, add_key k ∷ [])
unfolding install AreFrom
installed-Continues p k s h = record {
  same_counter = refl;
  same_a_nonce = refl;
  same_s_nonce = refl;
  same_ptk = refl;
  same_state = refl;
  from_ptk = (h, tt);
}

parse_key_data-Continues :
    (p : Port) (e : Moment) (bytes : List ℕ) (len : ℕ) (s : Supplicant)
    → Continues s (parse_key_data p e bytes len s)
unfolding parse_key_data
parse_key_data-Continues p e bytes len s =
    let k = group_key_of p bytes (kde_offset bytes len) in
    elim (Bool-cases (has_group_key p e bytes (kde_offset bytes len))) [
      | inl g ↦
          rw (g, parse_key_data)
            (installed-Continues p k s (λ h.
              absurd
                (true≢false (sym h ∙ group_key_of-is_pairwise p bytes (kde_offset bytes len)))))
      | inr g ↦ rw (g, parse_key_data) (stays-Continues s)
    ]

obtain_gtk-Continues :
    (c : Crypto) (p : Port) (e : Moment) (packet : List ℕ) (s : Supplicant)
    → Continues s (obtain_gtk c p e packet s)
unfolding obtain_gtk
obtain_gtk-Continues c p e packet s =
    let r =
      parse_key_data-Continues p e (decrypted c p e packet s).1 (key_data_len packet)
        (record s { wep_context = (decrypted c p e packet s).0 }) in
    record {
      same_counter = r.same_counter;
      same_a_nonce = r.same_a_nonce;
      same_s_nonce = r.same_s_nonce;
      same_ptk = r.same_ptk;
      same_state = r.same_state;
      from_ptk = r.from_ptk;
    }

pub answer_msg3-Continues :
    (n : ℕ) (c : Crypto) (p : Port) (e : Moment) (msg : List ℕ) (s : Supplicant)
    → Continues s (answer_msg3 n c p e msg s)
unfolding answer_msg3 install AreFrom peer_key
answer_msg3-Continues n c p e msg s = elim (Bool-cases (e.out_buffer && e.key_pool)) [
  | inl g ↦
      rw (g, answer_msg3)
        (record {
          same_counter = refl;
          same_a_nonce = refl;
          same_s_nonce = refl;
          same_ptk = refl;
          same_state = refl;
          from_ptk = (λ h. refl, tt);
        })
  | inr g ↦
      rw (g, answer_msg3)
        (record {
          same_counter = refl;
          same_a_nonce = refl;
          same_s_nonce = refl;
          same_ptk = refl;
          same_state = refl;
          from_ptk = tt;
        })
]

pub answer_wpa2-Continues :
    (c : Crypto) (p : Port) (e : Moment) (msg : List ℕ) (s : Supplicant)
    → Continues s (answer_wpa2 c p e msg s)
unfolding answer_wpa2
answer_wpa2-Continues c p e msg s =
    let r1 = obtain_gtk c p e (packet_of p msg) s in
    append-Continues s r1 (answer_msg3 1 c p e msg r1.0)
      (obtain_gtk-Continues c p e (packet_of p msg) s) (answer_msg3-Continues 1 c p e msg r1.0)
