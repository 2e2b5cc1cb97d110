-- ===== src/Frames/Requests/Probe.antt =====
-- Which lengths of an SSID a probe request may have (Module/sanity.c, PeerProbeReqSanity).
use rt.Prelude.{
  ℕ, ◌+◌, ◌%◌, ◌≤◌, ◌<◌, ◌≡◌, refl, sym, ap, ◌∙◌, some, List, [], ◌∷◌, ◌++◌, arith, ◌⊎◌, suc, false,
  ◌&&◌, ◌==◌, ltb,
}
use rt.Prelude.Lists.{
  take-memcpy, drop-drop, get_or, length, take, drop, memcpy, get_or-drop, get_or-append,
}
use rt.Frames.Element.{octet_at}
use rt.Frames.Element.Walk.{encode}
use rt.Frames.Requests.{ProbeReq, peer_probe_req_sanity}

-- A length that is not a positive `CHAR` above 32.
abbrev pub IsPassed : ℕ → Type 0
IsPassed n = (n ≤ 32) ⊎ (128 ≤ n)

module _ (frame ssid rates : List ℕ)
    (e : drop 24 frame ≡ encode ((0, ssid) ∷ (1, rates) ∷ [])) where
  octets :
      (i : ℕ)
      → octet_at frame (24 + i) ≡ octet_at (0 ∷ length ssid ∷ (ssid ++ encode ((1, rates) ∷ []))) i
  octets i = sym (get_or-drop 24 i frame 0) ∙ ap (λ t. get_or t i 0) e

  behind :
      (i k : ℕ)
      → i ≡ 24 + suc (suc (length ssid + k))
      → octet_at frame i ≡ octet_at (encode ((1, rates) ∷ [])) k
  behind i k h =
      ap (λ (j : ℕ). octet_at frame j) h
      ∙ octets (suc (suc (length ssid + k)))
      ∙ ground (arith, get_or-append ssid (encode ((1, rates) ∷ [])) (length ssid + k) 0)

  copied : drop 26 frame ≡ ssid ++ encode ((1, rates) ∷ [])
  copied = sym (drop-drop 24 2 frame) ∙ ap (drop 2) e

-- A probe request as a station writes it, an SSID and then the rates, of which there are at least
-- eight where AdhocMode is 2, is accepted for an SSID of at most 32 bytes, and also for one of 128
-- to 253 bytes; so many bytes are copied.
pub probe_req_read :
    (adhoc_mode : ℕ) (frame buffer ssid rates : List ℕ)
    → drop 24 frame ≡ encode ((0, ssid) ∷ (1, rates) ∷ [])
    → IsPassed (length ssid)
    → length ssid < 254
    → ((adhoc_mode == 2) && ltb (length rates) 8) ≡ false
    → (r : ProbeReq) × (peer_probe_req_sanity adhoc_mode frame buffer ≡ some r)
      × (r.probe_ssid_len ≡ length ssid)
      × (take (length ssid) r.probe_ssid ≡ ssid)
unfolding peer_probe_req_sanity
probe_req_read adhoc_mode frame buffer ssid rates e passed short enough =
    let kind = behind frame ssid rates e (24 + (length ssid + 2) % 256) 0 (omega arith) in
    let count = behind frame ssid rates e (24 + (length ssid + 2) % 256 + 1) 1 (omega arith) in
    let at_24 = octets frame ssid rates e 0 in
    let at_25 = octets frame ssid rates e 1 in
    (
      record {
        probe_addr = take 6 (drop 10 frame);
        probe_ssid = memcpy buffer (drop 26 frame) (length ssid);
        probe_ssid_len = length ssid;
      },
      rw at_25 (ground (arith, kind, count, at_24, passed, enough)),
      refl,
      rw (copied frame ssid rates e) (take-memcpy buffer ssid (encode ((1, rates) ∷ []))),
    )

-- And the others are refused: an accepted length is one of these.
pub probe_req_bound :
    (adhoc_mode : ℕ) (frame buffer : List ℕ) (r : ProbeReq)
    → peer_probe_req_sanity adhoc_mode frame buffer ≡ some r
    → IsPassed r.probe_ssid_len
unfolding peer_probe_req_sanity
probe_req_bound adhoc_mode frame buffer r h = ground arith
