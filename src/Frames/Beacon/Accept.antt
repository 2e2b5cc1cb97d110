-- ===== src/Frames/Beacon/Accept.antt =====
-- A beacon as an access point writes it, read back by PeerBeaconAndProbeRspSanity (Module/sanity.c).
use rt.Prelude.{ℕ, ◌+◌, ◌≤◌, ◌≡◌, refl, ◌∙◌, true, false, some, List, [], ◌∷◌, ◌++◌, leb, arith}
use rt.Prelude.Lists.{length, take, drop, memcpy, memcpy_at, take-append, take-memcpy}
use rt.Mlme.Recv.{fc_sub_type}
use rt.Frames.Element.Walk.{encode, fold_elements, walk-encode}
use rt.Frames.Beacon.{
  on_element, fixed_fields, latch_channel_when_missing, all_seen, beacon_start,
  peer_beacon_and_probe_rsp_sanity,
}
use rt.Frames.Beacon.Fields.{Report, Station}
use rt.Frames.Beacon.Elements.{channel_sanity, on_ssid, on_supp_rates, on_ds_parm}

-- The elements that a beacon must have.
abbrev pub required : List ℕ → List ℕ → ℕ → List (ℕ × List ℕ)
required ssid rates channel = (0, ssid) ∷ (1, rates) ∷ (3, channel ∷ []) ∷ []

-- A zero byte behind the copy leaves the copy as it is.
take-memcpy_at :
    (dst xs ys : List ℕ)
    → take (length xs) (memcpy_at (memcpy dst (xs ++ ys) (length xs)) (length xs) (0 ∷ []) 1) ≡ xs
take-memcpy_at dst xs ys = rw (take-memcpy dst xs ys) (take-append xs _)

-- What lies behind the bytes of the rates and of the SSID, and the report that is read.
abbrev pub after_rates : ℕ → List ℕ
after_rates channel = encode ((3, channel ∷ []) ∷ [])

abbrev pub after_ssid : List ℕ → ℕ → List ℕ
after_ssid rates channel = encode ((1, rates) ∷ (3, channel ∷ []) ∷ [])

abbrev pub read : List ℕ → List ℕ → ℕ → Report → Report
read ssid rates channel r = record r {
  ssid =
      memcpy_at (memcpy r.ssid (ssid ++ after_ssid rates channel) (length ssid)) (length ssid)
        (0 ∷ []) 1;
  ssid_len = length ssid;
  sup_rate = memcpy r.sup_rate (rates ++ after_rates channel) (length rates);
  sup_rate_len = length rates;
  channel = channel;
}

module _ (st : Station) (ssid rates : List ℕ) (channel : ℕ) (fits : length ssid ≤ 32)
    (rates_fit : length rates ≤ 12) (listed : channel_sanity st.channel_list channel ≡ true) where
  folded :
      (sub_type : ℕ) (r : Report)
      → fold_elements
          (on_element st sub_type)
          (required ssid rates channel)
          (record { report = r; seen_ssid = false; seen_rates = false; seen_channel = false })
        ≡ some (record {
          report = read ssid rates channel r;
          seen_ssid = true;
          seen_rates = true;
          seen_channel = true;
        })
  unfolding fold_elements on_element on_ssid on_supp_rates on_ds_parm
  folded sub_type r =
      let e : leb (length ssid) 32 ≡ true = ground arith in
      let f : leb (length rates) 12 ≡ true = ground arith in rw e (rw f (rw listed refl))

  pub written_beacon_report :
      (frame : List ℕ) (out : Report)
      → drop 36 frame ≡ encode (required ssid rates channel)
      → peer_beacon_and_probe_rsp_sanity st frame
          (36 + length (encode (required ssid rates channel)))
          out
        ≡ some (read ssid rates channel (fixed_fields frame out))
  unfolding peer_beacon_and_probe_rsp_sanity latch_channel_when_missing all_seen
  written_beacon_report frame out e =
      let walked =
        walk-encode (on_element st (fc_sub_type frame)) (required ssid rates channel)
          (36 + length (encode (required ssid rates channel))) frame 36 (beacon_start frame out) e
          (omega arith)
        ∙ folded (fc_sub_type frame) (fixed_fields frame out) in
      rw walked (ground arith)

  -- A message whose elements behind the fixed part are an SSID of at most 32 bytes, at most 12 rates
  -- and a channel of the adapter's list is accepted, and these are what is read back from it.
  pub written_beacon_read :
      (frame : List ℕ) (out : Report)
      → drop 36 frame ≡ encode (required ssid rates channel)
      → (r : Report) × (peer_beacon_and_probe_rsp_sanity st frame
            (36 + length (encode (required ssid rates channel)))
            out
          ≡ some r)
        × (r.ssid_len ≡ length ssid)
        × (take (length ssid) r.ssid ≡ ssid)
        × (r.sup_rate_len ≡ length rates)
        × (take (length rates) r.sup_rate ≡ rates)
        × (r.channel ≡ channel)
  written_beacon_read frame out e = (
    read ssid rates channel (fixed_fields frame out),
    written_beacon_report frame out e,
    refl,
    take-memcpy_at (fixed_fields frame out).ssid ssid (after_ssid rates channel),
    refl,
    take-memcpy (fixed_fields frame out).sup_rate rates (after_rates channel),
    refl,
  )
