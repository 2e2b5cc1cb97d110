-- ===== src/Frames/Beacon/Bounds.antt =====
-- What holds of every beacon that the check (Module/sanity.c, PeerBeaconAndProbeRspSanity) accepts:
-- the lengths it reports and the channel.
use rt.Prelude.{ℕ, ◌≤◌, ◌<◌, ◌≡◌, true, some, List, arith, ◌⊎◌}
use mathlib.Core.Path.{subst}
use mathlib.Core.Option.{some-injective}
use rt.Mlme.Recv.{fc_sub_type}
use rt.Frames.Element.{element_at, Element}
use rt.Frames.Element.Walk.{and_then-some, walk-keeps}
use rt.Frames.Beacon.{
  noted, on_element, fixed_fields, latch_channel_when_missing, all_seen, beacon_start,
  peer_beacon_and_probe_rsp_sanity,
}
use rt.Frames.Beacon.Cases.{on_element-cases}
use rt.Frames.Beacon.Fields.{Report, Station, Progress}
use rt.Frames.Beacon.Elements.{
  channel_sanity, on_ssid, on_supp_rates, on_ds_parm, on_cf_parm, on_ibss_parm, on_tim, append_vie,
  on_vendor, on_ext_supp_rates, on_rsn, on_new_channel, on_erp,
}

-- What the elements so far have established.
pub record IsBounded (st : Station) (p : Progress) : Type 0 where
  pub ssid_fits : p.seen_ssid ≡ true → p.report.ssid_len ≤ 32
  pub rates_fit : p.seen_rates ≡ true → p.report.sup_rate_len ≤ 12
  pub ext_fits : p.report.ext_rate_len ≤ 12
  pub vie_fits : p.report.length_vie < 128
  pub listed : p.seen_channel ≡ true → channel_sanity st.channel_list p.report.channel ≡ true

module _ (st : Station) (e : Element) (p p' : Progress) (b : IsBounded st p) where
  on_ssid-IsBounded : on_ssid e p ≡ some p' → IsBounded st p'
  unfolding on_ssid
  on_ssid-IsBounded h = ground (arith, b)

  on_supp_rates-IsBounded : on_supp_rates e p ≡ some p' → IsBounded st p'
  unfolding on_supp_rates
  on_supp_rates-IsBounded h = ground (arith, b)

  on_ds_parm-IsBounded : on_ds_parm st e p ≡ some p' → IsBounded st p'
  unfolding on_ds_parm
  on_ds_parm-IsBounded h = ground (arith, b)

  on_cf_parm-IsBounded : on_cf_parm e p ≡ some p' → IsBounded st p'
  unfolding on_cf_parm
  on_cf_parm-IsBounded h = ground (arith, b)

  on_ibss_parm-IsBounded : on_ibss_parm e p ≡ some p' → IsBounded st p'
  unfolding on_ibss_parm
  on_ibss_parm-IsBounded h = ground (arith, b)

-- The cases that do not refuse, on the fields of the report that count here.
record IsQuiet (r r' : Report) : Type 0 where
  same_ssid : r'.ssid_len ≡ r.ssid_len
  same_rates : r'.sup_rate_len ≡ r.sup_rate_len
  same_channel : r'.channel ≡ r.channel
  ext_still_fits : r.ext_rate_len ≤ 12 → r'.ext_rate_len ≤ 12
  vie_still_fits : r.length_vie < 128 → r'.length_vie < 128

on_tim-IsQuiet :
    (st : Station) (sub_type : ℕ) (e : Element) (r : Report) → IsQuiet r (on_tim st sub_type e r)
unfolding on_tim
on_tim-IsQuiet st sub_type e r = ground arith

on_new_channel-IsQuiet : (e : Element) (r : Report) → IsQuiet r (on_new_channel e r)
unfolding on_new_channel
on_new_channel-IsQuiet e r = ground arith

on_erp-IsQuiet : (e : Element) (r : Report) → IsQuiet r (on_erp e r)
unfolding on_erp
on_erp-IsQuiet e r = ground arith

append_vie-IsQuiet : (e : Element) (r : Report) → IsQuiet r (append_vie e r)
unfolding append_vie
append_vie-IsQuiet e r = ground arith

on_vendor-IsQuiet : (e : Element) (r : Report) → IsQuiet r (on_vendor e r)
unfolding on_vendor
on_vendor-IsQuiet e r = ground (arith, append_vie-IsQuiet e r)

on_ext_supp_rates-IsQuiet : (e : Element) (r : Report) → IsQuiet r (on_ext_supp_rates e r)
unfolding on_ext_supp_rates
on_ext_supp_rates-IsQuiet e r = ground arith

on_rsn-IsQuiet : (e : Element) (r : Report) → IsQuiet r (on_rsn e r)
unfolding on_rsn
on_rsn-IsQuiet e r = ground (arith, append_vie-IsQuiet e r)

noted-IsBounded :
    (st : Station) (p p' : Progress) (r : Report)
    → IsBounded st p
    → IsQuiet p.report r
    → noted p r ≡ some p'
    → IsBounded st p'
noted-IsBounded st p p' r b q h = ground (arith, b, q)

start-IsBounded :
    (st : Station) (frame : List ℕ) (out : Report) → IsBounded st (beacon_start frame out)
unfolding fixed_fields
start-IsBounded st frame out = ground arith

finish :
    (st : Station) (p : Progress) (r : Report)
    → IsBounded st p
    → all_seen (latch_channel_when_missing st p) ≡ some r
    → (r.ssid_len ≤ 32)
      × (r.sup_rate_len ≤ 12)
      × (r.ext_rate_len ≤ 12)
      × (r.length_vie < 128)
      × ((channel_sanity st.channel_list r.channel ≡ true)
          ⊎ ((14 < st.latch_channel) × (r.channel ≡ st.latch_channel)))
unfolding latch_channel_when_missing all_seen
finish st p r b h = ground (arith, b)

on_element-IsBounded :
    (st : Station) (sub_type : ℕ) (e : Element) (p p' : Progress)
    → IsBounded st p
    → on_element st sub_type e p ≡ some p'
    → IsBounded st p'
on_element-IsBounded st sub_type e p p' b =
    on_element-cases (λ o. o ≡ some p' → IsBounded st p') st sub_type e p
      (on_ssid-IsBounded st e p p' b) (on_supp_rates-IsBounded st e p p' b)
      (on_ds_parm-IsBounded st e p p' b) (on_cf_parm-IsBounded st e p p' b)
      (on_ibss_parm-IsBounded st e p p' b) (note (on_tim-IsQuiet st sub_type e p.report))
      (note (on_new_channel-IsQuiet e p.report)) (note (on_vendor-IsQuiet e p.report))
      (note (on_ext_supp_rates-IsQuiet e p.report)) (note (on_erp-IsQuiet e p.report))
      (note (on_rsn-IsQuiet e p.report)) (λ h. subst (IsBounded st) (some-injective p p' h) b)
  where
    note : {r : Report} → IsQuiet p.report r → noted p r ≡ some p' → IsBounded st p'
    note {r} q h = noted-IsBounded st p p' r b q h

-- A beacon or probe response that is accepted reports an SSID of at most 32 bytes, at most 12 rates
-- of each kind, less than 128 bytes of elements for the list of networks, and a channel of the
-- adapter's list, or else the channel above 14 that the adapter is tuned to.
pub accepted_beacon_bounds :
    (st : Station) (frame : List ℕ) (msg_len : ℕ) (out r : Report)
    → peer_beacon_and_probe_rsp_sanity st frame msg_len out ≡ some r
    → (r.ssid_len ≤ 32)
      × (r.sup_rate_len ≤ 12)
      × (r.ext_rate_len ≤ 12)
      × (r.length_vie < 128)
      × ((channel_sanity st.channel_list r.channel ≡ true)
          ⊎ ((14 < st.latch_channel) × (r.channel ≡ st.latch_channel)))
unfolding peer_beacon_and_probe_rsp_sanity
accepted_beacon_bounds st frame msg_len out r h =
    let (p, walked, finished) =
      and_then-some _ (λ p. all_seen (latch_channel_when_missing st p)) r h in
    let b =
      walk-keeps (on_element st (fc_sub_type frame)) (IsBounded st) msg_len frame msg_len 36
        (beacon_start frame out) p
        (λ at t t' inside k.
          on_element-IsBounded st (fc_sub_type frame) (element_at frame at) t t' k)
        (start-IsBounded st frame out) walked in
    finish st p r b finished
