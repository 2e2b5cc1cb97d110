-- ===== src/Assoc/Joined.antt =====
-- What a response changes (Module/assoc.c, AssocPostProc; Module/mlme.c, RTMPCheckRates).
use rt.Prelude.{ℕ, zero, suc, ◌+◌, ◌%◌, List, [], ◌∷◌, ◌++◌, bit_and, ◌==◌, if◌then◌else◌}
use rt.Prelude.Lists.{length, get_or, take, memcpy}
use rt.Bss.{bss_not_found, bss_table_search, bss_at}
use rt.Frames.AssocRsp.{AssocRsp}
use rt.Wpa.Packet.{rate_id_to_500kbps}
use rt.Assoc.Request.{AssocConfig, Aux, element}
use rt.Assoc.State.{AssocState}

-- RTMPCheckRates: the inner loop from the rate `j` on, and the outer one; `NewRate` is what is kept.
unfoldable pub keep_rate : ℕ → ℕ → ℕ → List ℕ → List ℕ
keep_rate zero j rate new = new
keep_rate (suc left) j rate new =
    keep_rate left (j + 1) rate
      (if rate % 128 == get_or rate_id_to_500kbps j 0 then new ++ rate ∷ [] else new)

unfoldable pub keep_rates : ℕ → List ℕ → List ℕ → List ℕ
unfolding keep_rate
keep_rates rate_idx [] new = new
keep_rates rate_idx (rate ∷ rates) new = keep_rates rate_idx rates (keep_rate rate_idx 0 rate new)

unfoldable pub rtmp_check_rates : AssocConfig → List ℕ → ℕ → List ℕ × ℕ
unfolding keep_rates
rtmp_check_rates cfg rates len =
    let new = keep_rates (if cfg.phy_mode == 1 then 4 else 12) (take len rates) [] in
    (memcpy rates new (length new), length new % 256)

-- AssocPostProc: the fields of `MlmeAux`, and what it tells of the response where the station is in
-- the table.
unfoldable pub joined : AssocConfig → AssocRsp → Aux → Aux
unfolding rtmp_check_rates
joined cfg r x =
    let sup =
      rtmp_check_rates cfg (memcpy x.aux_sup_rate r.sup_rate r.sup_rate_len) r.sup_rate_len in
    let ext =
      rtmp_check_rates cfg (memcpy x.aux_ext_rate r.ext_rate r.ext_rate_len) r.ext_rate_len in
    record x {
      aux_bss_type = 1;
      aux_bssid = take 6 r.addr2;
      aux_aid = r.aid;
      aux_capability_info = bit_and r.capability_info 1075;
      ap_edca_parm = r.edca_parm;
      aux_sup_rate = sup.0;
      aux_sup_rate_len = sup.1;
      aux_ext_rate = ext.0;
      aux_ext_rate_len = ext.1;
    }

unfoldable pub assoc_post_proc : AssocConfig → AssocRsp → AssocState → AssocState
unfolding joined bss_table_search
assoc_post_proc cfg r a =
    let b = record a { aux = joined cfg r a.aux } in
    let idx = bss_table_search cfg.known_bss r.addr2 a.aux.aux_channel in
    let d = (bss_at cfg.known_bss idx).detail in
    let ies = element 1 r.sup_rate_len r.sup_rate ++ take d.var_ie_len d.var_ies in
    if idx == bss_not_found then b else record b {
      info = record a.info {
        info_length = 40;
        available_response = 7;
        response_capabilities = r.capability_info;
        response_status = 0;
        association_id = r.aid;
        response_ie_length = length ies % 256;
      };
      res_var_ies = memcpy a.res_var_ies ies (length ies);
      res_var_ie_len = length ies % 256;
    }
