-- ===== src/Frames/Requests.antt =====
-- The checks of requests, of authentication and of probe requests (Module/sanity.c,
-- MlmeScanReqSanity to PeerProbeReqSanity; the structures are in Module/mlme.h). A check that returns
-- FALSE gives none, since no caller reads its variables then.
pub mod Probe
use rt.Prelude.{
  ℕ, ◌+◌, ◌%◌, Bool, ◌&&◌, ◌||◌, Option, none, some, List, ltb, leb, not, ◌==◌, if◌then◌else◌,
}
use rt.Prelude.Lists.{get_or, take, drop, memcpy}
use rt.Frames.Element.{octet_at, char_gt, u16_at}

-- MLME_SCAN_REQ_STRUCT.
pub record ScanReq : Type 0 where
  pub scan_bssid : List ℕ
  pub scan_bss_type : ℕ
  pub scan_type : ℕ
  pub scan_ssid_len : ℕ
  pub scan_ssid : List ℕ

-- MLME_START_REQ_STRUCT.
pub record StartReq : Type 0 where
  pub start_ssid : List ℕ
  pub start_ssid_len : ℕ

-- MLME_AUTH_REQ_STRUCT.
pub record AuthReq : Type 0 where
  pub addr : List ℕ
  pub alg : ℕ
  pub timeout : ℕ

-- What MlmeScanReqSanity writes: `BssType`, `Ssid`, `SsidLen`, `ScanType`. The length is not checked.
pub record ScanParms : Type 0 where
  pub bss_type : ℕ
  pub ssid : List ℕ
  pub ssid_len : ℕ
  pub scan : ℕ

unfoldable pub mlme_scan_req_sanity : ScanReq → List ℕ → Option ScanParms
mlme_scan_req_sanity info ssid =
    if (info.scan_bss_type == 1 || info.scan_bss_type == 0 || info.scan_bss_type == 2)
      && (info.scan_type == 19 || info.scan_type == 18)
    then some (record {
      bss_type = info.scan_bss_type;
      ssid = memcpy ssid info.scan_ssid info.scan_ssid_len;
      ssid_len = info.scan_ssid_len;
      scan = info.scan_type;
    })
    else none

unfoldable pub mlme_start_req_sanity : StartReq → List ℕ → Option (List ℕ × ℕ)
mlme_start_req_sanity info ssid =
    if ltb 32 info.start_ssid_len
    then none
    else some (memcpy ssid info.start_ssid info.start_ssid_len, info.start_ssid_len)

-- MlmeAuthReqSanity: the address, the time and the algorithm.
unfoldable pub mlme_auth_req_sanity : AuthReq → Option AuthReq
mlme_auth_req_sanity info =
    if (info.alg == 1 || info.alg == 0) && octet_at info.addr 0 % 2 == 0
    then some (record { addr = take 6 info.addr; alg = info.alg; timeout = info.timeout })
    else none

-- PeerDisassocSanity and PeerDeauthSanity, which accept every frame: the sender and the reason.
unfoldable pub peer_disassoc_sanity : List ℕ → Option (List ℕ × ℕ)
peer_disassoc_sanity frame = some (take 6 (drop 10 frame), u16_at frame 24)

unfoldable pub peer_deauth_sanity : List ℕ → Option (List ℕ × ℕ)
peer_deauth_sanity frame = some (take 6 (drop 10 frame), u16_at frame 24)

-- What PeerAuthSanity writes.
pub record AuthFrame : Type 0 where
  pub auth_addr : List ℕ
  pub auth_alg : ℕ
  pub seq : ℕ
  pub status : ℕ
  pub chlg_text : List ℕ

-- The challenge is copied from the frame when the sequence number says that there is one.
unfoldable pub peer_auth_sanity : List ℕ → List ℕ → Option AuthFrame
peer_auth_sanity frame chlg_text =
    let fields : AuthFrame = record {
      auth_addr = take 6 (drop 10 frame);
      auth_alg = u16_at frame 24;
      seq = u16_at frame 26;
      status = u16_at frame 28;
      chlg_text = chlg_text;
    } in
    if fields.auth_alg == 0
    then (if fields.seq == 1 || fields.seq == 2 then some fields else none)
    else if fields.auth_alg == 1
    then (if fields.seq == 1 || fields.seq == 4
        then some fields
        else if fields.seq == 2 || fields.seq == 3
        then some (record fields { chlg_text = memcpy chlg_text (drop 32 frame) 128 })
        else none)
    else none

-- What PeerProbeReqSanity writes.
pub record ProbeReq : Type 0 where
  pub probe_addr : List ℕ
  pub probe_ssid : List ℕ
  pub probe_ssid_len : ℕ

-- `Octet` is an array of `CHAR`: the length is compared with its sign, and copied without it. `Idx`
-- is a byte; `adhoc_mode` is `AdhocMode`.
unfoldable pub peer_probe_req_sanity : ℕ → List ℕ → List ℕ → Option ProbeReq
peer_probe_req_sanity adhoc_mode frame ssid =
    let len = octet_at frame 25 in
    let idx = 24 + (len + 2) % 256 in
    if not (octet_at frame 24 == 0) || char_gt len 32
    then none
    else if not (octet_at frame idx == 1) || (adhoc_mode == 2 && ltb (octet_at frame (idx + 1)) 8)
    then none
    else some (record {
      probe_addr = take 6 (drop 10 frame);
      probe_ssid = memcpy ssid (drop 26 frame) len;
      probe_ssid_len = len;
    })
