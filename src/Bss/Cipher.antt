-- ===== src/Bss/Cipher.antt =====
-- The ciphers and the key management that a network announces (Module/mlme.c, BssCipherParse; the
-- structures are in Module/mlme.h and Module/rtmp_type.h, the numbers in Module/oid.h). A count of
-- suites is taken as it stands in the element, so that a loop may read far behind it.
pub mod Suites
pub mod Meaning
pub mod Rsn
mod Examples
use rt.Prelude.{
  ℕ, zero, suc, ◌+◌, ◌*◌, ◌%◌, Bool, true, false, not, ◌||◌, List, ltb, ◌==◌, if◌then◌else◌, bit_or,
}
use rt.Prelude.Lists.{drop, mem_eq}
use rt.Frames.Element.{octet_at, u16_at}
use rt.Frames.Beacon.Elements.{wpa_oui, rsn_oui}

-- NDIS_802_11_WEP_STATUS and NDIS_802_11_AUTHENTICATION_MODE, the values used.
abbrev pub encryption1_enabled : ℕ
encryption1_enabled = 0

abbrev pub wep_disabled : ℕ
wep_disabled = 1

abbrev pub encryption2_enabled : ℕ
encryption2_enabled = 4

abbrev pub encryption3_enabled : ℕ
encryption3_enabled = 6

abbrev pub auth_mode_wpa_none : ℕ
auth_mode_wpa_none = 5

-- CIPHER_SUITE.
pub record CipherSuite : Type 0 where
  pub pair_cipher : ℕ
  pub pair_cipher_aux : ℕ
  pub group_cipher : ℕ
  pub rsn_capability : ℕ
  pub mix_mode : Bool

-- The fields of BSS_ENTRY that the function writes.
pub record Security : Type 0 where
  pub wep_status : ℕ
  pub auth_mode : ℕ
  pub auth_mode_aux : ℕ
  pub auth_bit_mode : ℕ
  pub pair_cipher_bit_mode : ℕ
  pub wpa : CipherSuite
  pub wpa2 : CipherSuite

abbrev pub no_suite : CipherSuite
no_suite = record {
  pair_cipher = wep_disabled;
  pair_cipher_aux = wep_disabled;
  group_cipher = wep_disabled;
  rsn_capability = 0;
  mix_mode = false;
}

-- The values in front of the loop, by `Privacy`.
abbrev pub no_security : Bool → Security
no_security privacy = record {
  wep_status = if privacy then encryption1_enabled else wep_disabled;
  auth_mode = 0;
  auth_mode_aux = 0;
  auth_bit_mode = 0;
  pair_cipher_bit_mode = 0;
  wpa = no_suite;
  wpa2 = no_suite;
}

-- The switch over the type of a suite.
unfoldable pub cipher_of : ℕ → ℕ → ℕ
cipher_of type other =
    if type == 1 || type == 5
    then encryption1_enabled
    else if type == 2
    then encryption2_enabled
    else if type == 4
    then encryption3_enabled
    else other

-- One round over the pairwise suites: TKIPBIT and CCMPBIT, and the higher cipher in front.
unfoldable pub add_pair : ℕ → ℕ × CipherSuite → ℕ × CipherSuite
unfolding cipher_of
add_pair type (bits, s) =
    let tmp = cipher_of type wep_disabled in
    (
      if type == 2 then bit_or bits 1 else if type == 4 then bit_or bits 2 else bits,
      if ltb s.pair_cipher tmp
          then record s { pair_cipher_aux = s.pair_cipher; pair_cipher = tmp }
          else record s { pair_cipher_aux = tmp },
    )

unfoldable pub pair_loop : ℕ → ℕ → List ℕ → ℕ × CipherSuite → ℕ × CipherSuite
unfolding add_pair
pair_loop zero pos ies s = s
pair_loop (suc count) pos ies s =
    pair_loop count (pos + 4) ies (add_pair (octet_at ies (pos + 3)) s)

-- The modes and bits of key management by 802.1X and by a shared key, of WPA and of WPA2.
pub record Akm : Type 0 where
  pub mode_1x : ℕ
  pub bit_1x : ℕ
  pub mode_psk : ℕ
  pub bit_psk : ℕ

abbrev pub wpa_akm : Akm
wpa_akm = record { mode_1x = 3; bit_1x = 1; mode_psk = 4; bit_psk = 4 }

abbrev pub wpa2_akm : Akm
wpa2_akm = record { mode_1x = 6; bit_1x = 2; mode_psk = 7; bit_psk = 8 }

-- One round over the key management suites, on `AuthMode` and `AuthBitMode`.
unfoldable pub add_akm : Akm → ℕ → ℕ × ℕ → ℕ × ℕ
add_akm k type (mode, bits) =
    if type == 1
    then (k.mode_1x, bit_or bits k.bit_1x)
    else if type == 2
    then (k.mode_psk, bit_or bits k.bit_psk)
    else (mode, bits)

unfoldable pub akm_loop : Akm → ℕ → ℕ → List ℕ → ℕ × ℕ → ℕ × ℕ
unfolding add_akm
akm_loop k zero pos ies s = s
akm_loop k (suc count) pos ies s =
    akm_loop k count (pos + 4) ies (add_akm k (octet_at ies (pos + 3)) s)

abbrev pub mixed : CipherSuite → CipherSuite
mixed s = if s.group_cipher == s.pair_cipher then s else record s { mix_mode = true }

abbrev pub aux_or_group : CipherSuite → CipherSuite
aux_or_group s =
    if s.pair_cipher_aux == wep_disabled then record s { pair_cipher_aux = s.group_cipher } else s

-- `case IE_WPA`, for the element at `pos`; `adhoc` is `BssType == BSS_ADHOC`.
unfoldable pub on_wpa : Bool → List ℕ → ℕ → Security → Security
unfolding cipher_of pair_loop akm_loop
on_wpa adhoc ies pos s =
    let group = cipher_of (octet_at ies (pos + 11)) s.wpa.group_cipher in
    let pairs = u16_at ies (pos + 12) in
    let (bits, suite) =
      pair_loop pairs (pos + 14) ies
        (s.pair_cipher_bit_mode, record s.wpa { group_cipher = group }) in
    let (mode, auth_bits) =
      akm_loop wpa_akm (u16_at ies (pos + 14 + 4 * pairs)) (pos + 16 + 4 * pairs) ies
        (s.auth_mode, s.auth_bit_mode) in
    if not (mem_eq (drop (pos + 2) ies) wpa_oui 4)
    then s
    else if adhoc
    then record s {
      pair_cipher_bit_mode = bits;
      auth_bit_mode = auth_bits;
      auth_mode = auth_mode_wpa_none;
      auth_mode_aux = auth_mode_wpa_none;
      wep_status = suite.group_cipher;
      wpa = mixed (aux_or_group suite);
    }
    else record s {
      pair_cipher_bit_mode = bits;
      auth_bit_mode = auth_bits;
      auth_mode = mode;
      wep_status = suite.pair_cipher;
      wpa = mixed suite;
    }

-- The end of `case IE_RSN`, behind the loops, with the capability.
unfoldable pub rsn_end : Bool → ℕ → Security → Security
rsn_end adhoc capability s =
    let suite = mixed (record s.wpa2 { rsn_capability = capability }) in
    if adhoc
    then record s {
      auth_mode = auth_mode_wpa_none;
      auth_mode_aux = auth_mode_wpa_none;
      wpa = aux_or_group (record s.wpa {
        pair_cipher_aux = s.wpa2.pair_cipher_aux;
        group_cipher = s.wpa2.group_cipher;
      });
      wep_status = s.wpa2.pair_cipher;
      wpa2 = suite;
    }
    else record s { wep_status = s.wpa2.pair_cipher; wpa2 = suite }

-- `case IE_RSN`, by what its loops give: the checks of the version and of the group suite, and, for
-- the key management suites at `at`, of the first one.
unfoldable pub rsn_checked :
    Bool → List ℕ → ℕ → ℕ → ℕ → Security → ℕ × CipherSuite → ℕ × ℕ → Security
unfolding rsn_end
rsn_checked adhoc ies pos at akms s (bits, suite) (mode, auth_bits) =
    let ciphers = record s { pair_cipher_bit_mode = bits; wpa2 = suite } in
    if not (u16_at ies (pos + 2) == 1) || not (mem_eq (drop (pos + 4) ies) rsn_oui 3)
    then s
    else if not (mem_eq (drop at ies) rsn_oui 3)
    then ciphers
    else rsn_end adhoc (u16_at ies (at + 4 * akms))
        (record ciphers { auth_mode = mode; auth_bit_mode = auth_bits })

-- The loops, by the two counts.
unfoldable pub rsn_counted : Bool → List ℕ → ℕ → Security → ℕ → ℕ → Security
unfolding cipher_of pair_loop akm_loop rsn_checked
rsn_counted adhoc ies pos s pairs akms =
    let group = cipher_of (octet_at ies (pos + 7)) s.wpa2.group_cipher in
    let at = pos + 12 + 4 * pairs in
    rsn_checked adhoc ies pos at akms s
      (pair_loop pairs (pos + 10) ies
        (s.pair_cipher_bit_mode, record s.wpa2 { group_cipher = group }))
      (akm_loop wpa2_akm akms at ies (s.auth_mode, s.auth_bit_mode))

unfoldable pub on_rsn_suites : Bool → List ℕ → ℕ → Security → Security
unfolding rsn_counted
on_rsn_suites adhoc ies pos s =
    let pairs = u16_at ies (pos + 8) in
    rsn_counted adhoc ies pos s pairs (u16_at ies (pos + 10 + 4 * pairs))

-- The loop over the elements, with `Length` bytes left of `len`; each round takes two at least.
unfoldable pub cipher_walk : Bool → List ℕ → ℕ → ℕ → ℕ → Security → Security
unfolding on_wpa on_rsn_suites
cipher_walk adhoc ies zero len pos s = s
cipher_walk adhoc ies (suc fuel) len pos s =
    let eid = octet_at ies pos in
    let t =
      if eid == 221
      then on_wpa adhoc ies pos s
      else if eid == 48
      then on_rsn_suites adhoc ies pos s
      else s in
    if ltb pos len then cipher_walk adhoc ies fuel len (pos + (octet_at ies (pos + 1) + 2)) t else s

-- BssCipherParse, on `Privacy`, `BssType == BSS_ADHOC`, `VarIEs` and `VarIELen`.
unfoldable pub bss_cipher_parse : Bool → Bool → List ℕ → ℕ → Security
unfolding cipher_walk
bss_cipher_parse privacy adhoc ies len = cipher_walk adhoc ies len len 0 (no_security privacy)
