-- ===== src/Wpa/Keys.antt =====
-- RTMPWPAAddKeyProc of Module/rtmp_info.c; CIPHER_KEY and PORT_CONFIG are in Module/rtmp.h,
-- NDIS_802_11_KEY in Module/oid.h. The call of AsicAddSharedKeyEntry gives the hardware the entry
-- stored, and RTMPIndicateWPA2Status tells the user of WPA2: both are left out.
use rt.Prelude.{
  ℕ, ◌/◌, ◌%◌, ◌^◌, Bool, true, false, not, ◌&&◌, ◌||◌, List, [], ◌∷◌, leb, ltb, ◌==◌,
  if◌then◌else◌,
}
use rt.Prelude.Lists.{get_or, set, drop, replicate, memcpy, mem_eq}
use rt.Bss.{BssTable}

pub record SharedKey : Type 0 where
  pub bss_id : List ℕ
  pub cipher : ℕ
  pub stored_len : ℕ
  pub stored_key : List ℕ
  pub rx_mic : List ℕ
  pub tx_mic : List ℕ
  pub tx_tsc : List ℕ
  pub rx_tsc : List ℕ
  pub type : ℕ

abbrev pub no_shared_key : SharedKey
no_shared_key = record {
  bss_id = replicate 6 0;
  cipher = 0;
  stored_len = 0;
  stored_key = replicate 16 0;
  rx_mic = replicate 8 0;
  tx_mic = replicate 8 0;
  tx_tsc = replicate 6 0;
  rx_tsc = replicate 6 0;
  type = 0;
}

-- The key to add.
pub record WpaKey : Type 0 where
  pub index : ℕ
  pub material_len : ℕ
  pub for_bssid : List ℕ
  pub rsc : List ℕ
  pub material : List ℕ

-- What the handshake reads of the adapter and its configuration. `master_key` is the 32 bytes from
-- `PskKey.Key` on.
pub record Port : Type 0 where
  pub wmm_capable : Bool
  pub wmm_inused : Bool
  pub port_status : ℕ
  pub port_mode : ℕ
  pub pair_cipher_in_use : ℕ
  pub group_cipher_in_use : ℕ
  pub master_key : List ℕ
  pub port_bssid : List ℕ
  pub own_address : List ℕ
  pub port_channel : ℕ
  pub rsn_ie : List ℕ
  pub rsn_ie_len : ℕ
  pub ack_rate : ℕ
  pub dsifs : ℕ
  pub short_preamble : Bool
  pub scan_tab : BssTable

-- What the function writes.
pub record KeyTable : Type 0 where
  pub shared_key : List SharedKey
  pub default_key : ℕ
  pub port_secured : ℕ

-- The bits of `KeyIndex`.
abbrev pub key_bit : ℕ → WpaKey → Bool
key_bit n k = k.index / 2 ^ n % 2 == 1

abbrev pub is_pairwise : WpaKey → Bool
is_pairwise k = key_bit 30 k

abbrev pub broadcast : List ℕ
broadcast = replicate 6 255

-- The checks in front, of a pairwise and of a group key.
unfoldable pub is_accepted : Port → WpaKey → Bool
is_accepted p k =
    if is_pairwise k
    then k.index % 256 == 0
      && key_bit 31 k
      && not (mem_eq k.for_bssid broadcast 6)
      && not (p.pair_cipher_in_use == 4 && not (k.material_len == 32))
    else (mem_eq k.for_bssid broadcast 6 || mem_eq k.for_bssid p.port_bssid 6)
      && ltb (k.index % 256) 4

-- `CipherAlg`.
unfoldable pub cipher_for : Port → WpaKey → ℕ
cipher_for p k =
    let own =
      if p.port_status == 6
      then 4
      else if p.port_status == 4
      then 3
      else if p.port_status == 0
      then (if k.material_len % 256 == 5 then 1 else if k.material_len % 256 == 13 then 2 else 0)
      else 0 in
    if leb 3 p.port_mode && not (p.port_mode == 5) && not (is_pairwise k)
    then (if p.group_cipher_in_use == 6 then 4 else if p.group_cipher_in_use == 4 then 3 else own)
    else own

-- Where the two MIC keys are in the material.
abbrev pub tx_mic_offset : Port → WpaKey → ℕ
tx_mic_offset p k = if p.port_mode == 5 || key_bit 28 k then 16 else 24

abbrev pub rx_mic_offset : Port → WpaKey → ℕ
rx_mic_offset p k = if p.port_mode == 5 then 16 else if key_bit 28 k then 24 else 16

unfoldable pub stored : Port → WpaKey → SharedKey → SharedKey
unfolding cipher_for
stored p k old = record {
  bss_id = memcpy old.bss_id k.for_bssid 6;
  cipher = cipher_for p k;
  stored_len = k.material_len % 256;
  stored_key = memcpy old.stored_key k.material 16;
  rx_mic =
      if k.material_len == 32
      then memcpy old.rx_mic (drop (rx_mic_offset p k) k.material) 8
      else old.rx_mic;
  tx_mic =
      if k.material_len == 32
      then memcpy old.tx_mic (drop (tx_mic_offset p k) k.material) 8
      else old.tx_mic;
  tx_tsc = 1 ∷ 0 ∷ 0 ∷ 0 ∷ 0 ∷ 0 ∷ [];
  rx_tsc = if key_bit 29 k then memcpy old.rx_tsc k.rsc 6 else replicate 6 0;
  type = if is_pairwise k then 1 else 2;
}

-- RTMPWPAAddKeyProc: the table, and whether it succeeds.
unfoldable pub rtmp_wpa_add_key_proc : Port → WpaKey → KeyTable → KeyTable × Bool
unfolding is_accepted stored
rtmp_wpa_add_key_proc p k t =
    let i = k.index % 256 in
    if is_accepted p k
    then (
      record {
        shared_key = set t.shared_key i (stored p k (get_or t.shared_key i no_shared_key));
        default_key = if not (is_pairwise k) && key_bit 31 k then i else t.default_key;
        port_secured = if is_pairwise k then t.port_secured else 1;
      },
      true,
    )
    else (t, false)
