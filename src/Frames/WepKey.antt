-- ===== src/Frames/WepKey.antt =====
-- The check of a WEP key from the configuration utility, which also installs it (Module/sanity.c,
-- RTMPWPAWepKeySanity; CIPHER_KEY is in Module/rtmp.h, NDIS_802_11_KEY in Module/oid.h). The key that
-- goes to the hardware is the one stored, so the call of AsicAddSharedKeyEntry is left out.
pub mod Expand
pub mod Install
use rt.Prelude.{
  ℕ, zero, suc, ◌+◌, ◌-◌, ◌*◌, ◌/◌, ◌%◌, ◌^◌, Bool, not, ◌&&◌, ◌||◌, List, ltb, ◌==◌, if◌then◌else◌,
}
use rt.Prelude.Lists.{get_or, set, replicate, memcpy_at, mem_eq}

-- The fields of CIPHER_KEY that the function writes.
pub record CipherKey : Type 0 where
  pub cipher_alg : ℕ
  pub key_len : ℕ
  pub key : List ℕ

-- NDIS_802_11_KEY.
pub record NdisKey : Type 0 where
  pub key_index : ℕ
  pub key_length : ℕ
  pub key_bssid : List ℕ
  pub key_material : List ℕ

-- What the function writes of the adapter.
pub record Keys : Type 0 where
  pub shared_key : List CipherKey
  pub default_key_id : ℕ
  pub port_secured : ℕ

abbrev pub no_key : CipherKey
no_key = record { cipher_alg = 0; key_len = 0; key = replicate 16 0 }

abbrev pub broadcast_addr : List ℕ
broadcast_addr = replicate 6 255

-- `KeyIdx` and the bits 31 and 30.
abbrev pub key_idx : NdisKey → ℕ
key_idx k = k.key_index % 2 ^ 28

abbrev pub tx_key : NdisKey → Bool
tx_key k = k.key_index / 2 ^ 31 % 2 == 1

abbrev pub pairwise : NdisKey → Bool
pairwise k = k.key_index / 2 ^ 30 % 2 == 1

-- The checks, on the adapter's BSSID. An index of 4 passes.
unfoldable pub wep_key_ok : List ℕ → NdisKey → Bool
wep_key_ok bssid k =
    if pairwise k
    then not (ltb 4 (key_idx k))
      && (tx_key k
          && (not (mem_eq k.key_bssid broadcast_addr 6)
              && (k.key_length == 5 || k.key_length == 13)))
    else (mem_eq k.key_bssid broadcast_addr 6 || mem_eq k.key_bssid bssid 6)
      && not (ltb 4 (key_idx k))

-- The loop that repeats the key from its round `i` on.
unfoldable pub repeat_key : ℕ → ℕ → ℕ → List ℕ → List ℕ → List ℕ
repeat_key zero i len material key = key
repeat_key (suc left) i len material key =
    repeat_key left (i + 1) len material (memcpy_at key (i * len) material len)

-- The key as stored: copied, and when it is shorter than 16 bytes repeated up to there.
unfoldable pub expand_key : ℕ → List ℕ → List ℕ → List ℕ
unfolding repeat_key
expand_key len material key =
    let copied = memcpy_at key 0 material len in
    let times = 16 / len in
    if ltb len 16
    then memcpy_at (repeat_key (times - 1) 1 len material copied) (times * len) material
        (16 - times * len)
    else copied

pub data Outcome : Type 0 where
  failure divides_by_zero : Outcome
  success : Keys → Outcome

-- The writes of the function, behind its checks.
unfoldable pub install_key : NdisKey → Keys → Keys
unfolding expand_key
install_key k keys =
    let old = get_or keys.shared_key (key_idx k) no_key in
    record {
      shared_key = set keys.shared_key (key_idx k) (record {
        cipher_alg = if k.key_length == 5 then 1 else 2;
        key_len = k.key_length % 256;
        key = expand_key k.key_length k.key_material old.key;
      });
      default_key_id = if tx_key k then key_idx k % 256 else keys.default_key_id;
      port_secured = 1;
    }

-- RTMPWPAWepKeySanity. A key of length 0 that passes the checks is divided by.
unfoldable pub rtmp_wpa_wep_key_sanity : List ℕ → NdisKey → Keys → Outcome
unfolding wep_key_ok install_key
rtmp_wpa_wep_key_sanity bssid k keys =
    if not (wep_key_ok bssid k)
    then failure
    else if k.key_length == 0
    then divides_by_zero
    else success (install_key k keys)
