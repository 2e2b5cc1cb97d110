-- ===== src/Frames/WepKey/Install.antt =====
-- What RTMPWPAWepKeySanity (Module/sanity.c) leaves in the adapter's keys.
use rt.Prelude.{ℕ, ◌%◌, ◌≤◌, ◌<◌, ◌≡◌, refl, sym, ap, ◌∙◌, ◌≢◌, true, false, List, ◌==◌, arith}
use rt.Prelude.Lists.{length, get_or, get_or-set_self, get_or-set_ne}
use rt.Frames.WepKey.{
  CipherKey, NdisKey, Keys, no_key, key_idx, wep_key_ok, install_key, rtmp_wpa_wep_key_sanity,
  success, divides_by_zero,
}
use rt.Frames.WepKey.Expand.{expand_key_lem}

-- A key of 1 to 16 bytes for one of the four places that passes the checks is stored over and over
-- up to 16 bytes at its place, and the other places keep their keys.
pub wep_key_installed :
    (bssid : List ℕ) (k : NdisKey) (keys : Keys) (j i : ℕ)
    → wep_key_ok bssid k ≡ true
    → key_idx k < 4
    → 0 < k.key_length
    → k.key_length ≤ 16
    → k.key_length ≤ length k.key_material
    → length keys.shared_key ≡ 4
    → length (get_or keys.shared_key (key_idx k) no_key).key ≡ 16
    → j < 16
    → i ≢ key_idx k
    → (keys' : Keys) × (rtmp_wpa_wep_key_sanity bssid k keys ≡ success keys')
      × (get_or (get_or keys'.shared_key (key_idx k) no_key).key j 0
          ≡ get_or k.key_material (j % k.key_length) 0)
      × (get_or keys'.shared_key i no_key ≡ get_or keys.shared_key i no_key)
unfolding rtmp_wpa_wep_key_sanity install_key
wep_key_installed bssid k keys j i ok place some_bytes fits given four sixteen b other =
    let positive : (k.key_length == 0) ≡ false = ground arith in
    (
      install_key k keys,
      rw ok (rw positive refl),
      ap (λ (c : CipherKey). get_or c.key j 0)
            (get_or-set_self keys.shared_key (key_idx k) _ no_key (omega (arith, four, place)))
          ∙ expand_key_lem k.key_length k.key_material _ j some_bytes fits given sixteen b,
      get_or-set_ne keys.shared_key (key_idx k) i _ no_key (λ e. other (sym e)),
    )

-- A group key of length 0 that passes the checks is divided by.
pub empty_key_divides :
    (bssid : List ℕ) (k : NdisKey) (keys : Keys)
    → wep_key_ok bssid k ≡ true
    → k.key_length ≡ 0
    → rtmp_wpa_wep_key_sanity bssid k keys ≡ divides_by_zero
unfolding rtmp_wpa_wep_key_sanity
empty_key_divides bssid k keys ok empty = rw ok (rw empty refl)
