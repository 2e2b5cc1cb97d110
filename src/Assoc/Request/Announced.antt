-- ===== src/Assoc/Request/Announced.antt =====
-- What the security element of an association request (Module/assoc.c) says to BssCipherParse
-- (Module/mlme.c).
use rt.Prelude.{
  ℕ, ◌≡◌, ◌⊎◌, refl, ap, ◌∙◌, arith, Bool, true, false, ◌||◌, Option, none, List, [], ◌∷◌, ◌==◌,
  if◌then◌else◌, inl, inr, ltb,
}
use rt.Prelude.Lists.{length, set}
use rt.Bss.Cipher.{CipherSuite, Security, bss_cipher_parse}
use rt.Assoc.Request.{
  AssocConfig, cipher_wpa_template, cipher_wpa2_template, find_pmk, wpa_element, wpa2_element,
  security_element,
}

-- TKIP, or else AES.
abbrev pub announced : ℕ → ℕ
announced cipher = if cipher == 4 then 4 else 6

-- The elements by the ciphers and the key management: whether they are TKIP, and by 802.1X.
wpa_bytes : Bool → Bool → Bool → List ℕ
wpa_bytes group pair ieee =
    set (set (set cipher_wpa_template 11 (if group then 2 else 4)) 17 (if pair then 2 else 4)) 23
      (if ieee then 1 else 2)

wpa2_bytes : Bool → Bool → Bool → List ℕ
wpa2_bytes group pair ieee =
    set (set (set cipher_wpa2_template 7 (if group then 2 else 4)) 13 (if pair then 2 else 4)) 19
      (if ieee then 1 else 2)

-- What is parsed of an element: the suites of its kind, and the mode.
abbrev pub Says : ℕ → ℕ → ℕ → (Security → CipherSuite) → List ℕ → Type 0
Says group pair mode suite bytes =
    ((suite (bss_cipher_parse true false bytes (length bytes))).group_cipher ≡ group)
    × ((suite (bss_cipher_parse true false bytes (length bytes))).pair_cipher ≡ pair)
    × ((bss_cipher_parse true false bytes (length bytes)).auth_mode ≡ mode)

wpa-Says :
    (group pair ieee : Bool)
    → Says
        (if group then 4 else 6)
        (if pair then 4 else 6)
        (if ieee then 3 else 4)
        (λ s. s.wpa)
        (wpa_bytes group pair ieee)
unfolding wpa_bytes bss_cipher_parse rt.Prelude.Lists.mem_eq
wpa-Says true true true = (refl, refl, refl)
wpa-Says true true false = (refl, refl, refl)
wpa-Says true false true = (refl, refl, refl)
wpa-Says true false false = (refl, refl, refl)
wpa-Says false true true = (refl, refl, refl)
wpa-Says false true false = (refl, refl, refl)
wpa-Says false false true = (refl, refl, refl)
wpa-Says false false false = (refl, refl, refl)

wpa2-Says :
    (group pair ieee : Bool)
    → Says
        (if group then 4 else 6)
        (if pair then 4 else 6)
        (if ieee then 6 else 7)
        (λ s. s.wpa2)
        (wpa2_bytes group pair ieee)
unfolding wpa2_bytes bss_cipher_parse rt.Prelude.Lists.mem_eq
wpa2-Says true true true = (refl, refl, refl)
wpa2-Says true true false = (refl, refl, refl)
wpa2-Says true false true = (refl, refl, refl)
wpa2-Says true false false = (refl, refl, refl)
wpa2-Says false true true = (refl, refl, refl)
wpa2-Says false true false = (refl, refl, refl)
wpa2-Says false false true = (refl, refl, refl)
wpa2-Says false false false = (refl, refl, refl)

-- The suites that the mode is about.
abbrev pub suites_of : ℕ → Security → CipherSuite
suites_of mode s = if ltb mode 5 then s.wpa else s.wpa2

-- BssCipherParse reads in the security element of an association request the key management mode
-- of the station and the group and pairwise ciphers it asks for, TKIP for TKIP and AES for all else:
-- as WPA suites in the modes WPA and WPAPSK, and as WPA2 suites in the mode WPA2PSK and, where no
-- PMKID of the access point is saved, in the mode WPA2.
pub security_element_parsed :
    (cfg : AssocConfig) (addr : List ℕ)
    → ((cfg.auth_mode ≡ 3) ⊎ (cfg.auth_mode ≡ 4))
      ⊎ (((cfg.auth_mode ≡ 6) × (find_pmk addr cfg.saved_pmk ≡ none)) ⊎ (cfg.auth_mode ≡ 7))
    → Says
        (announced cfg.group_cipher)
        (announced cfg.pair_cipher)
        cfg.auth_mode
        (suites_of cfg.auth_mode)
        (security_element cfg addr)
unfolding security_element wpa_element wpa_bytes wpa2_element wpa2_bytes
security_element_parsed cfg addr (inl (inl h)) =
    rw h (wpa-Says (cfg.group_cipher == 4) (cfg.pair_cipher == 4) true)
security_element_parsed cfg addr (inl (inr h)) =
    rw h (wpa-Says (cfg.group_cipher == 4) (cfg.pair_cipher == 4) false)
security_element_parsed cfg addr (inr (inl (h, k))) =
    rw h (rw k (wpa2-Says (cfg.group_cipher == 4) (cfg.pair_cipher == 4) true))
security_element_parsed cfg addr (inr (inr h)) =
    rw h (wpa2-Says (cfg.group_cipher == 4) (cfg.pair_cipher == 4) false)
