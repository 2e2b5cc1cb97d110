-- ===== src/Bss/Cipher/Examples.antt =====
-- BssCipherParse of Module/mlme.c at concrete elements.
use rt.Prelude.{◌≡◌, refl, false, [], ◌∷◌}
use rt.Bss.Cipher.{Security, CipherSuite}
use rt.Bss.Cipher.Rsn.{rsn_meaning}

-- AES is the cipher of the station, and key management is WPA2-PSK.
mixed_mode : (rsn_meaning false 2 (4 ∷ 2 ∷ []) (2 ∷ []) 0).wep_status ≡ 6
unfolding rsn_meaning rt.Bss.Cipher.Meaning.rsn_security
mixed_mode = refl
