-- ===== src/Wep/Arcfour/Stream.antt =====
-- Encryption and decryption of streams of bytes (Module/rtmp_wep.c).
use rt.Prelude.{ℕ, suc, ◌≡◌, refl, ap, List, [], ◌∷◌, ◌++◌, bit_xor}
use rt.Prelude.Lists.{length}
use rt.Prelude.Bits.{bit_xor_cancel}
use rt.Wep.Arcfour.{Arcfour, arcfour_byte, arcfour_encrypt, arcfour_decrypt}

-- With the same context ARCFOUR_DECRYPT gives back what ARCFOUR_ENCRYPT was given, both leave the
-- context in the same state, and the length is kept.
pub decrypt-encrypt :
    (ctx : Arcfour) (src : List ℕ)
    → (arcfour_decrypt ctx (arcfour_encrypt ctx src).1 ≡ ((arcfour_encrypt ctx src).0, src))
      × (length (arcfour_encrypt ctx src).1 ≡ length src)
unfolding arcfour_encrypt arcfour_decrypt
decrypt-encrypt ctx [] = (refl, refl)
decrypt-encrypt ctx (c ∷ src) =
    let (ctx', k) = arcfour_byte ctx in
    let (back, same) = decrypt-encrypt ctx' src in
    (λ i. ((back i).0, bit_xor_cancel c k i ∷ (back i).1), ap suc same)

-- Encrypting two pieces one after the other is encrypting them joined.
pub encrypt-append :
    (ctx : Arcfour) (a b : List ℕ)
    → arcfour_encrypt ctx (a ++ b) ≡ (
      (arcfour_encrypt (arcfour_encrypt ctx a).0 b).0,
      (arcfour_encrypt ctx a).1 ++ (arcfour_encrypt (arcfour_encrypt ctx a).0 b).1,
    )
unfolding arcfour_encrypt
encrypt-append ctx [] b = refl
encrypt-append ctx (c ∷ a) b =
    let (ctx', k) = arcfour_byte ctx in
    let rest = encrypt-append ctx' a b in λ i. ((rest i).0, bit_xor c k ∷ (rest i).1)
