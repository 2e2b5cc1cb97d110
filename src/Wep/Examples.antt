-- ===== src/Wep/Examples.antt =====
-- The cipher, the check sequence and the engine of Module/rtmp_wep.c at concrete bytes.
use rt.Prelude.{ℕ, zero, suc, ◌^◌, ◌<◌, ◌≡◌, ◌⊎◌, refl, List, [], ◌∷◌, ◌++◌, ◌%◌, arith}
use rt.Prelude.Lists.{length, get_or, take, replicate}
use rt.Wep.Arcfour.{Arcfour, arcfour_init, arcfour_decrypt}
use rt.Wep.Arcfour.Sbox.{IsContext, init-IsContext}
use rt.Wep.Fcs.{fcstab_32, calc_fcs32}
use rt.Wep.Fcs.Crc.{crc32, calc_fcs32-crc32}
use rt.Wep.Random.{random_byte, lfsr_init}
use rt.Wep.Random.Cycle.{IsReg, lfsr_init_lem}
use rt.Wep.Engine.{Engine, ppp_init_fcs32, rtmp_init_wep_engine, rtmp_set_icv, encrypt_pieces}
use rt.Wep.Engine.RoundTrip.{joined, icv_of, frame_round_trip}

abbrev key : List ℕ
key = (1 ∷ 2 ∷ 3 ∷ 4 ∷ 5 ∷ [])

abbrev keyed : Arcfour
keyed = arcfour_init key 5

abbrev text : List ℕ
text = (72 ∷ 105 ∷ [])

text_bytes : (i : ℕ) → get_or text i 0 < 256
text_bytes zero = omega arith
text_bytes (suc zero) = omega arith
text_bytes (suc (suc i)) = omega arith

keyed-IsContext : IsContext keyed
keyed-IsContext = init-IsContext key 5

calc_fcs32-crc32_example : calc_fcs32 4294967295 text ≡ crc32 4294967295 text
calc_fcs32-crc32_example = calc_fcs32-crc32 4294967295 text text_bytes

-- The check value of the nine digits, as IEEE 802 gives it: 0xCBF43926, complemented.
digits_check : calc_fcs32 4294967295 (49 ∷ 50 ∷ 51 ∷ 52 ∷ 53 ∷ 54 ∷ 55 ∷ 56 ∷ 57 ∷ []) ≡ 873187033
unfolding calc_fcs32 fcstab_32
digits_check = refl

lfsr_init_lem_example :
    (◌≡◌ {A = ℕ} 4294967296 0 × (lfsr_init 4294967296 ≡ 1))
    ⊎ (((0 < 4294967296 % 2 ^ 32)
          × (lfsr_init 4294967296 ≡ 4294967296 % 2 ^ 32)
          × IsReg (lfsr_init 4294967296))
        ⊎ ((0 < 4294967296)
            × ◌≡◌ {A = ℕ} (4294967296 % 2 ^ 32) 0
            × (lfsr_init 4294967296 ≡ 0)
            × (random_byte (lfsr_init 4294967296) ≡ (0, 0))))
lfsr_init_lem_example = lfsr_init_lem 4294967296

abbrev engine : Engine
engine = record { fcs = 0; ctx = keyed; wepkey = replicate 16 0; shift_reg = 1 }

abbrev pieces : List (List ℕ)
pieces = ((72 ∷ []) ∷ (105 ∷ []) ∷ [])

frame_round_trip_example :
    let (e1, head) = rtmp_init_wep_engine key 2 5 engine in
    let (e2, body) = encrypt_pieces pieces e1 in
    let (e3, icv) = rtmp_set_icv e2 in
    (length head ≡ 4)
    × ((arcfour_decrypt (arcfour_init (take 3 head ++ take 5 key) 8) (body ++ icv)).1
        ≡ joined pieces ++ icv_of (crc32 ppp_init_fcs32 (joined pieces)))
frame_round_trip_example =
    frame_round_trip key 2 5 pieces engine (omega arith) (omega arith) refl text_bytes
