-- ===== src/Tkip/Mic/Examples.antt =====
-- The message integrity code of Module/rtmp_tkip.c at concrete frames.
use rt.Prelude.{ℕ, zero, suc, ◌≡◌, refl, Bool, true, ◌&&◌, List, [], ◌∷◌, ◌++◌, ltb, arith}
use rt.Prelude.Lists.{take, drop, mem_eq, replicate}
use rt.Tkip.Mic.{
  TkipKeyInfo, rol32, ror32, get_uint32, put_uint32, set_mic_key, mix_word, append_byte, append,
  pad, get_mic, compare_mic_value,
}
use rt.Tkip.Mic.Blocks.{AllBytes, michael}
use rt.Tkip.Mic.Accept.{mic_header, compare_mic_value_lem}

abbrev all_bytes : List ℕ → Bool
all_bytes [] = true
all_bytes (b ∷ bs) = ltb b 256 && all_bytes bs

AllBytes-all_bytes : (bs : List ℕ) → all_bytes bs ≡ true → AllBytes bs
AllBytes-all_bytes [] h i = omega arith
AllBytes-all_bytes (b ∷ bs) h zero = ground arith
AllBytes-all_bytes (b ∷ bs) h (suc i) = AllBytes-all_bytes bs (ground arith) i

abbrev key : List ℕ
key = (130 ∷ 146 ∷ 92 ∷ 28 ∷ 161 ∷ 209 ∷ 48 ∷ 184 ∷ [])

key_bytes : AllBytes key
key_bytes = AllBytes-all_bytes key refl

abbrev context : TkipKeyInfo
context = record { bytes_in_m = 3; k0 = 0; k1 = 0; l = 7; r = 9; m = 5; mic = [] }

-- Two addresses, a protocol type and three bytes.
abbrev frame : List ℕ
frame = (1 ∷ 2 ∷ 3 ∷ 4 ∷ 5 ∷ 6 ∷ 7 ∷ 8 ∷ 9 ∷ 10 ∷ 11 ∷ 12 ∷ 8 ∷ 0 ∷ 77 ∷ 105 ∷ 99 ∷ [])

abbrev snap : List ℕ
snap = (170 ∷ 170 ∷ 3 ∷ 0 ∷ 0 ∷ 0 ∷ [])

-- The code of the empty message under the zero key, from the test vectors of IEEE 802.11.
empty_message :
    (get_mic (append [] (set_mic_key (replicate 8 0) context))).mic
    ≡ (130 ∷ 146 ∷ 92 ∷ 28 ∷ 161 ∷ 209 ∷ 48 ∷ 184 ∷ [])
unfolding get_mic append set_mic_key pad append_byte mix_word rol32 ror32 put_uint32 get_uint32
empty_message = refl

compare_mic_value_lem_example :
    (compare_mic_value frame frame frame key 9 context).1
    ≡ mem_eq (michael key (mic_header frame frame 0 ++ take 9 frame)) (take 8 (drop 9 frame)) 8
compare_mic_value_lem_example =
    compare_mic_value_lem frame frame frame key 9 context key_bytes
      (AllBytes-all_bytes (mic_header frame frame 0 ++ take 9 frame) refl)
