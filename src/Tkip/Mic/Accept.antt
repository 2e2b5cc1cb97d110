-- ===== src/Tkip/Mic/Accept.antt =====
-- What RTMPTkipCompareMICValue accepts, and that it accepts what RTMPCalculateMICValue makes
-- (Module/rtmp_tkip.c).
use rt.Prelude.{ℕ, ◌≡◌, sym, ap, ◌∙◌, List, [], ◌∷◌, ◌++◌}
use rt.Prelude.Lists.{take, drop, mem_eq}
use rt.Tkip.Mic.{TkipKeyInfo, set_mic_key, append, get_mic, compare_mic_value}
use rt.Tkip.Mic.Blocks.{AllBytes, append-append, michael, get_mic-michael}

-- The addresses and the priority, as the code feeds them.
abbrev pub mic_header : List ℕ → List ℕ → ℕ → List ℕ
mic_header da sa priority = take 6 da ++ (take 6 sa ++ (priority ∷ 0 ∷ 0 ∷ 0 ∷ []))

header_appended :
    (da sa : List ℕ) (priority : ℕ) (t : TkipKeyInfo)
    → append (priority ∷ 0 ∷ 0 ∷ 0 ∷ []) (append (take 6 sa) (append (take 6 da) t))
      ≡ append (mic_header da sa priority) t
header_appended da sa priority t =
    sym (append-append (take 6 sa) (priority ∷ 0 ∷ 0 ∷ 0 ∷ []) (append (take 6 da) t))
    ∙ sym (append-append (take 6 da) (take 6 sa ++ (priority ∷ 0 ∷ 0 ∷ 0 ∷ [])) t)

-- RTMPTkipCompareMICValue returns TRUE exactly when the eight bytes behind the data are the Michael
-- code of the addresses, priority zero and the data, under the key.
pub compare_mic_value_lem :
    (src da sa key : List ℕ) (len : ℕ) (t : TkipKeyInfo)
    → AllBytes key
    → AllBytes (mic_header da sa 0 ++ take len src)
    → (compare_mic_value src da sa key len t).1
      ≡ mem_eq (michael key (mic_header da sa 0 ++ take len src)) (take 8 (drop len src)) 8
unfolding compare_mic_value
compare_mic_value_lem src da sa key len t p q =
    ap (λ m. mem_eq m (take 8 (drop len src)) 8)
      (ap (λ c. (get_mic (append (take len src) c)).mic)
          (header_appended da sa 0 (set_mic_key key t))
        ∙ ap (λ c. (get_mic c).mic)
            (sym (append-append (mic_header da sa 0) (take len src) (set_mic_key key t)))
        ∙ get_mic-michael key (mic_header da sa 0 ++ take len src) t p q)

-- The data of a frame as it goes on the air: the LLC header and what follows the addresses.
abbrev pub on_air : List ℕ → List ℕ → List ℕ
on_air encap skb = take 6 encap ++ (take 2 (drop 12 skb) ++ drop 14 skb)
