-- ===== src/Wpa/Digest/Expansion.antt =====
-- What PRF and WpaCountPTK of Module/wpa.c write: the pseudo-random function of IEEE 802.11i.
use rt.Prelude.{
  ℕ, zero, suc, ◌+◌, ◌*◌, ◌/◌, ◌%◌, ◌≤◌, ◌≡◌, refl, sym, ap, ap₂, ◌∙◌, arith, Bool, true, false,
  not, ◌&&◌, List, [], ◌∷◌, ◌++◌, if◌then◌else◌,
}
use mathlib.Core.Bool.{true≢false}
use rt.Prelude.Lists.{
  length, get_or, set, take, drop, memcpy_at, length-append, length-drop, drop-drop,
}
use rt.Prelude.Lists.Pieces.{memcpy_at_next, set-pieces, get_or-pieces, append_assoc}
use rt.Wpa.Digest.Hmac.{length-hmac_sha1}
use rt.Wpa.Digest.{
  Crypto, hmac_sha1, prf_loop, prf, mem_gt, pairwise_prefix, concatenation, wpa_count_ptk,
}

module _ (c : Crypto) (key : List ℕ) (key_len : ℕ) where
  -- PRF of IEEE 802.11i: the digests of the text with a counter behind it, from `i` on.
  pub expansion : List ℕ → ℕ → ℕ → List ℕ
  expansion text zero i = []
  expansion text (suc n) i =
      hmac_sha1 c (text ++ (i % 256 ∷ [])) key key_len ++ expansion text n (i + 1)

  module _ (size : (text : List ℕ) → length (hmac_sha1 c text key key_len) ≡ 20)
      (text : List ℕ) where
    prf_loop-expansion :
        (left i : ℕ) (done rest : List ℕ) (n : ℕ)
        → length done ≡ n
        → left * 20 ≤ length rest
        → prf_loop c key key_len (length text) left n (text ++ (i % 256 ∷ [])) (done ++ rest)
          ≡ done ++ (expansion text left i ++ drop (left * 20) rest)
    unfolding prf_loop expansion
    prf_loop-expansion zero i done rest n h l = refl
    prf_loop-expansion (suc left) i done rest n h l =
        let input = text ++ (i % 256 ∷ []) in
        let digest = hmac_sha1 c input key key_len in
        let counted : set input (length text) ((get_or input (length text) 0 + 1) % 256)
            ≡ text ++ ((i + 1) % 256 ∷ []) =
          set-pieces (length text) text [] (i % 256) _ refl
          ∙ ap (λ (x : ℕ). text ++ (x ∷ []))
              (ap (λ (x : ℕ). (x + 1) % 256) (get_or-pieces (length text) text [] (i % 256) 0 refl)
                ∙ next_count i) in
        let written : memcpy_at (done ++ rest) n digest 20 ≡ (done ++ digest) ++ drop 20 rest =
          memcpy_at_next done digest rest n 20 h (size input) in
        ap₂ (prf_loop c key key_len (length text) left (n + 20)) counted written
        ∙ prf_loop-expansion left (i + 1) (done ++ digest) (drop 20 rest) (n + 20)
            (omega (arith, length-append done digest, size input, h))
            (omega (arith, length-drop 20 rest))
        ∙ append_assoc done digest _
        ∙ ap (◌++◌ done) (
            sym (append_assoc digest (expansion text left (i + 1)) _)
            ∙ ap (λ (z : List ℕ). (digest ++ expansion text left (i + 1)) ++ z)
                (drop-drop 20 (left * 20) rest ∙ ap (λ (k : ℕ). drop k rest) (omega arith)))
      where
        next_count : (i : ℕ) → (i % 256 + 1) % 256 ≡ (i + 1) % 256
        next_count i = omega arith

-- The text of the function: the label, a zero byte and the data.
abbrev pub labelled : List ℕ → List ℕ → List ℕ
labelled prefix bytes = prefix ++ (0 ∷ bytes)

pub prf-expansion :
    (c : Crypto) (key : List ℕ) (key_len : ℕ) (prefix bytes output : List ℕ) (len : ℕ)
    → ((text : List ℕ) → length (c.sha1 text) ≡ 20)
    → (len + 19) / 20 * 20 ≤ length output
    → prf c key key_len prefix bytes output len
      ≡ expansion c key key_len (labelled prefix bytes) ((len + 19) / 20) 0
        ++ drop ((len + 19) / 20 * 20) output
unfolding prf
prf-expansion c key key_len prefix bytes output len size room =
    ap₂
      (λ (last : ℕ) (input : List ℕ). prf_loop c key key_len last ((len + 19) / 20) 0 input output)
      (omega (arith, length-append prefix (0 ∷ bytes)))
      (sym (append_assoc prefix (0 ∷ bytes) (0 ∷ [])))
    ∙ prf_loop-expansion c key key_len (λ text. length-hmac_sha1 c text key key_len size)
        (labelled prefix bytes) ((len + 19) / 20) 0 [] output 0 refl room

-- The smaller and the larger of two arrays of bytes.
pub lower : List ℕ → List ℕ → ℕ → List ℕ
lower a b n = take n (if mem_gt a b n then b else a)

pub higher : List ℕ → List ℕ → ℕ → List ℕ
higher a b n = take n (if mem_gt a b n then a else b)

-- The data of the pairwise key expansion of IEEE 802.11i.
pub pairwise_bytes : List ℕ → List ℕ → List ℕ → List ℕ → List ℕ
pairwise_bytes a_nonce aa s_nonce sa =
    lower sa aa 6 ++ (higher sa aa 6 ++ (lower a_nonce s_nonce 32 ++ higher a_nonce s_nonce 32))

-- The data that the code takes. Where the authenticator's nonce is the larger one and the comparison
-- gives exactly one, that nonce stands in both places and the station's in none.
pub compared_bytes : Crypto → List ℕ → List ℕ → List ℕ → List ℕ → List ℕ
compared_bytes c a_nonce aa s_nonce sa =
    if mem_gt a_nonce s_nonce 32 && not (c.memcmp_exceeds_one a_nonce s_nonce)
    then lower sa aa 6 ++ (higher sa aa 6 ++ (take 32 a_nonce ++ take 32 a_nonce))
    else pairwise_bytes a_nonce aa s_nonce sa

-- The two comparisons agree, unless the first gives exactly one.
nonces :
    (exceeds gt : Bool) (a s : List ℕ)
    → (exceeds ≡ true → gt ≡ true)
    → take 32 (if exceeds then s else a) ++ take 32 (if gt then a else s) ≡ (
        if gt && not exceeds
        then take 32 a ++ take 32 a
        else take 32 (if gt then s else a) ++ take 32 (if gt then a else s))
nonces true true a s h = refl
nonces true false a s h = absurd (true≢false (sym (h refl)))
nonces false true a s h = refl
nonces false false a s h = refl

behind_test :
    (b : Bool) (l m x y : List ℕ)
    → l ++ (m ++ (if b then x else y)) ≡ (if b then l ++ (m ++ x) else l ++ (m ++ y))
behind_test true l m x y = refl
behind_test false l m x y = refl

concatenation-compared_bytes :
    (c : Crypto) (a_nonce aa s_nonce sa : List ℕ)
    → (c.memcmp_exceeds_one a_nonce s_nonce ≡ true → mem_gt a_nonce s_nonce 32 ≡ true)
    → concatenation c a_nonce aa s_nonce sa ≡ compared_bytes c a_nonce aa s_nonce sa
unfolding concatenation compared_bytes pairwise_bytes lower higher
concatenation-compared_bytes c a_nonce aa s_nonce sa more =
    let first = take 6 (if mem_gt sa aa 6 then aa else sa) in
    let last = take 6 (if mem_gt sa aa 6 then sa else aa) in
    ap (λ (z : List ℕ). first ++ (last ++ z))
      (nonces (c.memcmp_exceeds_one a_nonce s_nonce) (mem_gt a_nonce s_nonce 32) a_nonce s_nonce
        more)
    ∙ behind_test (mem_gt a_nonce s_nonce 32 && not (c.memcmp_exceeds_one a_nonce s_nonce)) first
        last _ _

-- With a hash of 20 bytes and room for 80, and a memcmp that gives more than one only where the first
-- nonce is larger, WpaCountPTK writes 80 bytes of the key expansion of IEEE 802.11i and no byte behind
-- them: over the smaller and the larger address and nonce, unless the authenticator's nonce is larger
-- and memcmp gives no more than one; then over that nonce twice, without the station's.
pub wpa_count_ptk-expansion :
    (c : Crypto) (pmk a_nonce aa s_nonce sa output : List ℕ)
    → ((text : List ℕ) → length (c.sha1 text) ≡ 20)
    → (c.memcmp_exceeds_one a_nonce s_nonce ≡ true → mem_gt a_nonce s_nonce 32 ≡ true)
    → 80 ≤ length output
    → wpa_count_ptk c pmk a_nonce aa s_nonce sa output 64
      ≡ expansion c pmk 32 (labelled pairwise_prefix (compared_bytes c a_nonce aa s_nonce sa)) 4 0
        ++ drop 80 output
unfolding wpa_count_ptk
wpa_count_ptk-expansion c pmk a_nonce aa s_nonce sa output size more room =
    ap (λ (z : List ℕ). prf c pmk 32 pairwise_prefix z output 64)
      (concatenation-compared_bytes c a_nonce aa s_nonce sa more)
    ∙ prf-expansion c pmk 32 pairwise_prefix (compared_bytes c a_nonce aa s_nonce sa) output 64 size
        room
