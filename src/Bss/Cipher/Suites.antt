-- ===== src/Bss/Cipher/Suites.antt =====
-- Suites behind each other, and the loops of BssCipherParse (Module/mlme.c) over them.
use rt.Prelude.{ℕ, ◌+◌, ◌*◌, ◌/◌, ◌%◌, ◌<◌, ◌≡◌, refl, sym, ap, ◌∙◌, List, [], ◌∷◌, ◌++◌, arith}
use rt.Prelude.Lists.{length, get_or, drop, get_or-drop, drop-drop}
use rt.Frames.Element.{octet_at, u16_at}
use rt.Bss.Cipher.{CipherSuite, add_pair, pair_loop, wpa2_akm, add_akm, akm_loop}

-- Suites behind each other, and a count in two bytes.
abbrev pub suites : List ℕ → List ℕ
suites [] = []
suites (t ∷ ts) = 0 ∷ 15 ∷ 172 ∷ t ∷ suites ts

abbrev pub le16 : ℕ → List ℕ
le16 n = n % 256 ∷ n / 256 % 256 ∷ []

-- The suites one after the other, in place of the loops.
unfoldable pub all_pairs : List ℕ → ℕ × CipherSuite → ℕ × CipherSuite
all_pairs [] s = s
all_pairs (t ∷ ts) s = all_pairs ts (add_pair t s)

unfoldable pub all_akms : List ℕ → ℕ × ℕ → ℕ × ℕ
all_akms [] s = s
all_akms (t ∷ ts) s = all_akms ts (add_akm wpa2_akm t s)

module _ (ies : List ℕ) where
  at-drop : (pos i : ℕ) (xs : List ℕ) → drop pos ies ≡ xs → octet_at ies (pos + i) ≡ octet_at xs i
  at-drop pos i xs e = sym (get_or-drop pos i ies 0) ∙ ap (λ t. get_or t i 0) e

  pub u16-drop :
      (pos n : ℕ) (rest : List ℕ) → drop pos ies ≡ le16 n ++ rest → n < 65536 → u16_at ies pos ≡ n
  u16-drop pos n rest e h = omega (
    arith,
    ap (λ (j : ℕ). octet_at ies j) (add_zero pos),
    at-drop pos 0 (le16 n ++ rest) e,
    at-drop pos 1 (le16 n ++ rest) e,
  )
    where
      add_zero : (p : ℕ) → p ≡ p + 0
      add_zero p = omega arith

  pub drop-further :
      (pos k q : ℕ) (xs : List ℕ) → drop pos ies ≡ xs → q ≡ k + pos → drop q ies ≡ drop k xs
  drop-further pos k q xs e h =
      ap (λ (j : ℕ). drop j ies) h ∙ sym (drop-drop pos k ies) ∙ ap (drop k) e

  pub pair_loop-suites :
      (ts : List ℕ) (pos : ℕ) (rest : List ℕ) (s : ℕ × CipherSuite)
      → drop pos ies ≡ suites ts ++ rest
      → pair_loop (length ts) pos ies s ≡ all_pairs ts s
  unfolding pair_loop all_pairs
  pair_loop-suites [] pos rest s e = refl
  pair_loop-suites (t ∷ ts) pos rest s e =
      ap (λ (u : ℕ). pair_loop (length ts) (pos + 4) ies (add_pair u s))
        (at-drop pos 3 (suites (t ∷ ts) ++ rest) e)
      ∙ pair_loop-suites ts (pos + 4) rest (add_pair t s)
          (drop-further pos 4 (pos + 4) (suites (t ∷ ts) ++ rest) e (omega arith))

  pub akm_loop-suites :
      (ts : List ℕ) (pos : ℕ) (rest : List ℕ) (s : ℕ × ℕ)
      → drop pos ies ≡ suites ts ++ rest
      → akm_loop wpa2_akm (length ts) pos ies s ≡ all_akms ts s
  unfolding akm_loop all_akms
  akm_loop-suites [] pos rest s e = refl
  akm_loop-suites (t ∷ ts) pos rest s e =
      ap (λ (u : ℕ). akm_loop wpa2_akm (length ts) (pos + 4) ies (add_akm wpa2_akm u s))
        (at-drop pos 3 (suites (t ∷ ts) ++ rest) e)
      ∙ akm_loop-suites ts (pos + 4) rest (add_akm wpa2_akm t s)
          (drop-further pos 4 (pos + 4) (suites (t ∷ ts) ++ rest) e (omega arith))

  pub drop-suites :
      (ts : List ℕ) (pos q : ℕ) (rest : List ℕ)
      → drop pos ies ≡ suites ts ++ rest
      → q ≡ pos + 4 * length ts
      → drop q ies ≡ rest
  drop-suites [] pos q rest e h = drop-further pos 0 q rest e (omega arith)
  drop-suites (t ∷ ts) pos q rest e h =
      drop-suites ts (pos + 4) q rest
        (drop-further pos 4 (pos + 4) (suites (t ∷ ts) ++ rest) e (omega arith)) (omega arith)
