-- ===== src/Wpa/Digest/Hmac.antt =====
-- HMAC_SHA1 of Module/wpa.c is the keyed hash of RFC 2104.
use rt.Prelude.{
  ℕ, zero, suc, ◌+◌, ◌-◌, ◌≤◌, ◌≡◌, refl, sym, ap, ◌∙◌, arith, List, [], ◌∷◌, ◌++◌, bit_xor, ltb,
  false, if◌then◌else◌, Bool, ap₂, Bool-cases, inl, inr,
}
use rt.Prelude.Lists.{
  length, get_or, set, take, drop, replicate, memcpy, length-take, length-append, length-drop,
}
use rt.Prelude.Lists.Pieces.{take_all, take-pieces, take-replicate, drop-replicate}
use rt.Wpa.Digest.{Crypto, xor_pad, hash_block, hmac_sha1}

pub xor_all : ℕ → List ℕ → List ℕ
xor_all byte [] = []
xor_all byte (x ∷ xs) = bit_xor x byte ∷ xor_all byte xs

-- The key filled up with zeros to the 64 bytes of a block.
pub block_key : List ℕ → List ℕ
block_key key = key ++ replicate (64 - length key) 0

-- RFC 2104, for a hash with blocks of 64 bytes and a key of at most one block.
unfoldable pub keyed_hash : (List ℕ → List ℕ) → List ℕ → List ℕ → List ℕ
unfolding xor_all block_key
keyed_hash hash key text =
    hash (xor_all 92 (block_key key) ++ hash (xor_all 54 (block_key key) ++ text))

xor_pad-cons :
    (byte left i x : ℕ) (xs : List ℕ)
    → xor_pad byte left (suc i) (x ∷ xs) ≡ x ∷ xor_pad byte left i xs
unfolding xor_pad
xor_pad-cons byte zero i x xs = refl
xor_pad-cons byte (suc left) i x xs =
    ap (λ (j : ℕ). xor_pad byte left j (x ∷ set xs i (bit_xor (get_or xs i 0) byte))) (suc_first i)
    ∙ xor_pad-cons byte left (i + 1) x (set xs i (bit_xor (get_or xs i 0) byte))
  where
    suc_first : (i : ℕ) → suc i + 1 ≡ suc (i + 1)
    suc_first i = omega arith

take-xor_pad :
    (byte left : ℕ) (xs : List ℕ)
    → left ≤ length xs
    → take left (xor_pad byte left 0 xs) ≡ xor_all byte (take left xs)
unfolding xor_pad xor_all
take-xor_pad byte zero xs h = refl
take-xor_pad byte (suc left) [] h = absurd (omega arith)
take-xor_pad byte (suc left) (x ∷ xs) h =
    ap (take (suc left)) (xor_pad-cons byte left 0 (bit_xor x byte) xs)
    ∙ ap (◌∷◌ (bit_xor x byte)) (take-xor_pad byte left xs (omega arith))

block_key-memcpy :
    (key : List ℕ) (n : ℕ)
    → n ≤ 64
    → n ≤ length key
    → take 64 (memcpy (replicate 65 0) key n) ≡ block_key (take n key)
unfolding block_key
block_key-memcpy key n h l =
    let size : length (take n key) ≡ n = length-take n key l in
    ap (λ (z : List ℕ). take 64 (take n key ++ z)) (drop-replicate n 65 (65 - n) 0 (omega arith))
    ∙ take-pieces 64 (64 - n) (take n key) (replicate (65 - n) 0) (omega (arith, size))
    ∙ ap (◌++◌ (take n key)) (take-replicate (64 - n) (65 - n) 0 (omega arith))
    ∙ ap (λ (m : ℕ). take n key ++ replicate (64 - m) 0) (sym size)

padded-keyed_hash :
    (byte n : ℕ) (key : List ℕ)
    → n ≤ 64
    → n ≤ length key
    → take 64 (xor_pad byte 64 0 (memcpy (replicate 65 0) key n))
      ≡ xor_all byte (block_key (take n key))
padded-keyed_hash byte n key h l =
    take-xor_pad byte 64 (memcpy (replicate 65 0) key n) (
      omega (
        arith,
        length-append (take n key) (drop n (replicate 65 0)),
        length-take n key l,
        length-drop n (replicate 65 0),
      ))
    ∙ ap (xor_all byte) (block_key-memcpy key n h l)

hash_block-keyed_hash :
    (c : Crypto) (text key : List ℕ) (n : ℕ)
    → ((bytes : List ℕ) → length (c.sha1 bytes) ≡ 20)
    → n ≤ 64
    → n ≤ length key
    → hash_block c text key n ≡ keyed_hash c.sha1 (take n key) text
unfolding hash_block keyed_hash
hash_block-keyed_hash c text key n size h l =
    let inner = xor_all 54 (block_key (take n key)) ++ text in
    ap₂ (λ (y z : List ℕ). c.sha1 (y ++ take 20 (c.sha1 (z ++ text))))
      (padded-keyed_hash 92 n key h l) (padded-keyed_hash 54 n key h l)
    ∙ ap (λ (z : List ℕ). c.sha1 (xor_all 92 (block_key (take n key)) ++ z))
        (take_all 20 (c.sha1 inner) (size inner))

-- For a key of at most 64 bytes and a hash of 20 bytes, HMAC_SHA1 is the keyed hash of RFC 2104.
pub hmac_sha1-keyed_hash :
    (c : Crypto) (text key : List ℕ) (n : ℕ)
    → ((bytes : List ℕ) → length (c.sha1 bytes) ≡ 20)
    → n ≤ 64
    → n ≤ length key
    → hmac_sha1 c text key n ≡ keyed_hash c.sha1 (take n key) text
unfolding hmac_sha1
hmac_sha1-keyed_hash c text key n size h l =
    let short : ltb 64 n ≡ false = ground arith in
    ap
      (λ (b : Bool).
        if b then hash_block c text (c.sha1 (take n key)) 20 else hash_block c text key n)
      short
    ∙ hash_block-keyed_hash c text key n size h l

pub length-hmac_sha1 :
    (c : Crypto) (text key : List ℕ) (n : ℕ)
    → ((bytes : List ℕ) → length (c.sha1 bytes) ≡ 20)
    → length (hmac_sha1 c text key n) ≡ 20
unfolding hmac_sha1 hash_block
length-hmac_sha1 c text key n size = elim (Bool-cases (ltb 64 n)) [
  | inl e ↦ rw (e, hmac_sha1) (size _)
  | inr e ↦ rw (e, hmac_sha1) (size _)
]
