-- ===== src/Wpa/Digest.antt =====
-- The digests of the key handshake (Module/wpa.c, HMAC_SHA1, PRF, WpaCountPTK and GenRandom).
-- Module/md5.c holds copies of public SHA1, MD5 and AES code: they are the operations of `Crypto`,
-- on the bytes given. `memcmp_exceeds_one a b` is what the C library makes of
-- `memcmp(a, b, 32) > 1`.
pub mod Hmac
pub mod Expansion
use rt.Prelude.{
  ℕ, zero, suc, ◌+◌, ◌*◌, ◌/◌, ◌%◌, Bool, false, List, [], ◌∷◌, ◌++◌, bit_xor, ltb, ◌==◌,
  if◌then◌else◌,
}
use rt.Prelude.Lists.{length, get_or, set, take, replicate, memcpy, memcpy_at}
use rt.Auth.Frame.{le16}

pub record Crypto : Type 0 where
  pub sha1 : List ℕ → List ℕ
  pub hmac_md5 : List ℕ → List ℕ → List ℕ
  pub aes_decrypt : List ℕ → List ℕ → List ℕ
  pub memcmp_exceeds_one : List ℕ → List ℕ → Bool

-- `for (i...) pad[i] ^= byte`, with the rounds left.
unfoldable pub xor_pad : ℕ → ℕ → ℕ → List ℕ → List ℕ
xor_pad byte zero i pad = pad
xor_pad byte (suc left) i pad =
    xor_pad byte left (i + 1) (set pad i (bit_xor (get_or pad i 0) byte))

-- HMAC_SHA1 on the key of at most a block.
unfoldable pub hash_block : Crypto → List ℕ → List ℕ → ℕ → List ℕ
unfolding xor_pad
hash_block c text key key_len =
    let pad = memcpy (replicate 65 0) key key_len in
    let inner = c.sha1 (take 64 (xor_pad 54 64 0 pad) ++ text) in
    c.sha1 (take 64 (xor_pad 92 64 0 pad) ++ take 20 inner)

-- HMAC_SHA1. Its callers give keys of at most 64 bytes; the write of a longer key's digest into
-- the caller's key is left out.
unfoldable pub hmac_sha1 : Crypto → List ℕ → List ℕ → ℕ → List ℕ
unfolding hash_block
hmac_sha1 c text key key_len =
    if ltb 64 key_len
    then hash_block c text (c.sha1 (take key_len key)) 20
    else hash_block c text key key_len

-- The loop of PRF, with the rounds left: `last` is the index of the counter in the input.
unfoldable pub prf_loop : Crypto → List ℕ → ℕ → ℕ → ℕ → ℕ → List ℕ → List ℕ → List ℕ
unfolding hmac_sha1
prf_loop c key key_len last zero currentindex input output = output
prf_loop c key key_len last (suc left) currentindex input output =
    prf_loop c key key_len last left (currentindex + 20)
      (set input last ((get_or input last 0 + 1) % 256))
      (memcpy_at output currentindex (hmac_sha1 c input key key_len) 20)

-- PRF. The input's bytes are the same in the memory of kmalloc and in the static array.
unfoldable pub prf : Crypto → List ℕ → ℕ → List ℕ → List ℕ → List ℕ → ℕ → List ℕ
unfolding prf_loop
prf c key key_len prefix bytes output len =
    let input = prefix ++ (0 ∷ (bytes ++ (0 ∷ []))) in
    prf_loop c key key_len (length prefix + 1 + length bytes) ((len + 19) / 20) 0 input output

-- `memcmp(a, b, n) > 0`, from `i` on with the bytes left.
unfoldable pub mem_gt_from : List ℕ → List ℕ → ℕ → ℕ → Bool
mem_gt_from a b zero i = false
mem_gt_from a b (suc left) i =
    let rest = mem_gt_from a b left (i + 1) in
    if get_or a i 0 == get_or b i 0 then rest else ltb (get_or b i 0) (get_or a i 0)

abbrev pub mem_gt : List ℕ → List ℕ → ℕ → Bool
mem_gt a b n = mem_gt_from a b n 0

-- "Pairwise key expansion".
abbrev pub pairwise_prefix : List ℕ
pairwise_prefix =
    80 ∷ 97 ∷ 105 ∷ 114 ∷ 119 ∷ 105 ∷ 115 ∷ 101 ∷ 32 ∷ 107 ∷ 101 ∷ 121 ∷ 32 ∷ 101 ∷ 120 ∷ 112 ∷ 97
    ∷ 110 ∷ 115 ∷ 105 ∷ 111 ∷ 110 ∷ []

-- WpaCountPTK: the four pieces of `concatenation`, and the key.
unfoldable pub concatenation : Crypto → List ℕ → List ℕ → List ℕ → List ℕ → List ℕ
concatenation c a_nonce aa s_nonce sa =
    take 6 (if mem_gt sa aa 6 then aa else sa)
    ++ (take 6 (if mem_gt sa aa 6 then sa else aa)
        ++ (take 32 (if c.memcmp_exceeds_one a_nonce s_nonce then s_nonce else a_nonce)
            ++ take 32 (if mem_gt a_nonce s_nonce 32 then a_nonce else s_nonce)))

unfoldable pub wpa_count_ptk :
    Crypto → List ℕ → List ℕ → List ℕ → List ℕ → List ℕ → List ℕ → ℕ → List ℕ
unfolding concatenation prf
wpa_count_ptk c pmk a_nonce aa s_nonce sa output len =
    prf c pmk 32 pairwise_prefix (concatenation c a_nonce aa s_nonce sa) output len

-- "Init Counter".
abbrev pub init_counter : List ℕ
init_counter = 73 ∷ 110 ∷ 105 ∷ 116 ∷ 32 ∷ 67 ∷ 111 ∷ 117 ∷ 110 ∷ 116 ∷ 101 ∷ 114 ∷ []

-- The bytes of `local` in round `i`: the offset 12 leaves six zero bytes behind the address, and
-- `unsigned long` has four bytes.
abbrev pub local_bytes : List ℕ → ℕ → List ℕ → ℕ → List ℕ
local_bytes address jiffies result i =
    take 6 address
    ++ (replicate 6 0 ++ (le16 jiffies ++ (le16 (jiffies / 65536) ++ (take 32 result ++ le16 i))))

-- The loop of GenRandom, with the rounds left; the clock is read in each.
unfoldable pub random_loop : Crypto → List ℕ → (ℕ → ℕ) → ℕ → ℕ → List ℕ → List ℕ
unfolding prf
random_loop c address jiffies zero i result = result
random_loop c address jiffies (suc left) i result =
    random_loop c address jiffies left (i + 1)
      (prf c (replicate 32 0) 32 init_counter (local_bytes address (jiffies i) result i) result 32)

-- GenRandom; without memory it leaves the array as it is.
unfoldable pub gen_random : Crypto → Bool → List ℕ → (ℕ → ℕ) → List ℕ → List ℕ
unfolding random_loop
gen_random c alloc address jiffies random =
    if alloc then memcpy random (random_loop c address jiffies 32 0 (replicate 80 0)) 32 else random
