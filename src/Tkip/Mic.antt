-- ===== src/Tkip/Mic.antt =====
-- The message integrity code (Module/rtmp_tkip.c, RTMPTkipGetUInt32 to RTMPTkipGetMIC,
-- RTMPInitMICEngine, RTMPTkipCompareMICValue and RTMPCalculateMICValue; the context is
-- TKIP_KEY_INFO of Module/rtmp.h). `ULONG` is a 32-bit word.
pub mod Blocks
pub mod Accept
mod Examples
use rt.Prelude.{
  ℕ, zero, suc, ◌+◌, ◌-◌, ◌*◌, ◌/◌, ◌%◌, ◌^◌, Bool, Option, none, some, List, [], ◌∷◌, ◌++◌,
  bit_and, bit_or, bit_xor, leb, ◌==◌, if◌then◌else◌,
}
use rt.Prelude.Lists.{length, get_or, take, drop, mem_eq}

-- The fields that the code uses.
pub record TkipKeyInfo : Type 0 where
  pub bytes_in_m : ℕ
  pub k0 : ℕ
  pub k1 : ℕ
  pub l : ℕ
  pub r : ℕ
  pub m : ℕ
  pub mic : List ℕ

-- ROL32 and ROR32.
unfoldable pub rol32 : ℕ → ℕ → ℕ
rol32 a n = bit_or (a * 2 ^ n % 2 ^ 32) (bit_and (a / 2 ^ (32 - n)) (2 ^ n - 1))

unfoldable pub ror32 : ℕ → ℕ → ℕ
unfolding rol32
ror32 a n = rol32 a (32 - n)

-- RTMPTkipGetUInt32 at the byte `i`.
unfoldable pub get_uint32 : List ℕ → ℕ → ℕ
get_uint32 key i =
    bit_or
      (bit_or (bit_or (bit_or 0 (get_or key i 0)) (get_or key (i + 1) 0 * 2 ^ 8))
        (get_or key (i + 2) 0 * 2 ^ 16))
      (get_or key (i + 3) 0 * 2 ^ 24)

-- The bytes that RTMPTkipPutUInt32 writes.
unfoldable pub put_uint32 : ℕ → List ℕ
put_uint32 val =
    (val % 256 ∷ val / 256 % 256 ∷ val / 256 / 256 % 256 ∷ val / 256 / 256 / 256 % 256 ∷ [])

-- RTMPTkipSetMICKey.
unfoldable pub set_mic_key : List ℕ → TkipKeyInfo → TkipKeyInfo
set_mic_key key t = record t {
  k0 = get_uint32 key 0;
  k1 = get_uint32 key 4;
  l = get_uint32 key 0;
  r = get_uint32 key 4;
  bytes_in_m = 0;
  m = 0;
}

-- The middle part of RTMPTkipAppendByte, on a full word.
unfoldable pub mix_word : ℕ → ℕ → ℕ → ℕ × ℕ
unfolding rol32 ror32
mix_word l r m =
    let l1 = bit_xor l m in
    let r1 = bit_xor r (rol32 l1 17) in
    let l2 = (l1 + r1) % 2 ^ 32 in
    let r2 =
      bit_xor r1 (bit_or (bit_and l2 4278255360 / 2 ^ 8) (bit_and l2 16711935 * 2 ^ 8 % 2 ^ 32)) in
    let l3 = (l2 + r2) % 2 ^ 32 in
    let r3 = bit_xor r2 (rol32 l3 3) in
    let l4 = (l3 + r3) % 2 ^ 32 in
    let r4 = bit_xor r3 (ror32 l4 2) in let l5 = (l4 + r4) % 2 ^ 32 in (l5, r4)

-- RTMPTkipAppendByte.
unfoldable pub append_byte : ℕ → TkipKeyInfo → TkipKeyInfo
append_byte c t =
    let m = bit_or t.m (c * 2 ^ (8 * t.bytes_in_m) % 2 ^ 32) in
    let n = t.bytes_in_m + 1 in
    let (l, r) = mix_word t.l t.r m in
    if leb 4 n
    then record t { l = l; r = r; m = 0; bytes_in_m = 0 }
    else record t { m = m; bytes_in_m = n }

-- RTMPTkipAppend over the `nBytes` bytes given.
unfoldable pub append : List ℕ → TkipKeyInfo → TkipKeyInfo
append [] t = t
append (c ∷ src) t = append src (append_byte c t)

-- The loop of RTMPTkipGetMIC; `fuel` bounds the rounds.
unfoldable pub pad : ℕ → TkipKeyInfo → TkipKeyInfo
unfolding append_byte
pad zero t = t
pad (suc fuel) t = let rest = pad fuel (append_byte 0 t) in if t.bytes_in_m == 0 then t else rest

-- RTMPTkipGetMIC.
unfoldable pub get_mic : TkipKeyInfo → TkipKeyInfo
unfolding append pad put_uint32
get_mic t =
    let end = pad 3 (append (90 ∷ 0 ∷ 0 ∷ 0 ∷ 0 ∷ []) t) in
    record end { mic = put_uint32 end.l ++ put_uint32 end.r }

-- RTMPInitMICEngine; `Priority` is a word of four bytes, the user priority in the lowest.
unfoldable pub init_mic_engine : List ℕ → List ℕ → ℕ → List ℕ → TkipKeyInfo → TkipKeyInfo
unfolding append set_mic_key
init_mic_engine da sa user_priority mic_key t =
    append (user_priority ∷ 0 ∷ 0 ∷ 0 ∷ [])
      (append (take 6 sa) (append (take 6 da) (set_mic_key mic_key t)))

-- RTMPTkipCompareMICValue: the context, and whether the code behind the `len` bytes is right.
unfoldable pub compare_mic_value :
    List ℕ → List ℕ → List ℕ → List ℕ → ℕ → TkipKeyInfo → TkipKeyInfo × Bool
unfolding append set_mic_key get_mic
compare_mic_value src da sa mic_key len t =
    let t1 = append (take 6 da) (set_mic_key mic_key t) in
    let t2 = append (0 ∷ 0 ∷ 0 ∷ 0 ∷ []) (append (take 6 sa) t1) in
    let end = get_mic (append (take len src) t2) in (end, mem_eq end.mic (take 8 (drop len src)) 8)

-- The bytes that stand for the LLC header: what encapsulates, and the protocol type.
unfoldable pub append_encap : Option (List ℕ) → List ℕ → TkipKeyInfo → TkipKeyInfo
unfolding append
append_encap none skb t = t
append_encap (some encap) skb t = append (take 2 (drop 12 skb)) (append (take 6 encap) t)

-- RTMPCalculateMICValue of a frame of at least fourteen bytes.
unfoldable pub calculate_mic_value :
    List ℕ → ℕ → Option (List ℕ) → List ℕ → TkipKeyInfo → TkipKeyInfo
unfolding append init_mic_engine append_encap get_mic
calculate_mic_value skb user_priority encap tx_mic t =
    let start = init_mic_engine skb (drop 6 skb) user_priority tx_mic t in
    get_mic (append (drop 14 skb) (append_encap encap skb start))
