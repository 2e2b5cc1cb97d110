-- ===== src/Tkip/Mic/Blocks.antt =====
-- The message integrity code of Module/rtmp_tkip.c against Michael as IEEE 802.11 states it: the
-- message is padded to a whole number of words, and each word is mixed into the two of the key.
use rt.Prelude.{
  ℕ, zero, suc, ◌+◌, ◌-◌, ◌*◌, ◌%◌, ◌^◌, ◌≤◌, ◌<◌, ◌≡◌, refl, sym, ap, ap₂, ◌∙◌, List, [], ◌∷◌,
  ◌++◌, bit_or, bit_and, bit_xor, ◌/◌, arith,
}
use rt.Prelude.Lists.{
  length, get_or, take, replicate, length-append, length-replicate, get_or-append, get_or-replicate,
}
use rt.Prelude.Bits.{bit_or_fields, zero-bit_or}
use rt.Tkip.Mic.{
  TkipKeyInfo, get_uint32, put_uint32, set_mic_key, mix_word, append_byte, append, pad, get_mic,
}

-- A little-endian word.
abbrev pub word : ℕ → ℕ → ℕ → ℕ → ℕ
word a b c d = a + 256 * b + 65536 * c + 16777216 * d

-- The block function of IEEE 802.11: rotations, the exchange of the bytes in each half of a word,
-- and sums.
abbrev pub rotate_left : ℕ → ℕ → ℕ
rotate_left n a = bit_or (a * 2 ^ n % 4294967296) (bit_and (a / 2 ^ (32 - n)) (2 ^ n - 1))

abbrev pub exchange_bytes : ℕ → ℕ
exchange_bytes a = bit_or (bit_and a 4278255360 / 256) (bit_and a 16711935 * 256 % 4294967296)

unfoldable pub michael_block : ℕ → ℕ → ℕ × ℕ
michael_block l r =
    let r1 = bit_xor r (rotate_left 17 l) in
    let l1 = (l + r1) % 4294967296 in
    let r2 = bit_xor r1 (exchange_bytes l1) in
    let l2 = (l1 + r2) % 4294967296 in
    let r3 = bit_xor r2 (rotate_left 3 l2) in
    let l3 = (l2 + r3) % 4294967296 in
    let r4 = bit_xor r3 (rotate_left 30 l3) in ((l3 + r4) % 4294967296, r4)

mix_word-michael_block : (l r m : ℕ) → mix_word l r m ≡ michael_block (bit_xor l m) r
unfolding mix_word michael_block
mix_word-michael_block l r m = refl

-- The words of a message mixed in, four bytes at a time; fewer than four at the end are left.
unfoldable pub blocks : ℕ × ℕ → List ℕ → ℕ × ℕ
blocks lr (a ∷ b ∷ c ∷ d ∷ rest) = blocks (michael_block (bit_xor lr.0 (word a b c d)) lr.1) rest
blocks lr _ = lr

-- The padding: one byte 0x5a and four to seven zeros, to a whole number of words.
abbrev pub padding : ℕ → List ℕ
padding len = 90 ∷ 0 ∷ 0 ∷ 0 ∷ 0 ∷ replicate (3 - len % 4) 0

abbrev pub AllBytes : List ℕ → Type 0
AllBytes bs = (i : ℕ) → get_or bs i 0 < 256

-- The four bytes of a word as the code joins them.
or_word :
    (a b c d : ℕ)
    → a < 256
    → b < 256
    → c < 256
    → d < 256
    → bit_or (bit_or (bit_or (bit_or 0 a) (b * 2 ^ 8)) (c * 2 ^ 16)) (d * 2 ^ 24) ≡ word a b c d
or_word a b c d p q r s =
    ap (λ t. bit_or (bit_or (bit_or t (b * 2 ^ 8)) (c * 2 ^ 16)) (d * 2 ^ 24)) (zero-bit_or a)
    ∙ ap (λ t. bit_or (bit_or t (c * 2 ^ 16)) (d * 2 ^ 24)) (bit_or_fields 8 b a p)
    ∙ ap (λ t. bit_or t (d * 2 ^ 24)) (bit_or_fields 16 c (a + b * 2 ^ 8) (omega arith))
    ∙ bit_or_fields 24 d (a + b * 2 ^ 8 + c * 2 ^ 16) (omega arith)
    ∙ omega arith

-- A context at a word's boundary.
abbrev at_word : TkipKeyInfo → ℕ × ℕ → TkipKeyInfo
at_word t (l, r) = record t { l = l; r = r; m = 0; bytes_in_m = 0 }

append_word :
    (t : TkipKeyInfo) (lr : ℕ × ℕ) (a b c d : ℕ)
    → a < 256
    → b < 256
    → c < 256
    → d < 256
    → append_byte d (append_byte c (append_byte b (append_byte a (at_word t lr))))
      ≡ at_word t (michael_block (bit_xor lr.0 (word a b c d)) lr.1)
unfolding append_byte
append_word t lr a b c d p q r s =
    ap (λ m. at_word t (mix_word lr.0 lr.1 m)) (shifts ∙ or_word a b c d p q r s)
    ∙ ap (at_word t) (mix_word-michael_block lr.0 lr.1 (word a b c d))
  where
    shifts :
        bit_or
          (bit_or
            (bit_or (bit_or 0 (a * 2 ^ (8 * 0) % 2 ^ 32)) (b * 2 ^ (8 * 1) % 2 ^ 32))
            (c * 2 ^ (8 * 2) % 2 ^ 32))
          (d * 2 ^ (8 * 3) % 2 ^ 32)
        ≡ bit_or (bit_or (bit_or (bit_or 0 a) (b * 2 ^ 8)) (c * 2 ^ 16)) (d * 2 ^ 24)
    shifts =
        let e0 : a * 2 ^ (8 * 0) % 2 ^ 32 ≡ a = omega arith in
        let e1 : b * 2 ^ (8 * 1) % 2 ^ 32 ≡ b * 2 ^ 8 = omega arith in
        let e2 : c * 2 ^ (8 * 2) % 2 ^ 32 ≡ c * 2 ^ 16 = omega arith in
        let e3 : d * 2 ^ (8 * 3) % 2 ^ 32 ≡ d * 2 ^ 24 = omega arith in
        λ i. bit_or (bit_or (bit_or (bit_or 0 (e0 i)) (e1 i)) (e2 i)) (e3 i)

pub append-append : (a b : List ℕ) (t : TkipKeyInfo) → append (a ++ b) t ≡ append b (append a t)
unfolding append
append-append [] b t = refl
append-append (c ∷ a) b t = append-append a b (append_byte c t)

append-blocks :
    (bs : List ℕ) (t : TkipKeyInfo) (lr : ℕ × ℕ)
    → length bs % 4 ≡ 0
    → AllBytes bs
    → append bs (at_word t lr) ≡ at_word t (blocks lr bs)
unfolding append blocks
append-blocks [] t lr e h = refl
append-blocks (a ∷ []) t lr e h = absurd (omega arith)
append-blocks (a ∷ b ∷ []) t lr e h = absurd (omega arith)
append-blocks (a ∷ b ∷ c ∷ []) t lr e h = absurd (omega arith)
append-blocks (a ∷ b ∷ c ∷ d ∷ bs) t lr e h =
    ap (append bs) (append_word t lr a b c d (h 0) (h 1) (h 2) (h 3))
    ∙ append-blocks bs t (michael_block (bit_xor lr.0 (word a b c d)) lr.1) (omega arith)
        (λ i. h (suc (suc (suc (suc i)))))

-- How many bytes wait in the word.
append_byte_count :
    (c : ℕ) (t : TkipKeyInfo)
    → t.bytes_in_m < 4
    → (append_byte c t).bytes_in_m ≡ (t.bytes_in_m + 1) % 4
unfolding append_byte
append_byte_count c t h = ground arith

append_count :
    (bs : List ℕ) (t : TkipKeyInfo)
    → t.bytes_in_m < 4
    → (append bs t).bytes_in_m ≡ (t.bytes_in_m + length bs) % 4
unfolding append
append_count [] t h = omega arith
append_count (c ∷ bs) t h = omega (
  arith,
  append_byte_count c t h,
  append_count bs (append_byte c t) (omega (arith, append_byte_count c t h)),
)

-- The loop of RTMPTkipGetMIC appends zeros to the boundary; three rounds are enough.
pad-append :
    (fuel k : ℕ) (t : TkipKeyInfo)
    → t.bytes_in_m < 4
    → (t.bytes_in_m + k) % 4 ≡ 0
    → k < 4
    → k ≤ fuel
    → pad fuel t ≡ append (replicate k 0) t
unfolding pad append
pad-append zero zero t h e p q = refl
pad-append zero (suc k) t h e p q = absurd (omega arith)
pad-append (suc fuel) zero t h e p q = ground arith
pad-append (suc fuel) (suc k) t h e p q =
    let count = append_byte_count 0 t h in
    ground (
      arith,
      pad-append fuel k (append_byte 0 t) (omega (arith, count)) (omega (arith, count))
          (omega arith) (omega arith),
    )

pub AllBytes-append : (a b : List ℕ) → AllBytes a → AllBytes b → AllBytes (a ++ b)
AllBytes-append a b p q i = ground (arith, get_or-append a b i 0, p i, q (i - length a))

padding_bytes : (n : ℕ) → AllBytes (replicate n 0)
padding_bytes n i = omega (arith, get_or-replicate {A = ℕ} n i 0)

padding-AllBytes : (len : ℕ) → AllBytes (padding len)
padding-AllBytes len =
    AllBytes-append (90 ∷ 0 ∷ 0 ∷ 0 ∷ 0 ∷ []) (replicate (3 - len % 4) 0) front
      (padding_bytes (3 - len % 4))
  where
    front : AllBytes (90 ∷ 0 ∷ 0 ∷ 0 ∷ 0 ∷ [])
    front zero = omega arith
    front (suc zero) = omega arith
    front (suc (suc zero)) = omega arith
    front (suc (suc (suc zero))) = omega arith
    front (suc (suc (suc (suc zero)))) = omega arith
    front (suc (suc (suc (suc (suc i))))) = omega arith

-- The word of the key at the byte `i`.
abbrev pub key_word : List ℕ → ℕ → ℕ
key_word key i =
    word (get_or key i 0) (get_or key (i + 1) 0) (get_or key (i + 2) 0) (get_or key (i + 3) 0)

-- A word in memory.
abbrev pub word_bytes : ℕ → List ℕ
word_bytes w = w % 256 ∷ w / 256 % 256 ∷ w / 256 / 256 % 256 ∷ w / 256 / 256 / 256 % 256 ∷ []

-- Michael of a message under a key of eight bytes.
pub michael : List ℕ → List ℕ → List ℕ
michael key msg =
    let (l, r) = blocks (key_word key 0, key_word key 4) (msg ++ padding (length msg)) in
    word_bytes l ++ word_bytes r

get_uint32-word : (key : List ℕ) (i : ℕ) → AllBytes key → get_uint32 key i ≡ key_word key i
unfolding get_uint32
get_uint32-word key i h = or_word _ _ _ _ (h i) (h (i + 1)) (h (i + 2)) (h (i + 3))

-- The whole message, padding included, appended to a fresh context.
padded_end :
    (msg : List ℕ) (t : TkipKeyInfo) (lr : ℕ × ℕ)
    → AllBytes msg
    → pad 3 (append (90 ∷ 0 ∷ 0 ∷ 0 ∷ 0 ∷ []) (append msg (at_word t lr)))
      ≡ at_word t (blocks lr (msg ++ padding (length msg)))
padded_end msg t lr h =
    pad-append 3 (3 - length msg % 4) (append (90 ∷ 0 ∷ 0 ∷ 0 ∷ 0 ∷ []) (append msg (at_word t lr)))
      (omega (arith, count)) (omega (arith, count)) (omega arith) (omega arith)
    ∙ sym (
        append-append (90 ∷ 0 ∷ 0 ∷ 0 ∷ 0 ∷ []) (replicate (3 - length msg % 4) 0)
          (append msg (at_word t lr)))
    ∙ sym (append-append msg (padding (length msg)) (at_word t lr))
    ∙ append-blocks (msg ++ padding (length msg)) t lr
        (omega (
          arith,
          length-append msg (padding (length msg)),
          length-replicate {A = ℕ} (3 - length msg % 4) 0,
        ))
        (AllBytes-append msg (padding (length msg)) h (padding-AllBytes (length msg)))
  where
    count :
        (append (90 ∷ 0 ∷ 0 ∷ 0 ∷ 0 ∷ []) (append msg (at_word t lr))).bytes_in_m
        ≡ (length msg + 5) % 4
    count = omega (
      arith,
      append_count msg (at_word t lr) (omega arith),
      append_count (90 ∷ 0 ∷ 0 ∷ 0 ∷ 0 ∷ []) (append msg (at_word t lr))
          (omega (arith, append_count msg (at_word t lr) (omega arith))),
    )

-- RTMPTkipSetMICKey, any number of bytes appended, and RTMPTkipGetMIC give the Michael code of
-- the bytes under the key, whatever the context held before.
pub get_mic-michael :
    (key msg : List ℕ) (t : TkipKeyInfo)
    → AllBytes key
    → AllBytes msg
    → (get_mic (append msg (set_mic_key key t))).mic ≡ michael key msg
unfolding get_mic set_mic_key michael put_uint32
get_mic-michael key msg t p q =
    ap (λ (e : TkipKeyInfo). put_uint32 e.l ++ put_uint32 e.r)
      (padded_end msg (set_mic_key key t) (get_uint32 key 0, get_uint32 key 4) q)
    ∙ ap₂
        (λ a b.
          let (l, r) = blocks (a, b) (msg ++ padding (length msg)) in word_bytes l ++ word_bytes r)
        (get_uint32-word key 0 p) (get_uint32-word key 4 p)

-- The code has eight bytes.
pub take-michael : (key msg : List ℕ) → take 8 (michael key msg) ≡ michael key msg
unfolding michael
take-michael key msg = refl
