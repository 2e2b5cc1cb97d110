-- ===== src/Wep/Arcfour/Sbox.antt =====
-- The table of the cipher of Module/rtmp_wep.c as a permutation of the bytes.
use rt.Prelude.{
  ℕ, zero, suc, ◌+◌, ◌%◌, ◌≤◌, ◌<◌, ◌≡◌, refl, sym, ap, ◌∙◌, List, [], ◌∷◌, bit_xor, arith, ◌==◌,
  if◌then◌else◌,
}
use rt.Prelude.Lists.{length, set, length-set, get_or-set}
use rt.Prelude.Bits.{bit_xor-lt}
use rt.Wep.Arcfour.{
  Arcfour, byte_at, identity_from, exchange, key_schedule, arcfour_init, arcfour_byte,
  arcfour_encrypt,
}

-- 256 bytes, no two of them equal.
pub record IsSbox (state : List ℕ) : Type 0 where
  pub size : length state ≡ 256
  pub bytes : (i : ℕ) → i < 256 → byte_at state i < 256
  pub apart : (i j : ℕ) → i < 256 → j < 256 → byte_at state i ≡ byte_at state j → i ≡ j

byte_at-exchange :
    (state : List ℕ) (i j k : ℕ)
    → i < length state
    → j < length state
    → byte_at (exchange state i j) k
      ≡ (if i == k then byte_at state j else if j == k then byte_at state i else byte_at state k)
unfolding exchange
byte_at-exchange state i j k p q = ground (
  arith,
  length-set state j (byte_at state i),
  get_or-set state j k (byte_at state i) 0,
  get_or-set (set state j (byte_at state i)) i k (byte_at state j) 0,
)

length-exchange : (state : List ℕ) (i j : ℕ) → length (exchange state i j) ≡ length state
unfolding exchange
length-exchange state i j =
    length-set (set state j (byte_at state i)) i (byte_at state j)
    ∙ length-set state j (byte_at state i)

-- The place that the byte at `k` came from.
abbrev origin : ℕ → ℕ → ℕ → ℕ
origin i j k = if i == k then j else if j == k then i else k

origin-lt : (i j k : ℕ) → i < 256 → j < 256 → k < 256 → origin i j k < 256
origin-lt i j k p q h = ground arith

origin_injective : (i j k l : ℕ) → origin i j k ≡ origin i j l → k ≡ l
origin_injective i j k l e = ground arith

byte_at-origin :
    (state : List ℕ) (i j k : ℕ)
    → IsSbox state
    → i < 256
    → j < 256
    → byte_at (exchange state i j) k ≡ byte_at state (origin i j k)
byte_at-origin state i j k s p q = ground (arith, s.size, byte_at-exchange state i j k)

exchange-IsSbox :
    (state : List ℕ) (i j : ℕ) → i < 256 → j < 256 → IsSbox state → IsSbox (exchange state i j)
exchange-IsSbox state i j p q s = record {
  size = length-exchange state i j ∙ s.size;
  bytes =
      λ k h. rw (byte_at-origin state i j k s p q) (s.bytes (origin i j k) (origin-lt i j k p q h));
  apart = λ k l h h' e. origin_injective i j k l (
      s.apart (origin i j k) (origin i j l) (origin-lt i j k p q h) (origin-lt i j l p q h')
        (sym (byte_at-origin state i j k s p q) ∙ e ∙ byte_at-origin state i j l s p q));
}

length-identity_from : (n c : ℕ) → length (identity_from n c) ≡ n
unfolding identity_from
length-identity_from zero c = refl
length-identity_from (suc n) c = ap suc (length-identity_from n (c + 1))

byte_at-identity_from : (n c i : ℕ) → i < n → byte_at (identity_from n c) i ≡ (c + i) % 256
unfolding identity_from
byte_at-identity_from zero c i h = absurd (omega arith)
byte_at-identity_from (suc n) c zero h = omega arith
byte_at-identity_from (suc n) c (suc i) h =
    omega (arith, byte_at-identity_from n (c + 1) i (omega arith))

identity-IsSbox : IsSbox (identity_from 256 0)
identity-IsSbox = record {
  size = length-identity_from 256 0;
  bytes = λ i h. omega (arith, byte_at-identity_from 256 0 i h);
  apart = λ i j p q e.
      omega (arith, byte_at-identity_from 256 0 i p, byte_at-identity_from 256 0 j q, e);
}

key_schedule-IsSbox :
    (key : List ℕ) (key_len left counter keyindex stateindex : ℕ) (state : List ℕ)
    → counter + left ≤ 256
    → IsSbox state
    → IsSbox (key_schedule key key_len left counter keyindex stateindex state)
unfolding key_schedule
key_schedule-IsSbox key key_len zero counter keyindex stateindex state h s = s
key_schedule-IsSbox key key_len (suc left) counter keyindex stateindex state h s =
    key_schedule-IsSbox key key_len left (counter + 1) _ _ _ (omega arith)
      (exchange-IsSbox state counter _ (omega arith) (omega arith) s)

-- The context of a running cipher.
abbrev pub IsContext : Arcfour → Type 0
IsContext ctx = (ctx.x < 256) × (ctx.y < 256) × IsSbox ctx.state

-- Whatever the key and its length, ARCFOUR_INIT leaves a permutation of the 256 bytes.
pub init-IsContext : (key : List ℕ) (key_len : ℕ) → IsContext (arcfour_init key key_len)
unfolding arcfour_init
init-IsContext key key_len = (
  omega arith,
  omega arith,
  key_schedule-IsSbox key key_len 256 0 0 0 (identity_from 256 0) (omega arith) identity-IsSbox,
)

-- A call of ARCFOUR_BYTE returns a byte and keeps the table a permutation.
pub byte-IsContext :
    (ctx : Arcfour) → IsContext ctx → IsContext (arcfour_byte ctx).0 × ((arcfour_byte ctx).1 < 256)
unfolding arcfour_byte
byte-IsContext ctx (p, q, s) =
    let x : ℕ = (ctx.x + 1) % 256 in
    let y : ℕ = (byte_at ctx.state x + ctx.y) % 256 in
    let t : IsSbox (exchange ctx.state x y) =
      exchange-IsSbox ctx.state x y (omega arith) (omega arith) s in
    ((omega arith, omega arith, t), t.bytes _ (omega arith))

-- The context that ARCFOUR_ENCRYPT leaves, and so one that any number of calls leaves, is again a
-- permutation, and what it writes for bytes are bytes.
encrypt-IsContext :
    (ctx : Arcfour) (src : List ℕ)
    → IsContext ctx
    → ((i : ℕ) → byte_at src i < 256)
    → IsContext (arcfour_encrypt ctx src).0
      × ((i : ℕ) → byte_at (arcfour_encrypt ctx src).1 i < 256)
unfolding arcfour_encrypt
encrypt-IsContext ctx [] c h = (c, λ i. omega arith)
encrypt-IsContext ctx (b ∷ src) c h =
    go (encrypt-IsContext (arcfour_byte ctx).0 src (byte-IsContext ctx c).0 (λ i. h (suc i)))
  where
    at :
        (dest : List ℕ)
        → ((i : ℕ) → byte_at dest i < 256)
        → (i : ℕ) → byte_at (bit_xor b (arcfour_byte ctx).1 ∷ dest) i < 256
    at dest g zero = bit_xor-lt 8 b (arcfour_byte ctx).1 (h 0) (byte-IsContext ctx c).1
    at dest g (suc i) = g i

    go :
        (IsContext (arcfour_encrypt (arcfour_byte ctx).0 src).0
          × ((i : ℕ) → byte_at (arcfour_encrypt (arcfour_byte ctx).0 src).1 i < 256))
        → IsContext (arcfour_encrypt (arcfour_byte ctx).0 src).0
          × ((i : ℕ)
              → byte_at
                  (bit_xor b (arcfour_byte ctx).1 ∷ (arcfour_encrypt (arcfour_byte ctx).0 src).1)
                  i
                < 256)
    go r = (r.0, at _ r.1)
