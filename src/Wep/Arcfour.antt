-- ===== src/Wep/Arcfour.antt =====
-- The stream cipher ARCFOUR (Module/rtmp_wep.c, ARCFOUR_INIT to ARCFOUR_ENCRYPT; the context is in
-- Module/rtmp.h). `UCHAR` and `UINT` values are numbers, and `& 0xff` is the remainder by 256.
pub mod Sbox
pub mod Stream
use rt.Prelude.{ℕ, zero, suc, ◌+◌, ◌%◌, List, [], ◌∷◌, bit_xor, leb, if◌then◌else◌}
use rt.Prelude.Lists.{get_or, set}

pub record Arcfour : Type 0 where
  pub x : ℕ
  pub y : ℕ
  pub state : List ℕ

-- `state[i]`.
abbrev pub byte_at : List ℕ → ℕ → ℕ
byte_at state i = get_or state i 0

-- `for (counter = c; ...; counter++) state[counter] = (UCHAR) counter`, with the rounds left; the
-- context's memory is written through, so its former content does not matter.
unfoldable pub identity_from : ℕ → ℕ → List ℕ
identity_from zero c = []
identity_from (suc left) c = c % 256 ∷ identity_from left (c + 1)

-- Two bytes change places: `state[j] = t; state[i] = u`.
unfoldable pub exchange : List ℕ → ℕ → ℕ → List ℕ
exchange state i j = set (set state j (byte_at state i)) i (byte_at state j)

-- The second loop of ARCFOUR_INIT, with the rounds left.
unfoldable pub key_schedule : List ℕ → ℕ → ℕ → ℕ → ℕ → ℕ → List ℕ → List ℕ
unfolding exchange
key_schedule key key_len zero counter keyindex stateindex state = state
key_schedule key key_len (suc left) counter keyindex stateindex state =
    let stateindex' = (stateindex + byte_at key keyindex + byte_at state counter) % 256 in
    let keyindex' = if leb key_len (keyindex + 1) then 0 else keyindex + 1 in
    key_schedule key key_len left (counter + 1) keyindex' stateindex'
      (exchange state counter stateindex')

-- ARCFOUR_INIT.
unfoldable pub arcfour_init : List ℕ → ℕ → Arcfour
unfolding identity_from key_schedule
arcfour_init key key_len = record {
  x = 0;
  y = 0;
  state = key_schedule key key_len 256 0 0 0 (identity_from 256 0);
}

-- ARCFOUR_BYTE: the context after the call, and the byte.
unfoldable pub arcfour_byte : Arcfour → Arcfour × ℕ
unfolding exchange
arcfour_byte ctx =
    let x = (ctx.x + 1) % 256 in
    let sx = byte_at ctx.state x in
    let y = (sx + ctx.y) % 256 in
    let sy = byte_at ctx.state y in
    let state = exchange ctx.state x y in
    (record { x = x; y = y; state = state }, byte_at state ((sx + sy) % 256))

-- ARCFOUR_ENCRYPT over the `Len` bytes given.
unfoldable pub arcfour_encrypt : Arcfour → List ℕ → Arcfour × List ℕ
arcfour_encrypt ctx [] = (ctx, [])
arcfour_encrypt ctx (c ∷ src) =
    let (ctx', k) = arcfour_byte ctx in
    let (end, dest) = arcfour_encrypt ctx' src in (end, bit_xor c k ∷ dest)

-- ARCFOUR_DECRYPT, the same loop written once more in the source.
unfoldable pub arcfour_decrypt : Arcfour → List ℕ → Arcfour × List ℕ
arcfour_decrypt ctx [] = (ctx, [])
arcfour_decrypt ctx (c ∷ src) =
    let (ctx', k) = arcfour_byte ctx in
    let (end, dest) = arcfour_decrypt ctx' src in (end, bit_xor c k ∷ dest)
