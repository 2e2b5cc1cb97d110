-- ===== src/Frames/Tim/Bitmap.antt =====
-- The bit that GetTimBit (Module/sanity.c) reads against the partial virtual bitmap of IEEE 802.11:
-- bit `n % 8` of byte `n / 8` stands for station `n`, and the bytes from the first one on follow the
-- four fixed bytes of the element.
use rt.Prelude.{ℕ, ◌+◌, ◌-◌, ◌/◌, ◌%◌, ◌^◌, ◌≤◌, ◌<◌, ◌≡◌, Bool, ◌&&◌, List, ltb, leb, ◌==◌, arith}
use native.Mathlib.Decide.{dec_lt}
use rt.Frames.Element.{octet_at}
use rt.Frames.Tim.{first_byte, last_byte, my_byte, my_bit, get_tim_bit}

-- Whether the bitmap announces traffic for a station.
pub announced : List ℕ → ℕ → Bool
announced ptr aid =
    leb (first_byte ptr) (aid / 8)
    && ltb (aid / 8) (first_byte ptr + (octet_at ptr 1 - 3))
    && octet_at ptr (5 + (aid / 8 - first_byte ptr)) / 2 ^ (aid % 8) % 2 == 1

-- A map with at least one byte, whose last byte's number is a byte.
pub record IsTim (ptr : List ℕ) : Type 0 where
  pub bytes : 4 ≤ octet_at ptr 1
  pub last : first_byte ptr + (octet_at ptr 1 - 4) < 256

last_byte_lem : (ptr : List ℕ) → IsTim ptr → last_byte ptr ≡ first_byte ptr + (octet_at ptr 1 - 4)
last_byte_lem ptr t = omega (arith, t)

module _ (ptr : List ℕ) (aid : ℕ) (t : IsTim ptr) (low : first_byte ptr ≤ aid / 8)
    (high : aid / 8 ≤ last_byte ptr) where
  my_byte_lem : my_byte ptr aid ≡ aid / 8 - first_byte ptr
  my_byte_lem = omega (arith, t)

  my_bit_lem : my_bit ptr aid ≡ aid % 8
  my_bit_lem = ground (arith, my_byte_lem)

  place : 4 + (my_byte ptr aid + 1) ≡ 5 + (aid / 8 - first_byte ptr)
  place = omega (arith, my_byte_lem)

-- In a map of at least four bytes whose last byte's number is at most 255, GetTimBit finds traffic
-- for a station exactly when the bitmap announces it.
pub get_tim_bit_lem :
    (ptr : List ℕ) (aid : ℕ) → IsTim ptr → ((get_tim_bit ptr aid).message_to_me ≡ announced ptr aid)
unfolding get_tim_bit announced
get_tim_bit_lem ptr aid t = elim (dec_lt (aid / 8) (first_byte ptr)) [
  | yes below ↦ ground arith
  | no low ↦ elim (dec_lt (last_byte ptr) (aid / 8)) [
    | yes above ↦ ground (arith, last_byte_lem ptr t)
    | no high ↦
        rw (my_bit_lem ptr aid t (omega arith) (omega arith))
          (rw (place ptr aid t (omega arith) (omega arith)) (ground (arith, last_byte_lem ptr t)))
  ]
]
