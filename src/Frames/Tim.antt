-- ===== src/Frames/Tim.antt =====
-- The traffic indication map of a beacon (Module/sanity.c, GetTimBit). `ptr` is the element, its
-- identifier first.
pub mod Bitmap
use rt.Prelude.{
  ℕ, ◌+◌, ◌-◌, ◌*◌, ◌/◌, ◌%◌, ◌^◌, Bool, false, ◌&&◌, ◌||◌, List, ltb, leb, ◌==◌, if◌then◌else◌,
}
use rt.Frames.Element.{octet_at}

pub record TimBit : Type 0 where
  pub tim_len : ℕ
  pub bcast_flag : Bool
  pub dtim_count : ℕ
  pub dtim_period : ℕ
  pub message_to_me : Bool

-- The first and the last byte number of the bitmap, `N1` and `N2`; both are `UCHAR`.
abbrev pub first_byte : List ℕ → ℕ
first_byte ptr = octet_at ptr 4 / 2 * 2

abbrev pub last_byte : List ℕ → ℕ
last_byte ptr = (octet_at ptr 1 + 256 - 4 + first_byte ptr) % 256

-- `MyByte`, a `UCHAR`.
abbrev pub my_byte : List ℕ → ℕ → ℕ
my_byte ptr aid = (aid / 8 + 256 - first_byte ptr) % 256

-- `MyBit`, a `UCHAR`.
abbrev pub my_bit : List ℕ → ℕ → ℕ
my_bit ptr aid = (aid % 16 + 256 - (if my_byte ptr aid % 2 == 1 then 8 else 0)) % 256

unfoldable pub get_tim_bit : List ℕ → ℕ → TimBit
get_tim_bit ptr aid = record {
  tim_len = octet_at ptr 1;
  bcast_flag = octet_at ptr 2 == 0 && octet_at ptr 4 % 2 == 1;
  dtim_count = octet_at ptr 2;
  dtim_period = octet_at ptr 3;
  message_to_me =
      if ltb aid (first_byte ptr * 8) || leb ((last_byte ptr + 1) * 8) aid
      then false
      else octet_at ptr (4 + (my_byte ptr aid + 1)) / 2 ^ my_bit ptr aid % 2 == 1;
}
