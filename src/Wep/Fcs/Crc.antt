-- ===== src/Wep/Fcs/Crc.antt =====
-- The table-driven sum of Module/rtmp_wep.c against the CRC-32 of IEEE 802, taken bit by bit.
use rt.Prelude.{
  ℕ, zero, suc, ◌+◌, ◌*◌, ◌/◌, ◌%◌, ◌^◌, ◌<◌, ◌≡◌, refl, sym, ap, ap₂, ◌∙◌, List, [], ◌∷◌, ◌++◌,
  bit_xor, arith, ◌==◌, if◌then◌else◌,
}
use rt.Prelude.Lists.{get_or}
use rt.Prelude.Bits.{
  bit_xor-lt, bit_xor_half, bit_xor_parity, bit_xor_swap, bit_xor_assoc, bit_xor_fields,
  bit_xor_comm, bit_xor-zero, bit_xor_self,
}
use native.Mathlib.Nat.{pow-suc}
use rt.Wep.Fcs.{fcstab_32, calc_fcs32}

-- The generator polynomial, its highest coefficient in the lowest bit.
abbrev pub polynomial : ℕ
polynomial = 3988292384

-- One bit leaves the register at the low end.
unfoldable pub shift_bit : ℕ → ℕ
shift_bit r = if r % 2 == 1 then bit_xor (r / 2) polynomial else r / 2

unfoldable pub shift_bits : ℕ → ℕ → ℕ
shift_bits zero r = r
shift_bits (suc n) r = shift_bits n (shift_bit r)

-- The reference: each byte is added to the register's low end and its eight bits are shifted out.
unfoldable pub crc32 : ℕ → List ℕ → ℕ
crc32 r [] = r
crc32 r (b ∷ bs) = crc32 (shift_bits 8 (bit_xor r b)) bs

-- The value at `c` and the following ones.
abbrev shifted_from : ℕ → ℕ → List ℕ
shifted_from zero c = []
shifted_from (suc n) c = shift_bits 8 c ∷ shifted_from n (c + 1)

fcstab-shifted : fcstab_32 ≡ shifted_from 256 0
unfolding fcstab_32 shift_bits shift_bit
fcstab-shifted = refl

get_or-shifted_from : (n c i : ℕ) → i < n → get_or (shifted_from n c) i 0 ≡ shift_bits 8 (c + i)
get_or-shifted_from zero c i h = absurd (omega arith)
get_or-shifted_from (suc n) c zero h = ap (shift_bits 8) (omega arith)
get_or-shifted_from (suc n) c (suc i) h =
    get_or-shifted_from n (c + 1) i (omega arith) ∙ ap (shift_bits 8) (omega arith)

fcstab-shift : (i : ℕ) → i < 256 → get_or fcstab_32 i 0 ≡ shift_bits 8 i
fcstab-shift i h =
    ap (λ t. get_or t i 0) fcstab-shifted
    ∙ get_or-shifted_from 256 0 i h
    ∙ ap (shift_bits 8) (omega arith)

xor_right_comm : (a b c : ℕ) → bit_xor (bit_xor a b) c ≡ bit_xor (bit_xor a c) b
xor_right_comm a b c =
    bit_xor_assoc a b c ∙ ap (bit_xor a) (bit_xor_comm b c) ∙ sym (bit_xor_assoc a c b)

xor_both : (a b c : ℕ) → bit_xor (bit_xor a c) (bit_xor b c) ≡ bit_xor a b
xor_both a b c =
    bit_xor_swap a c b c ∙ ap (bit_xor (bit_xor a b)) (bit_xor_self c) ∙ bit_xor-zero (bit_xor a b)

shift_bit-xor : (a b : ℕ) → shift_bit (bit_xor a b) ≡ bit_xor (shift_bit a) (shift_bit b)
unfolding shift_bit
shift_bit-xor a b = ground (
  arith,
  bit_xor_half a b,
  bit_xor_parity a b,
  ap (λ t. bit_xor t polynomial) (bit_xor_half a b),
  xor_right_comm (a / 2) (b / 2) polynomial,
  bit_xor_assoc (a / 2) (b / 2) polynomial,
  xor_both (a / 2) (b / 2) polynomial,
)

-- The register is linear.
shift_bits-xor :
    (n a b : ℕ) → shift_bits n (bit_xor a b) ≡ bit_xor (shift_bits n a) (shift_bits n b)
unfolding shift_bits
shift_bits-xor zero a b = refl
shift_bits-xor (suc n) a b =
    ap (shift_bits n) (shift_bit-xor a b) ∙ shift_bits-xor n (shift_bit a) (shift_bit b)

-- The bits above the `n` lowest only move.
shift_bits-high : (n q : ℕ) → shift_bits n (q * 2 ^ n) ≡ q
unfolding shift_bits
shift_bits-high zero q = omega arith
shift_bits-high (suc n) q = ap (shift_bits n) even ∙ shift_bits-high n q
  where
    double : q * 2 ^ suc n ≡ q * 2 ^ n * 2
    double = omega (arith, ap (λ (t : ℕ). q * t) (pow-suc 2 n))

    even : shift_bit (q * 2 ^ suc n) ≡ q * 2 ^ n
    even = unfold shift_bit in ground (arith, double)

-- A byte added to a register changes its low eight bits.
add_byte : (r b : ℕ) → bit_xor r b ≡ bit_xor (r / 256 * 2 ^ 8) (bit_xor (r % 256) b)
add_byte r b =
    ap (λ t. bit_xor t b) (split ∙ sym (bit_xor_fields 8 (r / 256) (r % 256) (omega arith)))
    ∙ bit_xor_assoc (r / 256 * 2 ^ 8) (r % 256) b
  where
    split : r ≡ r / 256 * 2 ^ 8 + r % 256
    split = omega arith

low_byte : (r b : ℕ) → b < 256 → bit_xor r b % 256 ≡ bit_xor (r % 256) b
low_byte r b h = omega (
  arith,
  add_byte r b,
  bit_xor_fields 8 (r / 256) (bit_xor (r % 256) b),
  bit_xor-lt 8 (r % 256) b (omega arith) (omega arith),
)

-- One round of the loop of RTMP_CALC_FCS32.
round_shift :
    (r b : ℕ)
    → b < 256
    → bit_xor (r / 256) (get_or fcstab_32 (bit_xor r b % 256) 0) ≡ shift_bits 8 (bit_xor r b)
round_shift r b h =
    ap₂ (λ q t. bit_xor q t) (sym (shift_bits-high 8 (r / 256)))
      (ap (λ i. get_or fcstab_32 i 0) (low_byte r b h)
        ∙ fcstab-shift (bit_xor (r % 256) b) (bit_xor-lt 8 (r % 256) b (omega arith) (omega arith)))
    ∙ sym (shift_bits-xor 8 (r / 256 * 2 ^ 8) (bit_xor (r % 256) b))
    ∙ ap (shift_bits 8) (sym (add_byte r b))

-- On bytes RTMP_CALC_FCS32 with its table is the CRC-32 taken bit by bit, from any register.
pub calc_fcs32-crc32 :
    (fcs : ℕ) (cp : List ℕ) → ((i : ℕ) → get_or cp i 0 < 256) → calc_fcs32 fcs cp ≡ crc32 fcs cp
unfolding calc_fcs32 crc32
calc_fcs32-crc32 fcs [] h = refl
calc_fcs32-crc32 fcs (c ∷ cp) h =
    ap (λ r. calc_fcs32 r cp) (round_shift fcs c (h 0))
    ∙ calc_fcs32-crc32 (shift_bits 8 (bit_xor fcs c)) cp (λ i. h (suc i))

-- The sum of two pieces, one after the other, is the sum of the whole.
pub calc_fcs32-append :
    (fcs : ℕ) (a b : List ℕ) → calc_fcs32 fcs (a ++ b) ≡ calc_fcs32 (calc_fcs32 fcs a) b
unfolding calc_fcs32
calc_fcs32-append fcs [] b = refl
calc_fcs32-append fcs (c ∷ a) b =
    calc_fcs32-append (bit_xor (fcs / 256) (get_or fcstab_32 (bit_xor fcs c % 256) 0)) a b

shift_bit-lt : (r : ℕ) → r < 2 ^ 32 → shift_bit r < 2 ^ 32
unfolding shift_bit
shift_bit-lt r h = ground (arith, bit_xor-lt 32 (r / 2) polynomial (omega arith) (omega arith))

shift_bits-lt : (n r : ℕ) → r < 2 ^ 32 → shift_bits n r < 2 ^ 32
unfolding shift_bits
shift_bits-lt zero r h = h
shift_bits-lt (suc n) r h = shift_bits-lt n (shift_bit r) (shift_bit-lt r h)

fcstab-lt : (i : ℕ) → i < 256 → get_or fcstab_32 i 0 < 2 ^ 32
fcstab-lt i h = rw (fcstab-shift i h) (shift_bits-lt 8 i (omega arith))

-- The sum stays a 32-bit word, whatever the bytes.
pub calc_fcs32-lt : (fcs : ℕ) (cp : List ℕ) → fcs < 2 ^ 32 → calc_fcs32 fcs cp < 2 ^ 32
unfolding calc_fcs32
calc_fcs32-lt fcs [] h = h
calc_fcs32-lt fcs (c ∷ cp) h =
    calc_fcs32-lt (bit_xor (fcs / 256) (get_or fcstab_32 (bit_xor fcs c % 256) 0)) cp (
      bit_xor-lt 32 (fcs / 256) (get_or fcstab_32 (bit_xor fcs c % 256) 0) (omega arith)
        (fcstab-lt (bit_xor fcs c % 256) (omega arith)))
