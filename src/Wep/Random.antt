-- ===== src/Wep/Random.antt =====
-- The pseudo-random bytes (Module/mlme.c, LfsrInit and RandomByte; the register is
-- `pAd->Mlme.ShiftReg`, a 32-bit word).
pub mod Cycle
use rt.Prelude.{
  ℕ, zero, suc, ◌+◌, ◌*◌, ◌/◌, ◌%◌, ◌^◌, ◌<◌, ◌≡◌, refl, bit_xor, bit_or, arith, ◌==◌,
  if◌then◌else◌,
}
use rt.Prelude.Bits.{bit_xor-lt, bit_or_high}

abbrev pub lfsr_mask : ℕ
lfsr_mask = 2147483735

-- `LfsrInit`; the seed is an `unsigned long`, which the assignment cuts to 32 bits.
unfoldable pub lfsr_init : ℕ → ℕ
lfsr_init seed = if seed == 0 then 1 else seed % 2 ^ 32

-- One round of the loop of `RandomByte`: the register and the bit.
unfoldable pub random_bit : ℕ → ℕ × ℕ
random_bit reg =
    if reg % 2 == 1 then (bit_or (bit_xor reg lfsr_mask / 2) 2147483648, 1) else (reg / 2, 0)

-- The loop, with the rounds left and `R`.
unfoldable pub random_bits : ℕ → ℕ → ℕ → ℕ × ℕ
unfolding random_bit
random_bits zero r reg = (reg, r)
random_bits (suc left) r reg =
    let (reg', result) = random_bit reg in random_bits left (bit_or (r * 2) result % 256) reg'

-- `RandomByte`.
unfoldable pub random_byte : ℕ → ℕ × ℕ
unfolding random_bits
random_byte reg = random_bits 8 0 reg
