-- ===== src/Wep/Random/Cycle.antt =====
-- How the shift register of Module/mlme.c goes from state to state.
use rt.Prelude.{
  ℕ, zero, suc, ◌+◌, ◌-◌, ◌*◌, ◌/◌, ◌%◌, ◌^◌, ◌<◌, ◌≡◌, refl, sym, ap, ◌∙◌, bit_xor, arith, ◌==◌,
  if◌then◌else◌, ◌⊎◌, ◌↔◌, inl, inr, Bool-cases,
}
use rt.Prelude.Bits.{bit_xor-lt, bit_or_high, bit_xor_cancel, bit_xor_parity}
use rt.Wep.Random.{lfsr_mask, lfsr_init, random_bit, random_bits, random_byte}

-- A register that the generator can work with.
abbrev pub IsReg : ℕ → Type 0
IsReg reg = (0 < reg) × (reg < 2 ^ 32)

flipped-lt : (reg : ℕ) → reg < 2 ^ 32 → bit_xor reg lfsr_mask / 2 < 2 ^ 31
flipped-lt reg h = omega (arith, bit_xor-lt 32 reg lfsr_mask h (omega arith))

-- The register after one round, without the bit operation that sets the highest bit.
random_bit_sum :
    (reg : ℕ)
    → reg < 2 ^ 32
    → (random_bit reg).0 ≡ (if reg % 2 == 1 then bit_xor reg lfsr_mask / 2 + 2 ^ 31 else reg / 2)
unfolding random_bit
random_bit_sum reg h = ground (arith, bit_or_high 31 (bit_xor reg lfsr_mask / 2) (flipped-lt reg h))

random_bit-IsReg : (reg : ℕ) → IsReg reg → IsReg (random_bit reg).0
random_bit-IsReg reg (p, q) = ground (arith, random_bit_sum reg q, flipped-lt reg q)

-- An odd register is recovered from its flipped upper bits.
flipped_inverse : (reg : ℕ) → reg % 2 ≡ 1 → bit_xor (bit_xor reg lfsr_mask / 2 * 2) lfsr_mask ≡ reg
flipped_inverse reg h =
    let even : bit_xor reg lfsr_mask / 2 * 2 ≡ bit_xor reg lfsr_mask =
      omega (arith, bit_xor_parity reg lfsr_mask) in
    ap (λ t. bit_xor t lfsr_mask) even ∙ bit_xor_cancel reg lfsr_mask

-- The round before.
back : ℕ → ℕ
back reg = if reg / 2 ^ 31 == 1 then bit_xor ((reg - 2 ^ 31) * 2) lfsr_mask else reg * 2

back-random_bit : (reg : ℕ) → reg < 2 ^ 32 → back (random_bit reg).0 ≡ reg
unfolding back
back-random_bit reg h = elim (Bool-cases (reg % 2 == 1)) [
  | inl e ↦
      let value : (random_bit reg).0 ≡ bit_xor reg lfsr_mask / 2 + 2 ^ 31 =
        ground (arith, random_bit_sum reg h) in
      let low : (bit_xor reg lfsr_mask / 2 + 2 ^ 31 - 2 ^ 31) * 2 ≡ bit_xor reg lfsr_mask / 2 * 2 =
        omega arith in
      rw value
        (ground (arith, flipped-lt reg h, flipped_inverse reg, ap (λ t. bit_xor t lfsr_mask) low))
  | inr e ↦ ground (arith, random_bit_sum reg h)
]

random_bits-IsReg :
    (left r reg : ℕ)
    → r < 256
    → IsReg reg
    → IsReg (random_bits left r reg).0 × ((random_bits left r reg).1 < 256)
unfolding random_bits
random_bits-IsReg zero r reg h p = (p, h)
random_bits-IsReg (suc left) r reg h p =
    random_bits-IsReg left _ (random_bit reg).0 (omega arith) (random_bit-IsReg reg p)

random_bits_injective :
    (left r r' reg reg' : ℕ)
    → IsReg reg
    → IsReg reg'
    → (random_bits left r reg).0 ≡ (random_bits left r' reg').0
    → reg ≡ reg'
unfolding random_bits
random_bits_injective zero r r' reg reg' p p' e = e
random_bits_injective (suc left) r r' reg reg' p p' e =
    sym (back-random_bit reg p.1)
    ∙ ap back (
        random_bits_injective left _ _ (random_bit reg).0 (random_bit reg').0
          (random_bit-IsReg reg p) (random_bit-IsReg reg' p') e)
    ∙ back-random_bit reg' p'.1

-- From a register that is a non-zero 32-bit word RandomByte returns a byte and leaves such a
-- register again, so the generator never reaches the stuck state zero; and registers that differ
-- before the call differ after it, so no state of the generator is lost.
random_byte_lem :
    (reg reg' : ℕ)
    → IsReg reg
    → IsReg reg'
    → IsReg (random_byte reg).0
      × ((random_byte reg).1 < 256)
      × ((random_byte reg).0 ≡ (random_byte reg').0 ↔ reg ≡ reg')
unfolding random_byte
random_byte_lem reg reg' p p' =
    let r = random_bits-IsReg 8 0 reg (omega arith) p in
    (r.0, r.1, (random_bits_injective 8 0 0 reg reg' p p', ap (λ t. (random_bits 8 0 t).0)))

-- The state zero: the register stays zero, and so does the byte.
stuck : random_byte 0 ≡ (0, 0)
unfolding random_byte
stuck = refl

-- LfsrInit gives 1 for the seed zero, and the low 32 bits of every seed that is not a multiple of
-- 2^32: registers that the generator can work with. Every other seed, a non-zero multiple of 2^32,
-- gives zero, from which RandomByte returns zero and leaves zero, so that all bytes are zero.
pub lfsr_init_lem :
    (seed : ℕ)
    → ((seed ≡ 0) × (lfsr_init seed ≡ 1))
      ⊎ (((0 < seed % 2 ^ 32) × (lfsr_init seed ≡ seed % 2 ^ 32) × IsReg (lfsr_init seed))
          ⊎ ((0 < seed)
              × (seed % 2 ^ 32 ≡ 0)
              × (lfsr_init seed ≡ 0)
              × (random_byte (lfsr_init seed) ≡ (0, 0))))
unfolding lfsr_init
lfsr_init_lem seed = elim (Bool-cases (seed == 0)) [
  | inl e ↦ inl (ground arith)
  | inr e ↦ elim (Bool-cases (seed % 2 ^ 32 == 0)) [
    | inl f ↦
        let zero_word : lfsr_init seed ≡ 0 = ground (arith, e, f) in
        inr
          (inr (ground (arith, e), ground (arith, f), zero_word, ap random_byte zero_word ∙ stuck))
    | inr f ↦ inr (inl (ground arith))
  ]
]
