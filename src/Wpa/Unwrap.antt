-- ===== src/Wpa/Unwrap.antt =====
-- AES_GTK_KEY_UNWRAP of Module/wpa.c. The array R is the first 512 bytes of its memory; what it
-- holds behind the ciphertext is an argument, since the last 8 bytes of the output come from there.
-- The integrity value that is left in A is not looked at.
pub mod Wrap
use rt.Prelude.{ℕ, zero, suc, ◌+◌, ◌-◌, ◌*◌, ◌/◌, ◌%◌, Bool, List, ◌++◌, bit_xor, if◌then◌else◌}
use rt.Prelude.Lists.{get_or, set, take, drop, memcpy, memcpy_at}
use rt.Wpa.Digest.{Crypto}

-- `A` and `R`.
pub record Registers : Type 0 where
  pub a : List ℕ
  pub r : List ℕ

abbrev pub registers : List ℕ → List ℕ → Registers
registers a r = record { a = a; r = r }

-- `A` with the step `xor` added to its last byte.
abbrev pub stepped : List ℕ → ℕ → List ℕ
stepped a xor = set a 7 (bit_xor (get_or a 7 0) xor)

-- One round, for the block `i` that is at `(i - 1) * 8`.
unfoldable pub unwrap_block : Crypto → List ℕ → ℕ → ℕ → Registers → Registers
unwrap_block c key xor at s =
    let out = c.aes_decrypt key (stepped s.a xor ++ take 8 (drop at s.r)) in
    registers (take 8 out) (memcpy_at s.r at (drop 8 out) 8)

-- `for (i = n; i > 0; i--)`, with `step` for `(num_blocks - 1) * j`.
unfoldable pub unwrap_pass : Crypto → List ℕ → ℕ → ℕ → Registers → Registers
unfolding unwrap_block
unwrap_pass c key step zero s = s
unwrap_pass c key step (suc i) s =
    unwrap_pass c key step i (unwrap_block c key ((step + suc i) % 256) (i * 8) s)

-- `for (j = m - 1; j >= 0; j--)`.
unfoldable pub unwrap_passes : Crypto → List ℕ → ℕ → ℕ → Registers → Registers
unfolding unwrap_pass
unwrap_passes c key n zero s = s
unwrap_passes c key n (suc j) s = unwrap_passes c key n j (unwrap_pass c key (n * j) n s)

-- AES_GTK_KEY_UNWRAP: the plaintext, which is left as it is without memory.
unfoldable pub aes_gtk_key_unwrap : Crypto → Bool → List ℕ → List ℕ → List ℕ → ℕ → List ℕ → List ℕ
unfolding unwrap_passes
aes_gtk_key_unwrap c alloc behind key plaintext c_len ciphertext =
    let n = c_len / 8 - 1 in
    let start = registers (take 8 ciphertext) (take (c_len - 8) (drop 8 ciphertext) ++ behind) in
    if alloc then memcpy plaintext (unwrap_passes c key n 6 start).r c_len else plaintext
