-- ===== src/Wpa/Unwrap/Wrap.antt =====
-- AES_GTK_KEY_UNWRAP of Module/wpa.c against the key wrap of RFC 3394.
use rt.Prelude.{
  ℕ, zero, suc, ◌+◌, ◌-◌, ◌*◌, ◌/◌, ◌%◌, ◌≤◌, ◌<◌, ◌≡◌, refl, sym, ap, ap₂, ◌∙◌, arith, List, ◌++◌,
  bit_xor, true,
}
use rt.Prelude.Lists.{
  length, get_or, set, take, drop, memcpy, memcpy_at, length-append, length-drop, length-take,
  length-set, length-memcpy_at, get_or-set_self,
}
use rt.Prelude.Lists.Pieces.{
  take_all, take-pieces, drop-pieces, take-drop, set-set, set-get_or, memcpy_at_read,
  memcpy_at_back, append-nil, take-front, drop-front, memcpy_at-front, append_assoc,
}
use native.Mathlib.Nat.{mul-suc}
use rt.Prelude.Bits.{bit_xor_cancel}
use rt.Wpa.Digest.{Crypto}
use rt.Wpa.Unwrap.{
  Registers, registers, stepped, unwrap_block, unwrap_pass, unwrap_passes, aes_gtk_key_unwrap,
}

-- Encryption of a block of 16 bytes that the decryption undoes.
pub record Cipher (decrypt : List ℕ → List ℕ → List ℕ) : Type 0 where
  pub encrypt : List ℕ → List ℕ → List ℕ
  pub size : (key block : List ℕ) → length (encrypt key block) ≡ 16
  pub undone : (key block : List ℕ) → length block ≡ 16 → decrypt key (encrypt key block) ≡ block

stepped_twice : (a : List ℕ) (xor : ℕ) → 7 < length a → stepped (stepped a xor) xor ≡ a
stepped_twice a xor h =
    let added = bit_xor (get_or a 7 0) xor in
    set-set a 7 added (bit_xor (get_or (set a 7 added) 7 0) xor)
    ∙ ap (set a 7) (
        ap (λ (x : ℕ). bit_xor x xor) (get_or-set_self a 7 added 0 h)
        ∙ bit_xor_cancel (get_or a 7 0) xor)
    ∙ set-get_or a 7 0

module _ (c : Crypto) (e : Cipher c.aes_decrypt) (key : List ℕ) where
  -- One step of RFC 3394: encrypt, and add the number of the step.
  pub wrap_block : ℕ → ℕ → Registers → Registers
  wrap_block xor at s =
      let out = e.encrypt key (s.a ++ take 8 (drop at s.r)) in
      registers (stepped (take 8 out) xor) (memcpy_at s.r at (drop 8 out) 8)

  pub wrap_pass : ℕ → ℕ → Registers → Registers
  wrap_pass step zero s = s
  wrap_pass step (suc i) s = wrap_block (step + suc i) (i * 8) (wrap_pass step i s)

  pub wrap_passes : ℕ → ℕ → Registers → Registers
  wrap_passes n zero s = s
  wrap_passes n (suc j) s = wrap_pass (n * j) n (wrap_passes n j s)

  abbrev IsSized : ℕ → Registers → Type 0
  IsSized n s = (length s.a ≡ 8) × (n * 8 ≤ length s.r)

  unwrap_block-wrap_block :
      (xor i : ℕ) (s : Registers)
      → IsSized (i + 1) s
      → unwrap_block c key xor (i * 8) (wrap_block xor (i * 8) s) ≡ s
  unfolding unwrap_block wrap_block
  unwrap_block-wrap_block xor i s h =
      let block = take 8 (drop (i * 8) s.r) in
      let block_size : length block ≡ 8 =
        length-take 8 (drop (i * 8) s.r) (omega (arith, length-drop (i * 8) s.r, h.1)) in
      let out = e.encrypt key (s.a ++ block) in
      let out_size : length out ≡ 16 = e.size key (s.a ++ block) in
      let low : length (drop 8 out) ≡ 8 = omega (arith, length-drop 8 out, out_size) in
      let again : take 8 (drop (i * 8) (memcpy_at s.r (i * 8) (drop 8 out) 8)) ≡ drop 8 out =
        memcpy_at_read s.r (i * 8) (drop 8 out) 8 (omega (arith, h.1)) low in
      let same : c.aes_decrypt key (
            stepped (stepped (take 8 out) xor) xor
            ++ take 8 (drop (i * 8) (memcpy_at s.r (i * 8) (drop 8 out) 8)))
          ≡ s.a ++ block =
        ap₂ (λ (x y : List ℕ). c.aes_decrypt key (x ++ y))
          (stepped_twice (take 8 out) xor (omega (arith, length-take 8 out, out_size))) again
        ∙ ap (c.aes_decrypt key) (take-drop 8 out)
        ∙ e.undone key (s.a ++ block) (omega (arith, length-append s.a block, block_size, h.0)) in
      ap₂ registers
        (ap (take 8) same ∙ take-pieces 8 0 s.a block (omega (arith, h.0)) ∙ append-nil s.a)
        (ap (λ (z : List ℕ). memcpy_at (memcpy_at s.r (i * 8) (drop 8 out) 8) (i * 8) (drop 8 z) 8)
            same
          ∙ ap (λ (z : List ℕ). memcpy_at (memcpy_at s.r (i * 8) (drop 8 out) 8) (i * 8) z 8)
              (drop-pieces 8 0 s.a block (omega (arith, h.0)))
          ∙ memcpy_at_back s.r (i * 8) (drop 8 out) 8 (omega (arith, h.1)) low)

  wrap_block-IsSized :
      (n xor i : ℕ) (s : Registers) → i < n → IsSized n s → IsSized n (wrap_block xor (i * 8) s)
  unfolding wrap_block
  wrap_block-IsSized n xor i s l h =
      let out = e.encrypt key (s.a ++ take 8 (drop (i * 8) s.r)) in
      let size : length out ≡ 16 = e.size key (s.a ++ take 8 (drop (i * 8) s.r)) in
      (
        length-set (take 8 out) 7 _ ∙ length-take 8 out (omega (arith, size)),
        omega (
          arith,
          h.1,
          length-memcpy_at s.r (i * 8) (drop 8 out) 8 (omega (arith, h.1))
              (omega (arith, size, length-drop 8 out)),
        ),
      )

  wrap_pass-IsSized :
      (n step i : ℕ) (s : Registers) → i ≤ n → IsSized n s → IsSized n (wrap_pass step i s)
  unfolding wrap_pass
  wrap_pass-IsSized n step zero s l h = h
  wrap_pass-IsSized n step (suc i) s l h =
      wrap_block-IsSized n _ i (wrap_pass step i s) (omega arith)
        (wrap_pass-IsSized n step i s (omega arith) h)

  unwrap_pass-wrap_pass :
      (n step i : ℕ) (s : Registers)
      → i ≤ n
      → step + i < 256
      → IsSized n s
      → unwrap_pass c key step i (wrap_pass step i s) ≡ s
  unfolding unwrap_pass wrap_pass
  unwrap_pass-wrap_pass n step zero s l small h = refl
  unwrap_pass-wrap_pass n step (suc i) s l small h =
      let sized = wrap_pass-IsSized n step i s (omega arith) h in
      ap
        (λ (xor : ℕ).
          unwrap_pass c key step i (
            unwrap_block c key xor (i * 8)
              (wrap_block (step + suc i) (i * 8) (wrap_pass step i s))))
        (byte_step step i small)
      ∙ ap (unwrap_pass c key step i) (
          unwrap_block-wrap_block (step + suc i) i (wrap_pass step i s)
            (sized.0, omega (arith, sized.1)))
      ∙ unwrap_pass-wrap_pass n step i s (omega arith) (omega arith) h
    where
      byte_step : (step i : ℕ) → step + suc i < 256 → (step + suc i) % 256 ≡ step + suc i
      byte_step step i h = omega arith

  wrap_passes-IsSized : (n j : ℕ) (s : Registers) → IsSized n s → IsSized n (wrap_passes n j s)
  unfolding wrap_passes
  wrap_passes-IsSized n zero s h = h
  wrap_passes-IsSized n (suc j) s h =
      wrap_pass-IsSized n (n * j) n (wrap_passes n j s) (omega arith) (wrap_passes-IsSized n j s h)

  unwrap_passes-wrap_passes :
      (n j : ℕ) (s : Registers)
      → n * j < 256
      → IsSized n s
      → unwrap_passes c key n j (wrap_passes n j s) ≡ s
  unfolding unwrap_passes wrap_passes
  unwrap_passes-wrap_passes n zero s small h = refl
  unwrap_passes-wrap_passes n (suc j) s small h =
      let counted : n * suc j ≡ n * j + n = mul-suc n j in
      ap (unwrap_passes c key n j) (
        unwrap_pass-wrap_pass n (n * j) n (wrap_passes n j s) (omega arith) (omega (arith, counted))
          (wrap_passes-IsSized n j s h))
      ∙ unwrap_passes-wrap_passes n j s (omega (arith, counted)) h

  -- What the rounds do to the bytes behind the blocks: nothing.
  wrap_block-front :
      (xor i : ℕ) (a r behind : List ℕ)
      → i * 8 + 8 ≤ length r
      → wrap_block xor (i * 8) (registers a (r ++ behind))
        ≡ (let s = wrap_block xor (i * 8) (registers a r) in registers s.a (s.r ++ behind))
  unfolding wrap_block
  wrap_block-front xor i a r behind h =
      let same : take 8 (drop (i * 8) (r ++ behind)) ≡ take 8 (drop (i * 8) r) =
        ap (take 8) (drop-front (i * 8) r behind (omega arith))
        ∙ take-front 8 (drop (i * 8) r) behind (omega (arith, length-drop (i * 8) r)) in
      let out = e.encrypt key (a ++ take 8 (drop (i * 8) r)) in
      ap
        (λ (z : List ℕ).
          let o = e.encrypt key (a ++ z) in
          registers (stepped (take 8 o) xor) (memcpy_at (r ++ behind) (i * 8) (drop 8 o) 8))
        same
      ∙ ap (registers (stepped (take 8 out) xor))
          (memcpy_at-front r behind (i * 8) (drop 8 out) 8 h)

  abbrev with_behind : List ℕ → Registers → Registers
  with_behind behind s = registers s.a (s.r ++ behind)

  wrap_pass-front :
      (n step i : ℕ) (s : Registers) (behind : List ℕ)
      → i ≤ n
      → IsSized n s
      → wrap_pass step i (with_behind behind s) ≡ with_behind behind (wrap_pass step i s)
  unfolding wrap_pass
  wrap_pass-front n step zero s behind l h = refl
  wrap_pass-front n step (suc i) s behind l h =
      let t = wrap_pass step i s in
      let sized = wrap_pass-IsSized n step i s (omega arith) h in
      ap (wrap_block (step + suc i) (i * 8)) (wrap_pass-front n step i s behind (omega arith) h)
      ∙ wrap_block-front (step + suc i) i t.a t.r behind (omega (arith, sized.1))

  wrap_passes-front :
      (n j : ℕ) (s : Registers) (behind : List ℕ)
      → IsSized n s
      → wrap_passes n j (with_behind behind s) ≡ with_behind behind (wrap_passes n j s)
  unfolding wrap_passes
  wrap_passes-front n zero s behind h = refl
  wrap_passes-front n (suc j) s behind h =
      ap (wrap_pass (n * j) n) (wrap_passes-front n j s behind h)
      ∙ wrap_pass-front n (n * j) n (wrap_passes n j s) behind (omega arith)
          (wrap_passes-IsSized n j s h)

  length-wrap_pass :
      (n step i : ℕ) (s : Registers)
      → i ≤ n
      → IsSized n s
      → length (wrap_pass step i s).r ≡ length s.r
  unfolding wrap_pass wrap_block
  length-wrap_pass n step zero s l h = refl
  length-wrap_pass n step (suc i) s l h =
      let t = wrap_pass step i s in
      let sized = wrap_pass-IsSized n step i s (omega arith) h in
      let out = e.encrypt key (t.a ++ take 8 (drop (i * 8) t.r)) in
      let size : length out ≡ 16 = e.size key (t.a ++ take 8 (drop (i * 8) t.r)) in
      length-memcpy_at t.r (i * 8) (drop 8 out) 8 (omega (arith, sized.1))
        (omega (arith, size, length-drop 8 out))
      ∙ length-wrap_pass n step i s (omega arith) h

  length-wrap_passes :
      (n j : ℕ) (s : Registers) → IsSized n s → length (wrap_passes n j s).r ≡ length s.r
  unfolding wrap_passes
  length-wrap_passes n zero s h = refl
  length-wrap_passes n (suc j) s h =
      length-wrap_pass n (n * j) n (wrap_passes n j s) (omega arith) (wrap_passes-IsSized n j s h)
      ∙ length-wrap_passes n j s h

  -- The key wrap of RFC 3394: the integrity value and the blocks of the key.
  pub key_wrap : List ℕ → ℕ → List ℕ → List ℕ
  unfolding wrap_passes
  key_wrap icv n plain = let s = wrap_passes n 6 (registers icv plain) in s.a ++ s.r

  start-key_wrap :
      (icv plain behind : List ℕ) (n : ℕ)
      → IsSized n (registers icv plain)
      → length plain ≡ n * 8
      → registers
          (take 8 (key_wrap icv n plain))
          (take (n * 8 + 8 - 8) (drop 8 (key_wrap icv n plain)) ++ behind)
        ≡ wrap_passes n 6 (registers icv (plain ++ behind))
  unfolding key_wrap
  start-key_wrap icv plain behind n h l =
      let s = wrap_passes n 6 (registers icv plain) in
      let sized = wrap_passes-IsSized n 6 (registers icv plain) h in
      let kept = length-wrap_passes n 6 (registers icv plain) h in
      ap₂ registers (take-pieces 8 0 s.a s.r (omega (arith, sized.0)) ∙ append-nil s.a) (
        ap (λ (z : List ℕ). take (n * 8 + 8 - 8) z ++ behind)
          (drop-pieces 8 0 s.a s.r (omega (arith, sized.0)))
        ∙ ap (λ (z : List ℕ). z ++ behind) (take_all (n * 8 + 8 - 8) s.r (omega (arith, kept, l))))
      ∙ sym (wrap_passes-front n 6 (registers icv plain) behind h)

  -- What the key wrap made of at most 30 blocks is unwrapped to them, whatever the integrity
  -- value; the 8 bytes behind them in the output are those behind R.
  pub aes_gtk_key_unwrap-key_wrap :
      (icv plain behind out : List ℕ) (n : ℕ)
      → length icv ≡ 8
      → length plain ≡ n * 8
      → n ≤ 30
      → aes_gtk_key_unwrap c true behind key out (n * 8 + 8) (key_wrap icv n plain)
        ≡ plain ++ (take 8 behind ++ drop (n * 8 + 8) out)
  unfolding aes_gtk_key_unwrap
  aes_gtk_key_unwrap-key_wrap icv plain behind out n h l small =
      let given = registers icv (plain ++ behind) in
      let same : (n * 8 + 8) / 8 - 1 ≡ n = omega arith in
      let sized : IsSized n (registers icv plain) = (h, omega (arith, l)) in
      let more : IsSized n given = (h, omega (arith, l, length-append plain behind)) in
      ap₂ (λ (m : ℕ) (s : Registers). memcpy out (unwrap_passes c key m 6 s).r (n * 8 + 8)) same
        (start-key_wrap icv plain behind n sized l)
      ∙ ap (λ (s : Registers). memcpy out s.r (n * 8 + 8))
          (unwrap_passes-wrap_passes n 6 given (omega arith) more)
      ∙ ap (λ (z : List ℕ). z ++ drop (n * 8 + 8) out)
          (take-pieces (n * 8 + 8) 8 plain behind (omega (arith, l)))
      ∙ append_assoc plain (take 8 behind) (drop (n * 8 + 8) out)
