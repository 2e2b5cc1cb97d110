-- ===== src/Wep/Engine/RoundTrip.antt =====
-- What a receiver recovers from the data that the WEP engine of Module/rtmp_wep.c encrypts.
use rt.Prelude.{
  ℕ, zero, suc, ◌+◌, ◌*◌, ◌%◌, ◌≤◌, ◌<◌, ◌≡◌, refl, sym, ap, ap₂, ◌∙◌, List, [], ◌∷◌, ◌++◌, bit_xor,
  arith, leb, if◌then◌else◌,
}
use rt.Prelude.Lists.{length, set, take, drop, length-take, get_or-append}
use rt.Wep.Arcfour.{
  byte_at, identity_from, exchange, key_schedule, arcfour_init, arcfour_encrypt, arcfour_decrypt,
}
use rt.Wep.Arcfour.Stream.{decrypt-encrypt, encrypt-append}
use rt.Wep.Fcs.{calc_fcs32}
use rt.Wep.Fcs.Crc.{crc32, calc_fcs32-append, calc_fcs32-crc32}
use rt.Wep.Random.{random_byte}
use rt.Wep.Engine.{
  Engine, le_bytes, ppp_init_fcs32, put_key, rtmp_init_wep_engine, rtmp_encrypt_data, rtmp_set_icv,
  encrypt_pieces,
}

-- The pieces, joined.
abbrev pub joined : List (List ℕ) → List ℕ
joined [] = []
joined (p ∷ ps) = p ++ joined ps

-- Only the bytes of the key up to its length reach the schedule.
key_schedule-prefix :
    (key key' : List ℕ) (key_len left counter keyindex stateindex : ℕ) (state : List ℕ)
    → ((i : ℕ) → i < key_len → byte_at key i ≡ byte_at key' i)
    → keyindex < key_len
    → key_schedule key key_len left counter keyindex stateindex state
      ≡ key_schedule key' key_len left counter keyindex stateindex state
unfolding key_schedule
key_schedule-prefix key key' key_len zero counter keyindex stateindex state h p = refl
key_schedule-prefix key key' key_len (suc left) counter keyindex stateindex state h p =
    ap
      (λ (b : ℕ).
        key_schedule key key_len left (counter + 1)
          (if leb key_len (keyindex + 1) then 0 else keyindex + 1)
          ((stateindex + b + byte_at state counter) % 256)
          (exchange state counter ((stateindex + b + byte_at state counter) % 256)))
      (h keyindex p)
    ∙ key_schedule-prefix key key' key_len left (counter + 1)
        (if leb key_len (keyindex + 1) then 0 else keyindex + 1)
        ((stateindex + byte_at key' keyindex + byte_at state counter) % 256)
        (exchange state counter
          ((stateindex + byte_at key' keyindex + byte_at state counter) % 256))
        h (ground arith)

arcfour_init-prefix :
    (key key' : List ℕ) (key_len : ℕ)
    → 0 < key_len
    → ((i : ℕ) → i < key_len → byte_at key i ≡ byte_at key' i)
    → arcfour_init key key_len ≡ arcfour_init key' key_len
unfolding arcfour_init
arcfour_init-prefix key key' key_len p h =
    ap (λ (s : List ℕ). record { x = 0; y = 0; state = s })
      (key_schedule-prefix key key' key_len 256 0 0 0 (identity_from 256 0) h p)

-- WEPKEY when the vector is in place.
wepkey_bytes :
    (wepkey key : List ℕ) (key_len b0 b1 b2 : ℕ)
    → 3 ≤ length wepkey
    → set (set (set (put_key key key_len wepkey) 0 b0) 1 b1) 2 b2
      ≡ b0 ∷ b1 ∷ b2 ∷ (take key_len key ++ drop key_len (drop 3 wepkey))
wepkey_bytes [] key key_len b0 b1 b2 h = absurd (omega arith)
wepkey_bytes (a ∷ []) key key_len b0 b1 b2 h = absurd (omega arith)
wepkey_bytes (a ∷ b ∷ []) key key_len b0 b1 b2 h = absurd (omega arith)
wepkey_bytes (a ∷ b ∷ c ∷ w) key key_len b0 b1 b2 h = refl

-- The bytes in front of a list of enough bytes.
byte_at-front :
    (b0 b1 b2 key_len i : ℕ) (key rest : List ℕ)
    → key_len ≤ length key
    → i < key_len + 3
    → byte_at (b0 ∷ b1 ∷ b2 ∷ (take key_len key ++ rest)) i
      ≡ byte_at ((b0 ∷ b1 ∷ b2 ∷ []) ++ take key_len key) i
byte_at-front b0 b1 b2 key_len zero key rest p h = refl
byte_at-front b0 b1 b2 key_len (suc zero) key rest p h = refl
byte_at-front b0 b1 b2 key_len (suc (suc zero)) key rest p h = refl
byte_at-front b0 b1 b2 key_len (suc (suc (suc i))) key rest p h =
    ground (arith, get_or-append (take key_len key) rest i 0, length-take key_len key p)

-- The calls of RTMPEncryptData together.
encrypt_pieces_fields :
    (ps : List (List ℕ)) (e : Engine)
    → ((encrypt_pieces ps e).1 ≡ (arcfour_encrypt e.ctx (joined ps)).1)
      × ((encrypt_pieces ps e).0.ctx ≡ (arcfour_encrypt e.ctx (joined ps)).0)
      × ((encrypt_pieces ps e).0.fcs ≡ calc_fcs32 e.fcs (joined ps))
unfolding encrypt_pieces arcfour_encrypt calc_fcs32
encrypt_pieces_fields [] e = (refl, refl, refl)
encrypt_pieces_fields (p ∷ ps) e =
    let (dest, ctx, fcs) = encrypt_pieces_fields ps (rtmp_encrypt_data p e).0 in
    let both = encrypt-append e.ctx p (joined ps) in
    (
      ap (λ t. (arcfour_encrypt e.ctx p).1 ++ t) dest ∙ sym (ap (λ t. t.1) both),
      ctx ∙ sym (ap (λ t. t.0) both),
      fcs ∙ sym (calc_fcs32-append e.fcs p (joined ps)),
    )

-- The bytes of the check value that RTMPSetICV sends.
pub icv_of : ℕ → List ℕ
icv_of fcs = le_bytes (bit_xor fcs ppp_init_fcs32)

-- The whole ciphertext is one encryption of the data with the check value behind it.
sealed :
    (ps : List (List ℕ)) (e : Engine)
    → (encrypt_pieces ps e).1 ++ (rtmp_set_icv (encrypt_pieces ps e).0).1
      ≡ (arcfour_encrypt e.ctx (joined ps ++ icv_of (calc_fcs32 e.fcs (joined ps)))).1
unfolding rtmp_set_icv icv_of
sealed ps e =
    let (dest, ctx, fcs) = encrypt_pieces_fields ps e in
    ap₂ (λ a b. a ++ b) dest
      (ap₂ (λ c f. (arcfour_encrypt c (le_bytes (bit_xor f ppp_init_fcs32))).1) ctx fcs)
    ∙ sym (ap (λ t. t.1) (encrypt-append e.ctx (joined ps) (icv_of (calc_fcs32 e.fcs (joined ps)))))

keyed :
    (wepkey key : List ℕ) (key_len id b0 b1 b2 : ℕ)
    → key_len ≤ length key
    → 3 ≤ length wepkey
    → let w = set (set (set (put_key key key_len wepkey) 0 b0) 1 b1) 2 b2 in
      (length (take 3 w ++ id ∷ []) ≡ 4)
      × (arcfour_init w (key_len + 3)
          ≡ arcfour_init (take 3 (take 3 w ++ id ∷ []) ++ take key_len key) (key_len + 3))
keyed wepkey key key_len id b0 b1 b2 p h = rw (wepkey_bytes wepkey key key_len b0 b1 b2 h) (
  refl,
  arcfour_init-prefix (b0 ∷ b1 ∷ b2 ∷ (take key_len key ++ drop key_len (drop 3 wepkey)))
      ((b0 ∷ b1 ∷ b2 ∷ []) ++ take key_len key) (key_len + 3) (omega arith)
      (λ i. byte_at-front b0 b1 b2 key_len i key (drop key_len (drop 3 wepkey)) p),
)

-- RTMPInitWepEngine: the sum starts anew, four bytes are sent, and the cipher is keyed by the
-- vector sent and the key.
init_engine :
    (key : List ℕ) (key_id key_len : ℕ) (e : Engine)
    → key_len ≤ length key
    → length e.wepkey ≡ 16
    → let (e', head) = rtmp_init_wep_engine key key_id key_len e in
      (e'.fcs ≡ ppp_init_fcs32)
      × (length head ≡ 4)
      × (e'.ctx ≡ arcfour_init (take 3 head ++ take key_len key) (key_len + 3))
unfolding rtmp_init_wep_engine
init_engine key key_id key_len e p w =
    let (reg1, b0) = random_byte e.shift_reg in
    let (reg2, b1) = random_byte reg1 in
    let (reg3, b2) = random_byte reg2 in
    let k = keyed e.wepkey key key_len (key_id * 64 % 256) b0 b1 b2 p (omega arith) in
    (refl, k.0, k.1)

-- With a key of at most thirteen bytes: the four bytes of RTMPInitWepEngine, the data encrypted in
-- any pieces by RTMPEncryptData and the check value of RTMPSetICV make a frame from which a
-- receiver that keys ARCFOUR with the vector sent and the shared key decrypts all the data,
-- followed by the little-endian bytes of the complement of its CRC-32, taken bit by bit.
pub frame_round_trip :
    (key : List ℕ) (key_id key_len : ℕ) (ps : List (List ℕ)) (e : Engine)
    → key_len ≤ 13
    → key_len ≤ length key
    → length e.wepkey ≡ 16
    → ((i : ℕ) → byte_at (joined ps) i < 256)
    → let (e1, head) = rtmp_init_wep_engine key key_id key_len e in
      let (e2, body) = encrypt_pieces ps e1 in
      let (e3, icv) = rtmp_set_icv e2 in
      (length head ≡ 4)
      × ((arcfour_decrypt
            (arcfour_init (take 3 head ++ take key_len key) (key_len + 3))
            (body ++ icv)).1
          ≡ joined ps ++ icv_of (crc32 ppp_init_fcs32 (joined ps)))
frame_round_trip key key_id key_len ps e short p w bytes =
    let (fcs, four, ctx) = init_engine key key_id key_len e p w in
    let (e1, head) = rtmp_init_wep_engine key key_id key_len e in
    let sum : calc_fcs32 e1.fcs (joined ps) ≡ crc32 ppp_init_fcs32 (joined ps) =
      ap (λ f. calc_fcs32 f (joined ps)) fcs ∙ calc_fcs32-crc32 ppp_init_fcs32 (joined ps) bytes in
    let plain : List ℕ = joined ps ++ icv_of (calc_fcs32 e1.fcs (joined ps)) in
    (
      four,
      ap₂ (λ c t. (arcfour_decrypt c t).1) (sym ctx) (sealed ps e1)
          ∙ ap (λ t. t.1) (decrypt-encrypt e1.ctx plain).0
          ∙ ap (λ f. joined ps ++ icv_of f) sum,
    )
