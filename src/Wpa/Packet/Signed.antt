-- ===== src/Wpa/Packet/Signed.antt =====
-- The packets that the actions of Module/wpa.c sign pass the check that the actions make.
use rt.Prelude.{
  ℕ, zero, suc, ◌+◌, ◌-◌, ◌%◌, ◌≤◌, ◌<◌, ◌≡◌, refl, sym, ap, ap₂, ◌∙◌, arith, true, List, [], ◌∷◌,
  ◌++◌, Bool-cases, inl, inr, ◌==◌,
}
use rt.Prelude.Lists.{
  length, get_or, take, drop, replicate, mem_eq, mem_eq_self, length-take, length-append,
  get_or-take,
}
use rt.Prelude.Lists.Pieces.{
  take-pieces, drop-pieces, append_assoc, append-nil, take-take, drop-take,
}
use rt.Wpa.Digest.{Crypto, hmac_sha1}
use rt.Wpa.Digest.Hmac.{length-hmac_sha1}
use rt.Wpa.Keys.{Port}
use rt.Wpa.Packet.{
  read, mic_of, packet_len, authenticated, mic_value, mic_matches, EapolPacket, packet_bytes,
  signed_packet,
}

-- The fields fill their arrays, and the length its byte.
pub record IsFormed (k : EapolPacket) : Type 0 where
  pub info : length k.out_info ≡ 2
  pub key_length : length k.out_key_length ≡ 2
  pub replay : length k.out_replay ≡ 8
  pub nonce : length k.out_nonce ≡ 32
  pub room : k.out_data_len ≤ length k.out_data
  pub small : k.out_data_len < 161

read-cons : (n i x : ℕ) (xs : List ℕ) → read n (suc i) (x ∷ xs) ≡ read n i xs
unfolding read
read-cons zero i x xs = refl
read-cons (suc n) i x xs =
    ap (◌∷◌ (get_or xs i 0)) (ap (λ (j : ℕ). read n j (x ∷ xs)) (next i) ∙ read-cons n (i + 1) x xs)
  where
    next : (i : ℕ) → suc i + 1 ≡ suc (i + 1)
    next i = omega arith

read-drop : (n i : ℕ) (xs : List ℕ) → i + n ≤ length xs → read n i xs ≡ take n (drop i xs)
unfolding read
read-drop zero i xs h = refl
read-drop (suc n) i [] h = absurd (omega arith)
read-drop (suc n) zero (x ∷ xs) h = ap (◌∷◌ x) (read-cons n 0 x xs ∙ read-drop n 0 xs (omega arith))
read-drop (suc n) (suc i) (x ∷ xs) h =
    read-cons (suc n) i x xs ∙ read-drop (suc n) i xs (omega arith)

take-read : (m n i : ℕ) (xs : List ℕ) → m ≤ n → take m (read n i xs) ≡ read m i xs
unfolding read
take-read zero n i xs h = refl
take-read (suc m) zero i xs h = absurd (omega arith)
take-read (suc m) (suc n) i xs h = ap (◌∷◌ (get_or xs i 0)) (take-read m n (i + 1) xs (omega arith))

append_five :
    (a b c d e f : List ℕ) → (a ++ (b ++ (c ++ (d ++ e)))) ++ f ≡ a ++ (b ++ (c ++ (d ++ (e ++ f))))
append_five a b c d e f =
    append_assoc a (b ++ (c ++ (d ++ e))) f
    ∙ ap (◌++◌ a) (
        append_assoc b (c ++ (d ++ e)) f
        ∙ ap (◌++◌ b) (append_assoc c (d ++ e) f ∙ ap (◌++◌ c) (append_assoc d e f)))

-- Bytes of a list cut behind them: from the start, and behind the first.
read-front :
    (n l : ℕ) (xs ys : List ℕ)
    → length xs ≡ n
    → n ≤ l
    → l ≤ length (xs ++ ys)
    → read n 0 (take l (xs ++ ys)) ≡ xs
read-front n l xs ys h k r =
    read-drop n 0 (take l (xs ++ ys)) (omega (arith, length-take l (xs ++ ys) r))
    ∙ take-take n l (xs ++ ys) k
    ∙ take-pieces n 0 xs ys (omega (arith, h))
    ∙ append-nil xs

read-behind :
    (n m l : ℕ) (xs ys : List ℕ)
    → length xs ≡ n
    → n + m ≤ l
    → l ≤ length (xs ++ ys)
    → read m n (take l (xs ++ ys)) ≡ take m ys
read-behind n m l xs ys h k r =
    read-drop m n (take l (xs ++ ys)) (omega (arith, length-take l (xs ++ ys) r))
    ∙ ap (take m) (drop-take n (l - n) l (xs ++ ys) (omega arith))
    ∙ take-take m (l - n) (drop n (xs ++ ys)) (omega arith)
    ∙ ap (take m) (drop-pieces n 0 xs ys (omega (arith, h)))

-- The first `n` bytes, a block of 16 and what is left of the `l`.
take-blocks :
    (n l : ℕ) (xs block ys : List ℕ)
    → length xs ≡ n
    → length block ≡ 16
    → n + 16 ≤ l
    → take l (xs ++ (block ++ ys)) ≡ xs ++ (block ++ take (l - n - 16) ys)
take-blocks n l xs block ys h b k =
    take-pieces l (l - n) xs (block ++ ys) (omega (arith, h))
    ∙ ap (◌++◌ xs) (take-pieces (l - n) (l - n - 16) block ys (omega (arith, b)))

module _ (k : EapolPacket) (f : IsFormed k) where
  front : List ℕ
  front =
      1
      ∷ 3
      ∷ 0
      ∷ (95 + k.out_data_len) % 256
      ∷ k.out_type
      ∷ (k.out_info ++ (k.out_key_length ++ (k.out_replay ++ (k.out_nonce ++ replicate 32 0))))

  tail : List ℕ
  tail = 0 ∷ k.out_data_len ∷ k.out_data

  size : ℕ
  size = (95 + k.out_data_len) % 256 + 4

  packet_bytes-front : (mic : List ℕ) → packet_bytes k mic ≡ take size (front ++ (mic ++ tail))
  unfolding packet_bytes front tail size
  packet_bytes-front mic =
      ap (λ (z : List ℕ). take size (1 ∷ 3 ∷ 0 ∷ (95 + k.out_data_len) % 256 ∷ k.out_type ∷ z))
        (sym (
          append_five k.out_info k.out_key_length k.out_replay k.out_nonce (replicate 32 0)
            (mic ++ tail)))

  length-front : length front ≡ 81
  unfolding front
  length-front = omega (
    arith,
    length-append k.out_info
        (k.out_key_length ++ (k.out_replay ++ (k.out_nonce ++ replicate 32 0))),
    length-append k.out_key_length (k.out_replay ++ (k.out_nonce ++ replicate 32 0)),
    length-append k.out_replay (k.out_nonce ++ replicate 32 0),
    length-append k.out_nonce (replicate 32 0),
    f.info,
    f.key_length,
    f.replay,
    f.nonce,
  )

  size_value : size ≡ 99 + k.out_data_len
  unfolding size
  size_value = omega (arith, f.small)

  module _ (mic : List ℕ) (sixteen : length mic ≡ 16) where
    packet : List ℕ
    packet = take size (front ++ (mic ++ tail))

    whole : size ≤ length (front ++ (mic ++ tail))
    unfolding tail
    whole = omega (
      arith,
      size_value,
      length-append front (mic ++ tail),
      length-append mic tail,
      length-front,
      sixteen,
      f.room,
    )

    mic_of-packet : mic_of packet ≡ mic
    unfolding packet
    mic_of-packet =
        read-behind 81 16 size front (mic ++ tail) length-front (omega (arith, size_value)) whole
        ∙ take-pieces 16 0 mic tail (omega (arith, sixteen))
        ∙ append-nil mic

    packet_len-packet : packet_len packet ≡ size
    unfolding packet size front
    packet_len-packet =
        ap (λ (x : ℕ). x + 4)
          (get_or-take size (front ++ (mic ++ tail)) 3 0 (omega (arith, size_value)))

    behind-packet : read (size - 81 - 16) 97 packet ≡ take (size - 81 - 16) tail
    unfolding packet
    behind-packet =
        ap (λ (z : List ℕ). read (size - 81 - 16) 97 (take size z))
          (sym (append_assoc front mic tail))
        ∙ read-behind 97 (size - 81 - 16) size (front ++ mic) tail
            (omega (arith, length-append front mic, length-front, sixteen))
            (omega (arith, size_value))
            (omega (arith, whole, ap length (append_assoc front mic tail)))

    authenticated-packet : authenticated packet ≡ take size (front ++ (replicate 16 0 ++ tail))
    unfolding authenticated
    authenticated-packet =
        let first : read 81 0 packet ≡ front =
          unfold packet in
          read-front 81 size front (mic ++ tail) length-front (omega (arith, size_value)) whole in
        ap₂ (λ (n : ℕ) (z : List ℕ). take n (z ++ (replicate 16 0 ++ read 162 97 packet)))
          packet_len-packet first
        ∙ take-blocks 81 size front (replicate 16 0) (read 162 97 packet) length-front refl
            (omega (arith, size_value))
        ∙ ap (λ (z : List ℕ). front ++ (replicate 16 0 ++ z))
            (take-read (size - 81 - 16) 162 97 packet (omega (arith, size_value, f.small))
              ∙ behind-packet)
        ∙ sym (
            take-blocks 81 size front (replicate 16 0) tail length-front refl
              (omega (arith, size_value)))

length-mic_value :
    (c : Crypto) (status : ℕ) (ptk text : List ℕ)
    → ((bytes : List ℕ) → length (c.sha1 bytes) ≡ 20)
    → ((key bytes : List ℕ) → length (c.hmac_md5 key bytes) ≡ 16)
    → length (mic_value c status ptk text) ≡ 16
unfolding mic_value
length-mic_value c status ptk text sha md5 = elim (Bool-cases (status == 6)) [
  | inl e ↦
      rw (e, mic_value)
        (length-take 16 (hmac_sha1 c text ptk 16)
          (omega (arith, length-hmac_sha1 c text ptk 16 sha)))
  | inr e ↦ rw (e, mic_value) (md5 (take 16 ptk) text)
]

-- With digests of 20 and of 16 bytes, a packet whose fields have their lengths and whose length
-- fits its byte passes, once signed under a temporal key, the check of the MIC that the actions
-- make of a received packet under this key.
pub signed_packet-mic_matches :
    (c : Crypto) (p : Port) (ptk : List ℕ) (k : EapolPacket)
    → ((bytes : List ℕ) → length (c.sha1 bytes) ≡ 20)
    → ((key bytes : List ℕ) → length (c.hmac_md5 key bytes) ≡ 16)
    → IsFormed k
    → mic_matches c p ptk (signed_packet c p ptk k) ≡ true
unfolding mic_matches signed_packet packet
signed_packet-mic_matches c p ptk k sha md5 f =
    let mic = mic_value c p.port_status ptk (packet_bytes k (replicate 16 0)) in
    let sixteen : length mic ≡ 16 = length-mic_value c p.port_status ptk _ sha md5 in
    let cut = packet_bytes-front k f mic in
    let again : authenticated (packet_bytes k mic) ≡ packet_bytes k (replicate 16 0) =
      ap authenticated cut
      ∙ authenticated-packet k f mic sixteen
      ∙ sym (packet_bytes-front k f (replicate 16 0)) in
    ap₂ (λ (x y : List ℕ). mem_eq x (mic_value c p.port_status ptk y) 16)
      (ap (λ (z : List ℕ). mic_of z) cut ∙ mic_of-packet k f mic sixteen) again
    ∙ mem_eq_self mic 16
