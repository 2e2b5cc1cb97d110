-- ===== src/Auth/Challenge.antt =====
-- The answer to the challenge of shared-key authentication (Module/auth.c, PeerAuthRspAtSeq2Action),
-- as the access point decrypts it.
use rt.Prelude.{
  ◌%◌, ◌/◌, ℕ, zero, suc, ◌+◌, ◌≤◌, ◌<◌, ◌≡◌, refl, sym, ap, ap₂, ◌∙◌, true, false, some, List, [],
  ◌∷◌, ◌++◌, ◌==◌, arith,
}
use native.Mathlib.Decide.{dec_lt}
use mathlib.Core.Logic.{◌≢◌}
use mathlib.Core.List.{append-nil}
use rt.Prelude.Lists.{
  length, take, drop, mem_eq, length-append, length-take, drop-append, get_or-take, get_or_beyond,
}
use rt.Wep.Arcfour.{arcfour_init, arcfour_decrypt, byte_at}
use rt.Wep.Fcs.Crc.{crc32}
use rt.Wep.Engine.{Engine, ppp_init_fcs32, rtmp_init_wep_engine, encrypt_pieces, rtmp_set_icv}
use rt.Wep.Engine.RoundTrip.{joined, icv_of, frame_round_trip}
use rt.Frames.Requests.{AuthFrame, peer_auth_sanity}
use rt.Auth.Frame.{subtype_auth, mgt_mac_header_init, with_wep, make_outgoing_frame}
use rt.Auth.{
  Config, AuthState, send, challenge_pieces, challenge_body, challenge_answer, checked_seq2,
  run_peer_auth_rsp_at_seq2_action,
}

length-header :
    (sub_type to_ds : ℕ) (da current_address bssid : List ℕ)
    → length da ≡ 6
    → length current_address ≡ 6
    → length bssid ≡ 6
    → length (with_wep (mgt_mac_header_init sub_type to_ds da current_address bssid)) ≡ 24
unfolding mgt_mac_header_init
length-header sub_type to_ds da current_address bssid d c b = omega (
  arith,
  length-append (take 6 da) (take 6 current_address ++ (take 6 bssid ++ 0 ∷ 0 ∷ [])),
  length-append (take 6 current_address) (take 6 bssid ++ 0 ∷ 0 ∷ []),
  length-append (take 6 bssid) (0 ∷ 0 ∷ []),
  length-take 6 da (omega arith),
  length-take 6 current_address (omega arith),
  length-take 6 bssid (omega arith),
)

take_at_most : (n : ℕ) (xs : List ℕ) → length (take n xs) ≤ n
take_at_most zero xs = omega arith
take_at_most (suc n) [] = omega arith
take_at_most (suc n) (x ∷ xs) = omega (arith, take_at_most n xs)

split_head :
    (head rest : List ℕ)
    → length head ≡ 4
    → (take 3 (head ++ rest) ≡ take 3 head) × (drop 4 (head ++ rest) ≡ rest)
split_head (a ∷ b ∷ c ∷ d ∷ []) rest h = (refl, refl)
split_head [] rest h = absurd (omega arith)
split_head (a ∷ []) rest h = absurd (omega arith)
split_head (a ∷ b ∷ []) rest h = absurd (omega arith)
split_head (a ∷ b ∷ c ∷ []) rest h = absurd (omega arith)
split_head (a ∷ b ∷ c ∷ d ∷ x ∷ xs) rest h = absurd (omega arith)

-- The body's bytes.
pieces_bytes :
    (f : AuthFrame) (i : ℕ)
    → ((j : ℕ) → byte_at f.chlg_text j < 256)
    → byte_at (joined (challenge_pieces f)) i < 256
pieces_bytes f i h = fixed i
  where
    text : (i : ℕ) → byte_at (take 128 f.chlg_text ++ []) i < 256
    text i = rw append-nil (elim (dec_lt i 128) [
      | yes within ↦ rw (get_or-take 128 f.chlg_text i 0 within) (h i)
      | no behind ↦
          rw
            (get_or_beyond (take 128 f.chlg_text) i 0 (omega (arith, take_at_most 128 f.chlg_text)))
            (omega arith)
    ])

    fixed : (i : ℕ) → byte_at (joined (challenge_pieces f)) i < 256
    fixed zero = omega arith
    fixed (suc zero) = omega arith
    fixed (suc (suc zero)) = omega arith
    fixed (suc (suc (suc zero))) = omega arith
    fixed (suc (suc (suc (suc zero)))) = omega arith
    fixed (suc (suc (suc (suc (suc zero))))) = omega arith
    fixed (suc (suc (suc (suc (suc (suc zero)))))) = omega arith
    fixed (suc (suc (suc (suc (suc (suc (suc zero))))))) = omega arith
    fixed (suc (suc (suc (suc (suc (suc (suc (suc i)))))))) = text i

module _ (cfg : Config) (f : AuthFrame) (e : Engine) (short : cfg.key_len ≤ 13)
    (given : cfg.key_len ≤ length cfg.key) (room : length e.wepkey ≡ 16)
    (bytes : (j : ℕ) → byte_at f.chlg_text j < 256) where
  body_decrypts :
      let body = (challenge_body cfg f e).1 in
      (arcfour_decrypt
        (arcfour_init (take 3 body ++ take cfg.key_len cfg.key) (cfg.key_len + 3))
        (drop 4 body)).1
      ≡ joined (challenge_pieces f) ++ icv_of (crc32 ppp_init_fcs32 (joined (challenge_pieces f)))
  unfolding challenge_body
  body_decrypts =
      let (e1, head) = rtmp_init_wep_engine cfg.key cfg.default_key_id cfg.key_len e in
      let (e2, body) = encrypt_pieces (challenge_pieces f) e1 in
      let (e3, icv) = rtmp_set_icv e2 in
      let (four, plain) =
        frame_round_trip cfg.key cfg.default_key_id cfg.key_len (challenge_pieces f) e short given
          room (λ i. pieces_bytes f i bytes) in
      let (front, behind) = split_head head (body ++ icv) four in
      ap₂
        (λ t u.
          (arcfour_decrypt (arcfour_init (t ++ take cfg.key_len cfg.key) (cfg.key_len + 3)) u).1)
        front behind
      ∙ plain

-- What the frame's body decrypts to with the key, behind the vector in front of it.
pub decrypted : Config → List ℕ → List ℕ
decrypted cfg body =
    (arcfour_decrypt (arcfour_init (take 3 body ++ take cfg.key_len cfg.key) (cfg.key_len + 3))
      (drop 4 body)).1

-- The plain text: the algorithm of the peer's frame, sequence number 3, success, the element of 128
-- bytes with the challenge, and the check value.
pub answer : AuthFrame → List ℕ
answer f =
    f.auth_alg % 256 ∷ f.auth_alg / 256 % 256 ∷ 3 ∷ 0 ∷ 0 ∷ 0 ∷ 16 ∷ 128 ∷ take 128 f.chlg_text

pub answer_text : AuthFrame → List ℕ
answer_text f = answer f ++ icv_of (crc32 ppp_init_fcs32 (answer f))

joined-answer : (f : AuthFrame) → f.seq ≡ 2 → joined (challenge_pieces f) ≡ answer f
unfolding answer
joined-answer f two = rw two (rw append-nil refl)

drop_header :
    (hdr body : List ℕ) → length hdr ≡ 24 → drop 24 (make_outgoing_frame (hdr ∷ body ∷ [])) ≡ body
unfolding make_outgoing_frame
drop_header hdr body h =
    rw append-nil (ap (λ n. drop n (hdr ++ body)) (sym h) ∙ drop-append hdr body)

-- To a positive frame of sequence number 2 from the access point, on a request for shared-key
-- authentication, with memory and a key of at most 13 bytes, the machine sends one frame and no
-- confirmation, sets its timer and waits for sequence number 4; behind the frame's header of 24
-- bytes the access point decrypts the answer to the challenge, with a right check value.
pub challenge_answered :
    (cfg : Config) (stack frame : List ℕ) (f : AuthFrame) (a : AuthState)
    → peer_auth_sanity frame stack ≡ some f
    → mem_eq a.bssid f.auth_addr 6 ≡ true
    → f.seq ≡ 2
    → f.status ≡ 0
    → a.alg ≢ 0
    → length cfg.current_address ≡ 6
    → length a.bssid ≡ 6
    → length f.auth_addr ≡ 6
    → cfg.key_len ≤ 13
    → cfg.key_len ≤ length cfg.key
    → length a.engine.wepkey ≡ 16
    → ((j : ℕ) → byte_at f.chlg_text j < 256)
    → let r = run_peer_auth_rsp_at_seq2_action cfg true stack frame a in
      (sent : List ℕ) × (r.1 ≡ send sent ∷ [])
      × (r.0.curr_state ≡ 2)
      × (r.0.timer ≡ true)
      × (decrypted cfg (drop 24 sent) ≡ answer_text f)
unfolding run_peer_auth_rsp_at_seq2_action checked_seq2 challenge_answer decrypted answer_text
challenge_answered cfg stack frame f a ok from two positive shared c b d short given room bytes =
    let seq : (f.seq == 2) ≡ true = ground arith in
    let success : (f.status == 0) ≡ true = ground arith in
    let other : (a.alg == 0) ≡ false = ground arith in
    let hdr =
      with_wep (mgt_mac_header_init subtype_auth 0 f.auth_addr cfg.current_address a.bssid) in
    let body = (challenge_body cfg f a.engine).1 in
    let taken : run_peer_auth_rsp_at_seq2_action cfg true stack frame a
        ≡ challenge_answer cfg f (record a { timer = false }) =
      rw ok (rw from (rw seq (rw success (rw other refl)))) in
    (
      make_outgoing_frame (hdr ∷ body ∷ []),
      ap (λ r. r.1) taken,
      ap (λ r. r.0.curr_state) taken,
      ap (λ r. r.0.timer) taken,
      ap (decrypted cfg) (
            drop_header hdr body
              (length-header subtype_auth 0 f.auth_addr cfg.current_address a.bssid d c b))
          ∙ body_decrypts cfg f a.engine short given room bytes
          ∙ ap (λ t. t ++ icv_of (crc32 ppp_init_fcs32 t)) (joined-answer f two),
    )
