-- ===== src/Wep/Engine.antt =====
-- The WEP engine (Module/rtmp_wep.c, RTMPInitWepEngine, RTMPEncryptData and RTMPSetICV) on a
-- little-endian machine. The engine is `pAd->PrivateInfo`'s sum and cipher context, the static
-- array WEPKEY of sixteen bytes, and the shift register of the random bytes.
pub mod RoundTrip
use rt.Prelude.{ℕ, ◌+◌, ◌*◌, ◌/◌, ◌%◌, ◌^◌, List, [], ◌∷◌, ◌++◌, bit_xor}
use rt.Prelude.Lists.{set, take, drop, memcpy}
use rt.Wep.Arcfour.{Arcfour, arcfour_init, arcfour_encrypt}
use rt.Wep.Fcs.{calc_fcs32}
use rt.Wep.Random.{random_byte}

pub record Engine : Type 0 where
  pub fcs : ℕ
  pub ctx : Arcfour
  pub wepkey : List ℕ
  pub shift_reg : ℕ

abbrev pub ppp_init_fcs32 : ℕ
ppp_init_fcs32 = 4294967295

-- The bytes of a 32-bit word in memory.
abbrev pub le_bytes : ℕ → List ℕ
le_bytes n = (n % 256 ∷ n / 256 % 256 ∷ n / 65536 % 256 ∷ n / 16777216 % 256 ∷ [])

-- `memcpy(WEPKEY + 3, pKey, KeyLen)`.
abbrev pub put_key : List ℕ → ℕ → List ℕ → List ℕ
put_key key key_len wepkey = take 3 wepkey ++ memcpy (drop 3 wepkey) key key_len

-- RTMPInitWepEngine: the engine, and the four bytes written to `pDest`.
unfoldable pub rtmp_init_wep_engine : List ℕ → ℕ → ℕ → Engine → Engine × List ℕ
rtmp_init_wep_engine key key_id key_len e =
    let (reg1, b0) = random_byte e.shift_reg in
    let (reg2, b1) = random_byte reg1 in
    let (reg3, b2) = random_byte reg2 in
    let wepkey = set (set (set (put_key key key_len e.wepkey) 0 b0) 1 b1) 2 b2 in
    (
      record {
        fcs = ppp_init_fcs32;
        ctx = arcfour_init wepkey (key_len + 3);
        wepkey = wepkey;
        shift_reg = reg3;
      },
      take 3 wepkey ++ key_id * 64 % 256 ∷ [],
    )

-- RTMPEncryptData over the `Len` bytes given.
unfoldable pub rtmp_encrypt_data : List ℕ → Engine → Engine × List ℕ
rtmp_encrypt_data src e =
    let (ctx, dest) = arcfour_encrypt e.ctx src in
    (record e { fcs = calc_fcs32 e.fcs src; ctx = ctx }, dest)

-- RTMPSetICV.
unfoldable pub rtmp_set_icv : Engine → Engine × List ℕ
rtmp_set_icv e =
    let fcs = bit_xor e.fcs 4294967295 in
    let (ctx, dest) = arcfour_encrypt e.ctx (le_bytes fcs) in
    (record e { fcs = fcs; ctx = ctx }, dest)

-- Calls of RTMPEncryptData one after the other, each at the end of what the last one wrote, as
-- PeerAuthRspAtSeq2Action (Module/auth.c) makes six of them.
unfoldable pub encrypt_pieces : List (List ℕ) → Engine → Engine × List ℕ
unfolding rtmp_encrypt_data
encrypt_pieces [] e = (e, [])
encrypt_pieces (p ∷ ps) e =
    let (e', dest) = rtmp_encrypt_data p e in
    let (end, rest) = encrypt_pieces ps e' in (end, dest ++ rest)
