-- ===== src/Wpa/Group/Run.antt =====
-- Runs of the handshake: WpaEAPOLKeyAction of Module/wpa.c on any messages, where kmalloc gives the
-- actions their first block of memory.
pub mod Keyed
use rt.Prelude.{ℕ, ◌≡◌, ◌≤◌, ◌⊎◌, true, List, [], ◌∷◌, ◌++◌}
use rt.Prelude.Lists.{take, drop, replicate}
use rt.Wpa.Digest.{Crypto, wpa_count_ptk}
use rt.Wpa.Keys.{Port, WpaKey, is_pairwise}
use rt.Wpa.State.{Supplicant, Moment, WpaEffect, send, to_station, add_key}
use rt.Wpa.Group.{wpa_eapol_key_action}

-- A run from `s0`, and the state that it comes to.
pub data KeyReach (c : Crypto) (p : Port) (s0 : Supplicant) : Supplicant → Type 0 where
  start : KeyReach c p s0 s0
  message :
      {s : Supplicant} (e : Moment) (msg : List ℕ)
      → KeyReach c p s0 s
      → e.pool ≡ true
      → KeyReach c p s0 (wpa_eapol_key_action c p e msg s).0

-- The key that WpaCountPTK makes of the master key and two nonces.
unfoldable pub session_ptk : Crypto → Port → List ℕ → List ℕ → List ℕ
unfolding wpa_count_ptk
session_ptk c p a_nonce s_nonce =
    take 64
      (wpa_count_ptk c p.master_key a_nonce p.port_bssid s_nonce p.own_address (replicate 80 0) 64)

-- In SS_NOTUSE and SS_START there may be no key; else it is that of the nonces of the state.
unfoldable pub IsKeyed : Crypto → Port → Supplicant → Type 0
IsKeyed c p s = (s.wpa_state ≤ 1) ⊎ (s.ptk ≡ session_ptk c p s.a_nonce s.s_nonce)
