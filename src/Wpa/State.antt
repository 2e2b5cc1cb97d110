-- ===== src/Wpa/State.antt =====
-- The state of the key handshake, what a call meets, and what it does (Module/wpa.c; PORT_CONFIG is
-- in Module/rtmp.h).
use rt.Prelude.{ℕ, Bool, List}
use rt.Wep.Arcfour.{Arcfour}
use rt.Wpa.Keys.{Port, WpaKey, KeyTable, rtmp_wpa_add_key_proc}

-- What the handshake writes of the adapter: `WpaState` to `PTK` of PORT_CONFIG, the sequence
-- number, `WEPCONTEXT` and the keys.
pub record Supplicant : Type 0 where
  pub wpa_state : ℕ
  pub replay_counter : List ℕ
  pub a_nonce : List ℕ
  pub s_nonce : List ℕ
  pub ptk : List ℕ
  pub sequence : ℕ
  pub wep_context : Arcfour
  pub keys : KeyTable

-- What a call meets: whether each kmalloc succeeds, the clock, and what the memory of KEYDATA and
-- behind R holds.
pub record Moment : Type 0 where
  pub pool : Bool
  pub nonce_pool : Bool
  pub out_buffer : Bool
  pub key_pool : Bool
  pub unwrap_pool : Bool
  pub clock : ℕ → ℕ
  pub fresh : List ℕ
  pub behind : List ℕ

pub data WpaEffect : Type 0 where
  send : List ℕ → WpaEffect
  to_station : List ℕ → WpaEffect
  add_key : WpaKey → WpaEffect

abbrev pub WpaResult : Type 0
WpaResult = Supplicant × List WpaEffect

-- RTMPWPAAddKeyProc on the state.
unfoldable pub install : Port → WpaKey → Supplicant → Supplicant
unfolding rtmp_wpa_add_key_proc
install p k s = record s { keys = (rtmp_wpa_add_key_proc p k s.keys).0 }
