-- ===== src/Frames/Beacon/Room.antt =====
-- The caller's arrays behind the pointers of PeerBeaconAndProbeRspSanity (Module/sanity.c): a message
-- that lies within its buffer is copied into them, and one byte behind them at most, the zero byte
-- behind an SSID of 32 bytes. A list grows here by what is written behind its end.
use rt.Prelude.{◌≤◌, ◌≡◌}
use rt.Prelude.Lists.{length}
use rt.Frames.Element.{Element}
use rt.Frames.Beacon.Fields.{Report}

-- The arrays of the callers in Module/sync.c.
pub record HasSizes (r : Report) : Type 0 where
  pub ssid_size : length r.ssid ≡ 32
  pub sup_size : length r.sup_rate ≡ 12
  pub ext_size : length r.ext_rate ≡ 12
  pub vie_size : length r.vie ≡ 128

pub record HasRoom (r : Report) : Type 0 where
  pub ssid_least : 32 ≤ length r.ssid
  pub ssid_most : length r.ssid ≤ 33
  pub sup_room : length r.sup_rate ≡ 12
  pub ext_room : length r.ext_rate ≡ 12
  pub vie_room : length r.vie ≡ 128
