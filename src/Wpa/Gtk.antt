-- ===== src/Wpa/Gtk.antt =====
-- The group key in the key data of message 3 (Module/wpa.c, ParseKeyData and the part of
-- Wpa2PairMsg3Action that obtains it). The loop of ParseKeyData over the elements of the beacon only
-- prints and is left out.
use rt.Prelude.{
  ℕ, zero, suc, ◌+◌, ◌-◌, ◌%◌, Bool, not, ◌&&◌, List, [], ◌∷◌, ◌++◌, leb, ◌==◌, if◌then◌else◌,
}
use rt.Prelude.Lists.{get_or, take, drop, replicate, memcpy}
use rt.Wep.Arcfour.{Arcfour, arcfour_init, arcfour_byte, arcfour_decrypt}
use rt.Bss.{bss_not_found, bss_table_search}
use rt.Wpa.Digest.{Crypto}
use rt.Wpa.Unwrap.{aes_gtk_key_unwrap}
use rt.Wpa.Keys.{Port, WpaKey}
use rt.Wpa.Packet.{read, iv_of, key_data, key_data_len}
use rt.Wpa.State.{Supplicant, Moment, add_key, WpaResult, install}

-- `for (...) ARCFOUR_BYTE(...)`.
unfoldable pub discard : ℕ → Arcfour → Arcfour
unfolding arcfour_byte
discard zero ctx = ctx
discard (suc left) ctx = discard left (arcfour_byte ctx).0

-- The decryption by TKIP of `n` bytes of the key data: the context behind it, and the bytes.
unfoldable pub arcfour_key_data : List ℕ → List ℕ → ℕ → Arcfour × List ℕ
unfolding arcfour_init discard arcfour_decrypt read
arcfour_key_data ptk packet n =
    arcfour_decrypt (discard 256 (arcfour_init (iv_of packet ++ take 16 (drop 16 ptk)) 32))
      (take n (key_data packet))

-- ParseKeyData: where the key is in the data.
abbrev pub skips : ℕ → List ℕ → ℕ → ℕ → Bool
skips id bytes at left =
    get_or bytes at 0 == id
    && not (get_or bytes (at + 1) 0 == 0)
    && leb (2 + get_or bytes (at + 1) 0) left

unfoldable pub kde_offset : List ℕ → ℕ → ℕ
kde_offset bytes len =
    let at = if skips 221 bytes 0 len then get_or bytes 1 0 + 2 else 0 in
    if skips 48 bytes at (len - at) then at + get_or bytes (at + 1) 0 + 2 else at

unfoldable pub group_key_of : Port → List ℕ → ℕ → WpaKey
unfolding read
group_key_of p bytes at = record {
  index = 536870912 + get_or bytes (at + 6) 0 % 4;
  material_len = (get_or bytes (at + 1) 0 + 250) % 256;
  for_bssid = p.port_bssid;
  rsc = replicate 8 0;
  material = read 32 (at + 8) bytes;
}

-- The station is in the table, the key's index is not zero, and there is memory.
unfoldable pub has_group_key : Port → Moment → List ℕ → ℕ → Bool
unfolding bss_table_search
has_group_key p e bytes at =
    not (bss_table_search p.scan_tab p.port_bssid p.port_channel == bss_not_found)
    && not (get_or bytes (at + 6) 0 % 4 == 0)
    && e.key_pool

unfoldable pub parse_key_data : Port → Moment → List ℕ → ℕ → Supplicant → WpaResult
unfolding kde_offset group_key_of install has_group_key
parse_key_data p e bytes len s =
    let k = group_key_of p bytes (kde_offset bytes len) in
    if has_group_key p e bytes (kde_offset bytes len)
    then (install p k s, add_key k ∷ [])
    else (s, [])

-- The key data of message 3, decrypted, and the context behind it.
unfoldable pub decrypted : Crypto → Port → Moment → List ℕ → Supplicant → Arcfour × List ℕ
unfolding aes_gtk_key_unwrap arcfour_key_data
decrypted c p e packet s =
    let n = key_data_len packet in
    if p.port_status == 6
    then (
      s.wep_context,
      aes_gtk_key_unwrap c e.unwrap_pool e.behind (take 16 (drop 16 s.ptk)) e.fresh n
          (key_data packet),
    )
    else ((arcfour_key_data s.ptk packet n).0, memcpy e.fresh (arcfour_key_data s.ptk packet n).1 n)

unfoldable pub obtain_gtk : Crypto → Port → Moment → List ℕ → Supplicant → WpaResult
unfolding decrypted parse_key_data
obtain_gtk c p e packet s =
    parse_key_data p e (decrypted c p e packet s).1 (key_data_len packet)
      (record s { wep_context = (decrypted c p e packet s).0 })
