-- ===== src/Wpa/Pair/Stored.antt =====
-- Where the temporal key of message 3 goes (Module/wpa.c, WpaPairMsg3Action; Module/rtmp_info.c,
-- RTMPWPAAddKeyProc).
use rt.Prelude.{
  ℕ, ◌+◌, ◌-◌, ◌%◌, ◌≤◌, ◌<◌, ◌≡◌, refl, sym, ap, ◌∙◌, arith, Bool, true, false, not, ◌&&◌, List,
  ◌++◌, ◌==◌, if◌then◌else◌,
}
use mathlib.Core.Bool.{true≢false}
use rt.Prelude.Lists.{
  length, get_or, set, take, drop, memcpy, mem_eq, get_or-set, length-take, length-drop, drop-drop,
}
use rt.Prelude.Lists.Pieces.{drop_all, append-nil, drop-take, take-take}
use rt.Wpa.Keys.{
  Port, WpaKey, KeyTable, SharedKey, no_shared_key, broadcast, is_accepted, is_pairwise, key_bit,
  rx_mic_offset, tx_mic_offset, stored, rtmp_wpa_add_key_proc,
}
use rt.Wpa.Packet.{key_length_value}
use rt.Wpa.State.{Supplicant, install}
use rt.Wpa.Pair.{peer_key}

abbrev pub entry : Supplicant → ℕ → SharedKey
entry s i = get_or s.keys.shared_key i no_shared_key

-- The arrays of an entry have their sizes.
pub record HasArrays (k : SharedKey) : Type 0 where
  pub for_key : length k.stored_key ≡ 16
  pub for_rx_mic : length k.rx_mic ≡ 8
  pub for_tx_mic : length k.tx_mic ≡ 8

all_new :
    (old new : List ℕ) (n : ℕ) → length old ≡ n → n ≤ length new → memcpy old new n ≡ take n new
all_new old new n h l =
    ap (◌++◌ (take n new)) (drop_all n old (omega (arith, h))) ∙ append-nil (take n new)

peer_key-is_accepted :
    (p : Port) (ptk packet : List ℕ)
    → key_length_value packet ≡ 32
    → mem_eq p.port_bssid broadcast 6 ≡ false
    → is_accepted p (peer_key p ptk packet) ≡ true
unfolding is_accepted peer_key
peer_key-is_accepted p ptk packet l b = ground (arith, l, b)

-- A piece of the temporal key.
piece :
    (i n : ℕ) (ptk : List ℕ)
    → i + n ≤ 32
    → take n (drop i (take 32 (drop 32 ptk))) ≡ take n (drop (i + 32) ptk)
piece i n ptk h =
    ap (take n) (drop-take i (32 - i) 32 (drop 32 ptk) (omega arith))
    ∙ take-take n (32 - i) (drop i (drop 32 ptk)) (omega arith)
    ∙ ap (take n) (drop-drop 32 i ptk)

pick {ℓ} : {A : Type ℓ} (b : Bool) (x y : A) → b ≡ true → (if b then x else y) ≡ x
pick true x y h = refl
pick false x y h = absurd (true≢false (sym h))

-- The table behind a key that is accepted, at index zero and for one station.
added : Port → WpaKey → KeyTable → KeyTable
unfolding stored
added p k t = record {
  shared_key =
      set t.shared_key (k.index % 256)
        (stored p k (get_or t.shared_key (k.index % 256) no_shared_key));
  default_key = if not (is_pairwise k) && key_bit 31 k then k.index % 256 else t.default_key;
  port_secured = if is_pairwise k then t.port_secured else 1;
}

add_key-added :
    (p : Port) (k : WpaKey) (t : KeyTable)
    → is_accepted p k ≡ true
    → (rtmp_wpa_add_key_proc p k t).0 ≡ added p k t
unfolding rtmp_wpa_add_key_proc added
add_key-added p k t h =
    ap (λ (x : KeyTable × Bool). x.0) (pick (is_accepted p k) (added p k t, true) (t, false) h)

-- The parts of the entry.
stored-parts :
    (p : Port) (ptk packet : List ℕ) (old : SharedKey)
    → key_length_value packet ≡ 32
    → (p.port_mode == 5) ≡ false
    → length ptk ≡ 64
    → HasArrays old
    → let new = stored p (peer_key p ptk packet) old in
      (new.stored_key ≡ take 16 (drop 32 ptk))
      × (new.rx_mic ≡ take 8 (drop 48 ptk))
      × (new.tx_mic ≡ take 8 (drop 56 ptk))
unfolding stored peer_key
stored-parts p ptk packet old l m size a =
    let long : (key_length_value packet == 32) ≡ true = ground (arith, l) in
    let rx : rx_mic_offset p (peer_key p ptk packet) ≡ 16 = ground (arith, m) in
    let tx : tx_mic_offset p (peer_key p ptk packet) ≡ 24 = ground (arith, m) in
    let material = take 32 (drop 32 ptk) in
    let whole : length material ≡ 32 =
      length-take 32 (drop 32 ptk) (omega (arith, size, length-drop 32 ptk)) in
    (
      all_new old.stored_key material 16 a.for_key (omega (arith, whole))
          ∙ piece 0 16 ptk (omega arith),
      pick (key_length_value packet == 32) _ old.rx_mic long
          ∙ ap (λ (i : ℕ). memcpy old.rx_mic (drop i material) 8) rx
          ∙ all_new old.rx_mic (drop 16 material) 8 a.for_rx_mic
              (omega (arith, whole, length-drop 16 material))
          ∙ piece 16 8 ptk (omega arith),
      pick (key_length_value packet == 32) _ old.tx_mic long
          ∙ ap (λ (i : ℕ). memcpy old.tx_mic (drop i material) 8) tx
          ∙ all_new old.tx_mic (drop 24 material) 8 a.for_tx_mic
              (omega (arith, whole, length-drop 24 material))
          ∙ piece 24 8 ptk (omega arith),
    )

-- For a key length of 32, a BSSID that is not broadcast, a mode that is not WPA-None and arrays of
-- their sizes, the entry with index zero has behind message 3 the three parts of the temporal key,
-- each in its place; the other entries, the default key and the port are as they were.
pub peer_key_stored :
    (p : Port) (packet : List ℕ) (s : Supplicant) (j : ℕ)
    → key_length_value packet ≡ 32
    → mem_eq p.port_bssid broadcast 6 ≡ false
    → (p.port_mode == 5) ≡ false
    → length s.ptk ≡ 64
    → 0 < length s.keys.shared_key
    → HasArrays (entry s 0)
    → let t = install p (peer_key p s.ptk packet) s in
      ((entry t 0).stored_key ≡ take 16 (drop 32 s.ptk))
      × ((entry t 0).rx_mic ≡ take 8 (drop 48 s.ptk))
      × ((entry t 0).tx_mic ≡ take 8 (drop 56 s.ptk))
      × (entry t j ≡ (if 0 == j then entry t 0 else entry s j))
      × (t.keys.default_key ≡ s.keys.default_key)
      × (t.keys.port_secured ≡ s.keys.port_secured)
unfolding install added peer_key
peer_key_stored p packet s j l b m size r a =
    let k = peer_key p s.ptk packet in
    let new = stored p k (entry s 0) in
    let same : (rtmp_wpa_add_key_proc p k s.keys).0 ≡ added p k s.keys =
      add_key-added p k s.keys (peer_key-is_accepted p s.ptk packet l b) in
    let read_back : (i : ℕ) → entry (install p k s) i ≡ (if 0 == i then new else entry s i) = λ i.
      ap (λ (u : KeyTable). get_or u.shared_key i no_shared_key) same
      ∙ get_or-set s.keys.shared_key 0 i new no_shared_key r in
    let parts = stored-parts p s.ptk packet (entry s 0) l m size a in
    (
      ap (λ (x : SharedKey). x.stored_key) (read_back 0) ∙ parts.0,
      ap (λ (x : SharedKey). x.rx_mic) (read_back 0) ∙ parts.1,
      ap (λ (x : SharedKey). x.tx_mic) (read_back 0) ∙ parts.2,
      read_back j ∙ ap (λ (x : SharedKey). if 0 == j then x else entry s j) (sym (read_back 0)),
      ap (λ (u : KeyTable). u.default_key) same,
      ap (λ (u : KeyTable). u.port_secured) same,
    )
