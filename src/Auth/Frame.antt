-- ===== src/Auth/Frame.antt =====
-- Outgoing management frames (Module/mlme.c, MgtMacHeaderInit and MakeOutgoingFrame).
use rt.Prelude.{ℕ, ◌*◌, ◌/◌, ◌%◌, List, [], ◌∷◌, ◌++◌, bit_or}
use rt.Prelude.Lists.{get_or, set, take}

abbrev pub subtype_auth : ℕ
subtype_auth = 11

-- MgtMacHeaderInit: the subtype and `ToDs`, the receiver, the adapter's address and the BSSID. The
-- rest of the 24 bytes is zero.
unfoldable pub mgt_mac_header_init : ℕ → ℕ → List ℕ → List ℕ → List ℕ → List ℕ
mgt_mac_header_init sub_type to_ds da current_address bssid =
    sub_type * 16
    ∷ to_ds
    ∷ 0
    ∷ 0
    ∷ (take 6 da ++ (take 6 current_address ++ (take 6 bssid ++ (0 ∷ 0 ∷ []))))

-- `FC.Wep = 1`.
abbrev pub with_wep : List ℕ → List ℕ
with_wep hdr = set hdr 1 (bit_or (get_or hdr 1 0) 64)

-- MakeOutgoingFrame: its pieces one behind the other.
unfoldable pub make_outgoing_frame : List (List ℕ) → List ℕ
make_outgoing_frame [] = []
make_outgoing_frame (p ∷ ps) = p ++ make_outgoing_frame ps

-- A `USHORT` in memory.
abbrev pub le16 : ℕ → List ℕ
le16 n = n % 256 ∷ n / 256 % 256 ∷ []
