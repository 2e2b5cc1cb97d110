-- ===== src/Frames/Element.antt =====
-- The elements behind the fixed fields of a frame (EID_STRUCT of Module/mlme.h), and the loop that
-- the checks of Module/sanity.c go through them with.
pub mod Walk
use rt.Prelude.{
  ℕ, zero, suc, ◌+◌, ◌*◌, ◌%◌, ◌-◌, ◌^◌, Bool, ◌&&◌, Option, none, some, List, ltb, if◌then◌else◌,
}
use rt.Prelude.Lists.{get_or, drop}

abbrev pub octet_at : List ℕ → ℕ → ℕ
octet_at bytes i = get_or bytes i 0

-- A `CHAR` as an unsigned number of `w` bits.
abbrev pub sign_extend : ℕ → ℕ → ℕ
sign_extend w c = if ltb c 128 then c else c + 2 ^ w - 256

-- A `CHAR` is greater than a small positive number.
abbrev pub char_gt : ℕ → ℕ → Bool
char_gt c n = ltb n c && ltb c 128

-- Two bytes that `memcpy` puts into a `USHORT`.
abbrev pub u16_at : List ℕ → ℕ → ℕ
u16_at bytes i = octet_at bytes i + 256 * octet_at bytes (i + 1)

-- `Octet` is a pointer: it reaches to the end of the frame, past the element's own bytes.
pub record Element : Type 0 where
  pub eid : ℕ
  pub len : ℕ
  pub octet : List ℕ

abbrev pub element_at : List ℕ → ℕ → Element
element_at frame pos = record {
  eid = octet_at frame pos;
  len = octet_at frame (pos + 1);
  octet = drop (pos + 2) frame;
}

-- A result that a `return FALSE` has cut off, or what follows it.
abbrev pub and_then {ℓ} : {A B : Type ℓ} → Option A → (A → Option B) → Option B
and_then none f = none
and_then (some a) f = f a

module _ {ℓ} {S : Type ℓ} (handle : Element → S → Option S) where
  -- `while (pEid + pEid->Len + 1 < pFrame + MsgLen)`, with a bound on the rounds; `handle` is the
  -- body of the switch, and `none` is its `return FALSE`.
  unfoldable pub walk : ℕ → List ℕ → ℕ → ℕ → S → Option S
  walk zero frame msg_len pos s = some s
  walk (suc fuel) frame msg_len pos s =
      let rest = λ (t : S). walk fuel frame msg_len (pos + octet_at frame (pos + 1) + 2) t in
      if ltb (pos + octet_at frame (pos + 1) + 1) msg_len
      then and_then (handle (element_at frame pos) s) rest
      else some s
