-- ===== src/Frames/AssocRsp.antt =====
-- The check of an association response (Module/sanity.c, PeerAssocRspSanity), and what holds of the
-- responses that it accepts.
use rt.Prelude.{
  ℕ, ◌+◌, ◌%◌, ◌^◌, ◌≤◌, ◌<◌, ◌≡◌, false, not, ◌&&◌, ◌||◌, Option, none, some, List, leb, ltb, ◌==◌,
  if◌then◌else◌, arith, true, Bool-cases, inl, inr, ◌∙◌, refl,
}
use rt.Prelude.Lists.{take, drop, memcpy, mem_eq}
use rt.Frames.Element.{octet_at, u16_at, Element, walk, element_at}
use rt.Frames.Element.Walk.{walk-keeps}
use rt.Frames.Edca.{EdcaParm, edca_of_parm}
use rt.Frames.Beacon.Elements.{wme_parm_elem}

-- The caller's variables.
pub record AssocRsp : Type 0 where
  pub addr2 : List ℕ
  pub capability_info : ℕ
  pub status : ℕ
  pub aid : ℕ
  pub sup_rate : List ℕ
  pub sup_rate_len : ℕ
  pub ext_rate : List ℕ
  pub ext_rate_len : ℕ
  pub edca_parm : EdcaParm

-- `switch (pEid->Eid)`, which refuses nothing.
unfoldable pub on_assoc_element : Element → AssocRsp → Option AssocRsp
on_assoc_element e r =
    if e.eid == 50
    then (if leb e.len 12
        then some (record r { ext_rate = memcpy r.ext_rate e.octet e.len; ext_rate_len = e.len })
        else some r)
    else if e.eid == 221 && (mem_eq e.octet wme_parm_elem 6 && e.len == 24)
    then some (record r { edca_parm = edca_of_parm e.octet r.edca_parm })
    else some r

abbrev pub assoc_fields : List ℕ → AssocRsp → AssocRsp
assoc_fields frame out = record out {
  addr2 = take 6 (drop 10 frame);
  capability_info = u16_at frame 24;
  status = u16_at frame 26;
  ext_rate_len = 0;
  edca_parm = record out.edca_parm { valid = false };
}

-- The fields of a positive response, with the identifier's low 14 bits.
abbrev pub assoc_accepted : List ℕ → AssocRsp → AssocRsp
assoc_accepted frame out = record (assoc_fields frame out) {
  aid = u16_at frame 28 % 2 ^ 14;
  sup_rate = memcpy out.sup_rate (drop 32 frame) (octet_at frame 31);
  sup_rate_len = octet_at frame 31;
}

-- PeerAssocRspSanity on a message of `msg_len` bytes at the start of `frame`. Behind a refusal by the
-- peer there is nothing to read.
unfoldable pub peer_assoc_rsp_sanity : List ℕ → ℕ → AssocRsp → Option AssocRsp
unfolding walk on_assoc_element
peer_assoc_rsp_sanity frame msg_len out =
    if not (u16_at frame 26 == 0)
    then some (assoc_fields frame out)
    else if not (octet_at frame 30 == 1) || ltb 12 (octet_at frame 31)
    then none
    else walk on_assoc_element msg_len frame msg_len (32 + octet_at frame 31)
        (assoc_accepted frame out)

-- The fields that the elements leave alone, and the bound that they keep.
record IsFitting (frame : List ℕ) (r : AssocRsp) : Type 0 where
  same_status : r.status ≡ u16_at frame 26
  low_aid : r.aid < 2 ^ 14
  sup_fits : r.sup_rate_len ≤ 12
  ext_fits : r.ext_rate_len ≤ 12

on_assoc_element-IsFitting :
    (frame : List ℕ) (e : Element) (r r' : AssocRsp)
    → IsFitting frame r
    → on_assoc_element e r ≡ some r'
    → IsFitting frame r'
unfolding on_assoc_element
on_assoc_element-IsFitting frame e r r' b h = ground (arith, b)

-- An association response that is accepted and says success gives an identifier of 14 bits and at
-- most 12 rates of each kind.
pub accepted_assoc_rsp_bounds :
    (frame : List ℕ) (msg_len : ℕ) (out r : AssocRsp)
    → peer_assoc_rsp_sanity frame msg_len out ≡ some r
    → r.status ≡ 0
    → (r.aid < 2 ^ 14) × (r.sup_rate_len ≤ 12) × (r.ext_rate_len ≤ 12)
unfolding peer_assoc_rsp_sanity
accepted_assoc_rsp_bounds frame msg_len out r h ok = elim (Bool-cases (u16_at frame 26 == 0)) [
  | inr refused ↦ absurd (ground (arith, h, ok, refused))
  | inl accepted ↦ elim (Bool-cases (not (octet_at frame 30 == 1) || ltb 12 (octet_at frame 31))) [
    | inl bad ↦ absurd (ground (arith, h, accepted, bad))
    | inr good ↦
        let b =
          walk-keeps on_assoc_element (IsFitting frame) msg_len frame msg_len
            (32 + octet_at frame 31) (assoc_accepted frame out) r
            (λ at t t' inside k. on_assoc_element-IsFitting frame (element_at frame at) t t' k)
            (ground (arith, good)) (walked accepted good ∙ h) in
        (b.low_aid, b.sup_fits, b.ext_fits)
  ]
]
  where
    walked :
        (u16_at frame 26 == 0) ≡ true
        → (not (octet_at frame 30 == 1) || ltb 12 (octet_at frame 31)) ≡ false
        → walk on_assoc_element msg_len frame msg_len
            (32 + octet_at frame 31)
            (assoc_accepted frame out)
          ≡ peer_assoc_rsp_sanity frame msg_len out
    walked a g = rw a (rw g refl)
