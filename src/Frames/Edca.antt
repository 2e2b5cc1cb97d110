-- ===== src/Frames/Edca.antt =====
-- The parameters of the four access categories (EDCA_PARM of Module/mlme.h), as the vendor elements
-- of WMM give them in a beacon or an association response (Module/sanity.c).
use rt.Prelude.{ℕ, zero, suc, ◌+◌, ◌*◌, ◌/◌, ◌%◌, Bool, true, false, List, [], ◌∷◌, ◌==◌}
use rt.Prelude.Lists.{set, replicate}
use rt.Frames.Element.{octet_at}

pub record EdcaParm : Type 0 where
  pub valid : Bool
  pub q_ack : Bool
  pub queue_request : Bool
  pub txop_request : Bool
  pub apsd_capable : Bool
  pub edca_update_count : ℕ
  pub aifsn : List ℕ
  pub cwmin : List ℕ
  pub cwmax : List ℕ
  pub txop : List ℕ
  pub acm : List Bool

-- The fields outside the arrays, which both elements hold in `Octet[6]`.
abbrev pub edca_info : ℕ → EdcaParm → EdcaParm
edca_info info p = record p {
  valid = true;
  q_ack = false;
  queue_request = false;
  txop_request = false;
  edca_update_count = info % 16;
  apsd_capable = info / 128 % 2 == 1;
}

-- One round of the loop: the four bytes at `ptr` go to the category that they name.
abbrev pub edca_record : List ℕ → ℕ → EdcaParm → EdcaParm
edca_record octet ptr p =
    let aci = octet_at octet ptr / 32 % 4 in
    record p {
      acm = set p.acm aci (octet_at octet ptr / 16 % 2 == 1);
      aifsn = set p.aifsn aci (octet_at octet ptr % 16);
      cwmin = set p.cwmin aci (octet_at octet (ptr + 1) % 16);
      cwmax = set p.cwmax aci (octet_at octet (ptr + 1) / 16);
      txop = set p.txop aci (octet_at octet (ptr + 2) + 256 * octet_at octet (ptr + 3));
    }

unfoldable pub edca_records : ℕ → List ℕ → ℕ → EdcaParm → EdcaParm
edca_records zero octet ptr p = p
edca_records (suc left) octet ptr p = edca_records left octet (ptr + 4) (edca_record octet ptr p)

-- The parameter element.
unfoldable pub edca_of_parm : List ℕ → EdcaParm → EdcaParm
unfolding edca_records
edca_of_parm octet p = edca_records 4 octet 8 (edca_info (octet_at octet 6) p)

-- The information element: the driver's own values, by CW_MIN_IN_BITS 4 and CW_MAX_IN_BITS 10, in the
-- order of QID_AC_BE, QID_AC_BK, QID_AC_VI and QID_AC_VO.
unfoldable pub edca_of_info : List ℕ → EdcaParm → EdcaParm
edca_of_info octet p = record (edca_info (octet_at octet 6) p) {
  acm = replicate 4 false;
  aifsn = 3 ∷ 7 ∷ 2 ∷ 2 ∷ [];
  cwmin = 4 ∷ 4 ∷ 3 ∷ 2 ∷ [];
  cwmax = 10 ∷ 10 ∷ 10 ∷ 9 ∷ [];
  txop = 0 ∷ 0 ∷ 96 ∷ 48 ∷ [];
}
