-- ===== src/Bss/Search.antt =====
-- What the searches of the table of Module/mlme.c return.
use rt.Prelude.{
  ℕ, zero, suc, ◌+◌, ◌≤◌, ◌<◌, ◌≡◌, ◌⊎◌, inl, inr, Bool, true, List, arith, refl, sym, ap, ◌∙◌,
  Bool-cases,
}
use native.Mathlib.Decide.{dec_lt}
use mathlib.Core.Bool.{true≢false}
use rt.Bss.{
  BssEntry, BssTable, bss_at, bss_not_found, search_where, is_bss, bss_table_search,
  bss_table_search_with_ssid, is_bss_with_ssid,
}

-- The first entry from `i` on that meets the condition, of the `left` entries.
IsFirst : (BssEntry → Bool) → ℕ → ℕ → BssTable → ℕ → ℕ → Type 0
IsFirst cond left i tab r k = (i ≤ r) × (r ≤ k) × (r < i + left) × (cond (bss_at tab r) ≡ true)

search_where-IsFirst :
    (cond : BssEntry → Bool) (left i k : ℕ) (tab : BssTable)
    → i ≤ k
    → k < i + left
    → cond (bss_at tab k) ≡ true
    → IsFirst cond left i tab (search_where cond left i tab) k
unfolding search_where IsFirst
search_where-IsFirst cond zero i k tab p q e = absurd (omega arith)
search_where-IsFirst cond (suc left) i k tab p q e = elim (Bool-cases (cond (bss_at tab i))) [
  | inl met ↦ rw met (omega arith, p, omega arith, met)
  | inr missed ↦ elim (dec_lt i k) [
    | yes h ↦
        let r = search_where-IsFirst cond left (i + 1) k tab (omega arith) (omega arith) e in
        rw missed (omega (arith, r.0), r.1, omega (arith, r.2), r.3)
    | no h ↦
        let same : i ≡ k = omega arith in
        absurd (true≢false (sym e ∙ ap (λ j. cond (bss_at tab j)) (sym same) ∙ missed))
  ]
]

search_where-missed :
    (cond : BssEntry → Bool) (left i : ℕ) (tab : BssTable)
    → (search_where cond left i tab ≡ bss_not_found)
      ⊎ (IsFirst cond left i tab (search_where cond left i tab) (search_where cond left i tab))
unfolding search_where IsFirst
search_where-missed cond zero i tab = inl refl
search_where-missed cond (suc left) i tab = elim (Bool-cases (cond (bss_at tab i))) [
  | inl met ↦ rw met (inr (omega arith, omega arith, omega arith, met))
  | inr missed ↦ rw missed (elim (search_where-missed cond left (i + 1) tab) [
    | inl e ↦ inl e
    | inr r ↦ inr (omega (arith, r.0), r.1, omega (arith, r.2), r.3)
  ])
]

-- When an entry of the table has the address and a channel of the same band, BssTableSearch
-- returns the index of an entry of the table that has both, at most the given one.
pub bss_table_search_found :
    (tab : BssTable) (bssid : List ℕ) (channel k : ℕ)
    → k < tab.bss_nr
    → is_bss bssid channel (bss_at tab k) ≡ true
    → let r = bss_table_search tab bssid channel in
      (r ≤ k) × (r < tab.bss_nr) × (is_bss bssid channel (bss_at tab r) ≡ true)
unfolding bss_table_search
bss_table_search_found tab bssid channel k h e =
    let r =
      search_where-IsFirst (is_bss bssid channel) tab.bss_nr 0 k tab (omega arith) (omega arith)
        e in
    unfold IsFirst in (r.1, omega (arith, r.2), r.3)

-- BssTableSearch returns BSS_NOT_FOUND, or the index of an entry of the table that has the address
-- and a channel of the same band.
pub bss_table_search_result :
    (tab : BssTable) (bssid : List ℕ) (channel : ℕ)
    → let r = bss_table_search tab bssid channel in
      (r ≡ bss_not_found) ⊎ ((r < tab.bss_nr) × (is_bss bssid channel (bss_at tab r) ≡ true))
unfolding bss_table_search
bss_table_search_result tab bssid channel =
    elim (search_where-missed (is_bss bssid channel) tab.bss_nr 0 tab) [
      | inl e ↦ inl e
      | inr r ↦ inr (unfold IsFirst in (omega (arith, r.2), r.3))
    ]

pub bss_table_search_with_ssid_bound :
    (tab : BssTable) (bssid ssid : List ℕ) (ssid_len channel : ℕ)
    → let r = bss_table_search_with_ssid tab bssid ssid ssid_len channel in
      (r ≡ bss_not_found) ⊎ (r < tab.bss_nr)
unfolding bss_table_search_with_ssid
bss_table_search_with_ssid_bound tab bssid ssid ssid_len channel =
    elim (search_where-missed (is_bss_with_ssid bssid ssid ssid_len channel) tab.bss_nr 0 tab) [
      | inl e ↦ inl e
      | inr r ↦ inr (unfold IsFirst in omega (arith, r.2))
    ]
