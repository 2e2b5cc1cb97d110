-- ===== src/Bss/Candidates/Chosen.antt =====
-- Which entries BssTableSsidSort of Module/mlme.c chooses, and their order.
use rt.Prelude.{
  ℕ, zero, suc, ◌+◌, ◌≤◌, ◌<◌, ◌≡◌, refl, ◌∙◌, inl, inr, Bool, true, false, ◌&&◌, List, ltb, leb,
  if◌then◌else◌, arith, Bool-cases,
}
use rt.Prelude.Lists.{length, length-set, get_or-set, replicate, get_or-replicate}
use native.Mathlib.Decide.{dec_lt}
use rt.Bss.{
  BssEntry, BssTable, bss_at, no_entry, max_len_of_bss_table, bss_table_init,
  bss_table_sort_by_rssi,
}
use rt.Bss.Sort.Exchange.{count, count-set}
use rt.Bss.Sort.{count-bss_table_sort_by_rssi, bss_table_sort_by_rssi_lem}
use rt.Bss.Candidates.{PortCfg, is_candidate, copy_out, candidates_from, bss_table_ssid_sort}

-- How many of the `left` entries from `i` on pass a test.
pub tally : (BssEntry → Bool) → ℕ → ℕ → BssTable → ℕ
tally q zero i tab = 0
tally q (suc left) i tab = (if q (bss_at tab i) then 1 else 0) + tally q left (i + 1) tab

-- A table that is being filled: its 64 entries, and none behind the count.
record IsFilling (out : BssTable) : Type 0 where
  all_there : length out.bss_entry ≡ max_len_of_bss_table
  empty : (k : ℕ) → out.bss_nr ≤ k → bss_at out k ≡ no_entry

copy_out-IsFilling :
    (e : BssEntry) (out : BssTable)
    → IsFilling out
    → out.bss_nr < max_len_of_bss_table
    → IsFilling (copy_out e out)
copy_out-IsFilling e out v h = record {
  all_there = length-set out.bss_entry out.bss_nr e ∙ v.all_there;
  empty = λ k l.
      ground (arith, get_or-set out.bss_entry out.bss_nr k e no_entry, v.all_there, v.empty k);
}

-- What the loop leaves: as many more entries as it finds, of each kind.
IsChosen : (BssEntry → Bool) → ℕ → ℕ → BssTable → BssTable → BssTable → (BssEntry → Bool) → Type 0
IsChosen cond left i tab out t p =
    (length t.bss_entry ≡ max_len_of_bss_table)
    × (t.bss_nr ≡ out.bss_nr + tally cond left i tab)
    × (count p t.bss_entry ≡ count p out.bss_entry + tally (λ e. cond e && p e) left i tab)

module _ (cond : BssEntry → Bool) (p : BssEntry → Bool) (blank : p no_entry ≡ false)
    (tab : BssTable) where
  -- The break at a full table: no round is left then.
  full_at_end :
      (left i : ℕ) (out : BssTable)
      → out.bss_nr + left ≤ max_len_of_bss_table
      → (if leb max_len_of_bss_table out.bss_nr then out else candidates_from cond left i tab out)
        ≡ candidates_from cond left i tab out
  unfolding candidates_from
  full_at_end zero i out h = elim (Bool-cases (leb max_len_of_bss_table out.bss_nr)) [
    | inl e ↦ rw e refl
    | inr e ↦ rw e refl
  ]
  full_at_end (suc left) i out h =
      let more : leb max_len_of_bss_table out.bss_nr ≡ false = ground arith in rw more refl

  count-copy_out :
      (e : BssEntry) (out : BssTable)
      → IsFilling out
      → out.bss_nr < max_len_of_bss_table
      → count p (copy_out e out).bss_entry ≡ count p out.bss_entry + (if p e then 1 else 0)
  count-copy_out e out v h =
      let free : ◌≡◌ {A = ℕ} (if p (bss_at out out.bss_nr) then 1 else 0) 0 =
        rw (v.empty out.bss_nr (omega arith)) (rw blank refl) in
      omega (arith, count-set p out.bss_entry out.bss_nr e (omega (arith, v.all_there)), free)

  candidates_from-IsChosen :
      (left i : ℕ) (out : BssTable)
      → IsFilling out
      → out.bss_nr + left ≤ max_len_of_bss_table
      → IsChosen cond left i tab out (candidates_from cond left i tab out) p
  unfolding IsChosen candidates_from tally
  candidates_from-IsChosen zero i out v h = (v.all_there, omega arith, omega arith)
  candidates_from-IsChosen (suc left) i out v h = elim (Bool-cases (cond (bss_at tab i))) [
    | inl met ↦
        let out' = copy_out (bss_at tab i) out in
        let c = count-copy_out (bss_at tab i) out v (omega arith) in
        let r =
          candidates_from-IsChosen left (i + 1) out'
            (copy_out-IsFilling (bss_at tab i) out v (omega arith)) (omega arith) in
        rw met (
          rw (full_at_end left (i + 1) out' (omega arith))
            (r.0, omega (arith, r.1), omega (arith, r.2, c)))
    | inr missed ↦
        let r = candidates_from-IsChosen left (i + 1) out v (omega arith) in
        rw missed (
          rw (full_at_end left (i + 1) out (omega arith))
            (r.0, omega (arith, r.1), omega (arith, r.2)))
  ]

count-replicate :
    (p : BssEntry → Bool) (n : ℕ) → p no_entry ≡ false → count p (replicate n no_entry) ≡ 0
unfolding count
count-replicate p zero e = refl
count-replicate p (suc n) e = rw e (omega (arith, count-replicate p n e))

init-IsFilling : IsFilling bss_table_init
unfolding bss_table_init
init-IsFilling = record {
  all_there = refl;
  empty = λ k h. get_or-replicate max_len_of_bss_table k no_entry;
}

-- Whether the entry at `b` is behind that at `a` and stronger.
pub stronger_behind : BssTable → ℕ → ℕ → Bool
stronger_behind t a b = ltb a b && ltb b t.bss_nr && ltb (bss_at t a).rssi (bss_at t b).rssi

sorted_order :
    (tab : BssTable) (a b : ℕ)
    → tab.bss_nr ≤ length tab.bss_entry
    → stronger_behind (bss_table_sort_by_rssi tab) a b ≡ false
unfolding stronger_behind
sorted_order tab a b fits =
    let t = bss_table_sort_by_rssi tab in
    let same : t.bss_nr ≡ tab.bss_nr = unfold bss_table_sort_by_rssi in refl in
    elim (dec_lt a b) [
      | no h ↦ ground arith
      | yes ab ↦ elim (dec_lt b tab.bss_nr) [
        | no h ↦ ground (arith, same)
        | yes bn ↦ ground (arith, (bss_table_sort_by_rssi_lem tab a b (λ e. true) fits ab bn).0)
      ]
    ]

tally_bound : (q : BssEntry → Bool) (left i : ℕ) (tab : BssTable) → tally q left i tab ≤ left
unfolding tally
tally_bound q zero i tab = omega arith
tally_bound q (suc left) i tab = elim (Bool-cases (q (bss_at tab i))) [
  | inl e ↦ rw e (omega (arith, tally_bound q left (i + 1) tab))
  | inr e ↦ rw e (omega (arith, tally_bound q left (i + 1) tab))
]

-- The loop on the initialised table.
candidates_from_init :
    (cond p : BssEntry → Bool)
    → p no_entry ≡ false
    → (tab : BssTable) → tab.bss_nr ≤ max_len_of_bss_table
    → let t = candidates_from cond tab.bss_nr 0 tab bss_table_init in
      (length t.bss_entry ≡ max_len_of_bss_table)
      × (t.bss_nr ≡ tally cond tab.bss_nr 0 tab)
      × (count p t.bss_entry ≡ tally (λ e. cond e && p e) tab.bss_nr 0 tab)
unfolding IsChosen bss_table_init
candidates_from_init cond p blank tab h =
    let r =
      candidates_from-IsChosen cond p blank tab tab.bss_nr 0 bss_table_init init-IsFilling
        (omega arith) in
    (r.0, omega (arith, r.1), omega (arith, r.2, count-replicate p max_len_of_bss_table blank))

-- For a table of a scan with at most 64 entries, the table that BssTableSsidSort makes has as many
-- entries as there are candidates in the first; for any test that a blank entry does not pass, as
-- many of its entries pass it as there are candidates that do; and no entry is stronger than one
-- before it.
pub bss_table_ssid_sort_lem :
    (cfg : PortCfg) (ssid : List ℕ) (ssid_len : ℕ) (tab : BssTable) (p : BssEntry → Bool) (a b : ℕ)
    → tab.bss_nr ≤ max_len_of_bss_table
    → p no_entry ≡ false
    → let t = (bss_table_ssid_sort cfg ssid ssid_len tab).0 in
      let cond = is_candidate cfg ssid ssid_len in
      (t.bss_nr ≡ tally cond tab.bss_nr 0 tab)
      × (count p t.bss_entry ≡ tally (λ e. cond e && p e) tab.bss_nr 0 tab)
      × (stronger_behind t a b ≡ false)
unfolding bss_table_ssid_sort bss_table_sort_by_rssi
bss_table_ssid_sort_lem cfg ssid ssid_len tab p a b h blank =
    let cond = is_candidate cfg ssid ssid_len in
    let out = candidates_from cond tab.bss_nr 0 tab bss_table_init in
    let (whole, nr, kinds) = candidates_from_init cond p blank tab h in
    let within : tally cond tab.bss_nr 0 tab ≤ tab.bss_nr = tally_bound cond tab.bss_nr 0 tab in
    let fits : out.bss_nr ≤ length out.bss_entry = omega (arith, whole, nr, within, h) in
    (nr, count-bss_table_sort_by_rssi out p fits ∙ kinds, sorted_order out a b fits)
