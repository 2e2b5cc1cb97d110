-- ===== src/Bss/Insert/Found.antt =====
-- What BssTableSetEntry of Module/mlme.c leaves in the table, and where it is found.
use rt.Prelude.{
  ℕ, ◌+◌, ◌≤◌, ◌<◌, ◌≡◌, ◌⊎◌, inl, inr, true, false, not, ◌&&◌, List, arith, refl, leb, ◌==◌,
  if◌then◌else◌, ap, ◌∙◌, Bool-cases,
}
use rt.Prelude.Lists.{
  length, get_or, set, length-set, get_or-set, get_or-set_self, mem_eq-memcpy, mem_eq_self,
}
use rt.Bss.{
  BssEntry, BssTable, bss_at, no_entry, is_bss, bss_not_found, max_len_of_bss_table,
  bss_table_search, bss_table_search_with_ssid,
}
use rt.Bss.Search.{bss_table_search_found, bss_table_search_with_ssid_bound}
use rt.Bss.Insert.{
  Sighting, Wanted, is_wanted, bss_entry_set, put_entry, put_at_overlap, put_found,
  bss_table_set_entry,
}

-- The array has its 64 entries, the count and the place of the next overlap are in it.
unfoldable pub IsTable : BssTable → Type 0
IsTable tab =
    (length tab.bss_entry ≡ max_len_of_bss_table)
    × (tab.bss_nr ≤ max_len_of_bss_table)
    × (tab.bss_overlap_nr < max_len_of_bss_table)

-- The entry at `i` of `t` is that of the station, a search by address finds it or an earlier one,
-- and the entry at `j` is what it was in `tab` unless it is this one.
pub IsSighted : Sighting → ℕ → BssTable → BssTable → ℕ → Type 0
IsSighted s j tab t i =
    (i < t.bss_nr)
    × (is_bss s.sta_bssid s.sta_channel (bss_at t i) ≡ true)
    × (bss_table_search t s.sta_bssid s.sta_channel ≤ i)
    × (bss_at t j ≡ (if j == i then bss_entry_set s (bss_at tab j) else bss_at tab j))

bss_entry_set-is_bss :
    (s : Sighting) (e : BssEntry)
    → 6 ≤ length s.sta_bssid
    → is_bss s.sta_bssid s.sta_channel (bss_entry_set s e) ≡ true
unfolding bss_entry_set
bss_entry_set-is_bss s e h = ground (
  arith,
  mem_eq-memcpy 6 6 e.bssid s.sta_bssid s.sta_bssid (omega arith) h,
  mem_eq_self s.sta_bssid 6,
)

get_or-set_entry :
    (es : List BssEntry) (i j : ℕ) (f : BssEntry → BssEntry)
    → i < length es
    → get_or (set es i (f (get_or es i no_entry))) j no_entry
      ≡ (if j == i then f (get_or es j no_entry) else get_or es j no_entry)
get_or-set_entry es i j f h = grind (arith, get_or-set es i j (f (get_or es i no_entry)) no_entry h)

put_entry-IsSighted :
    (s : Sighting) (tab : BssTable) (i j nr overlap : ℕ)
    → 6 ≤ length s.sta_bssid
    → i < length tab.bss_entry
    → i < nr
    → IsSighted s j tab (record (put_entry s i tab) { bss_nr = nr; bss_overlap_nr = overlap }) i
unfolding IsSighted
put_entry-IsSighted s tab i j nr overlap h l k =
    let found : is_bss s.sta_bssid s.sta_channel
          (get_or (set tab.bss_entry i (bss_entry_set s (bss_at tab i))) i no_entry)
        ≡ true =
      ap (is_bss s.sta_bssid s.sta_channel) (get_or-set_self tab.bss_entry i _ no_entry l)
      ∙ bss_entry_set-is_bss s (bss_at tab i) h in
    (
      k,
      found,
      (bss_table_search_found _ s.sta_bssid s.sta_channel i k found).0,
      get_or-set_entry tab.bss_entry i j (bss_entry_set s) l,
    )

put_entry-IsTable :
    (s : Sighting) (tab : BssTable) (i nr overlap : ℕ)
    → IsTable tab
    → nr ≤ max_len_of_bss_table
    → overlap < max_len_of_bss_table
    → IsTable (record (put_entry s i tab) { bss_nr = nr; bss_overlap_nr = overlap })
unfolding IsTable
put_entry-IsTable s tab i nr overlap v h o = (length-set tab.bss_entry i _ ∙ v.0, h, o)

-- The two ways BssTableSetEntry ends: nothing is done, which is when the table is full and either
-- the adapter is connected or the station is not the wanted one; or the entry is put.
pub IsSetResult : Wanted → Sighting → ℕ → BssTable → BssTable × ℕ → Type 0
unfolding IsSighted
IsSetResult w s j tab r =
    IsTable r.0
    × (IsSighted s j tab r.0 r.1
        ⊎ ((r.1 ≡ bss_not_found)
            × (r.0 ≡ tab)
            × (max_len_of_bss_table ≤ tab.bss_nr)
            × ((not w.connected && is_wanted w s) ≡ false)))

module _ (next_overlap : ℕ → ℕ) (w : Wanted) (s : Sighting) (tab : BssTable) (j : ℕ)
    (o : (k : ℕ) → k < max_len_of_bss_table → next_overlap k < max_len_of_bss_table)
    (v : IsTable tab) (h : 6 ≤ length s.sta_bssid) where
  put_at_overlap-IsSetResult :
      max_len_of_bss_table ≤ tab.bss_nr
      → IsSetResult w s j tab (put_at_overlap next_overlap w s tab)
  unfolding IsSetResult put_at_overlap IsTable
  put_at_overlap-IsSetResult full = elim (Bool-cases (not w.connected && is_wanted w s)) [
    | inl e ↦ rw e (
      put_entry-IsTable s tab tab.bss_overlap_nr tab.bss_nr _ v v.1 (o _ v.2),
      inl (
          put_entry-IsSighted s tab tab.bss_overlap_nr j tab.bss_nr _ h (omega (arith, v.0, v.2))
            (omega (arith, v.2, full))),
    )
    | inr e ↦ rw e (v, inr (refl, refl, full, refl))
  ]

  put_entry-IsSetResult :
      (i nr : ℕ)
      → i < max_len_of_bss_table
      → i < nr
      → nr ≤ max_len_of_bss_table
      → IsSetResult w s j tab (record (put_entry s i tab) { bss_nr = nr }, i)
  unfolding IsSetResult IsTable
  put_entry-IsSetResult i nr l k n = (
    put_entry-IsTable s tab i nr tab.bss_overlap_nr v n v.2,
    inl (put_entry-IsSighted s tab i j nr tab.bss_overlap_nr h (omega (arith, v.0)) k),
  )

  put_found-IsSetResult :
      (idx : ℕ)
      → (idx ≡ bss_not_found) ⊎ (idx < tab.bss_nr)
      → IsSetResult w s j tab (put_found next_overlap w s idx tab)
  unfolding put_found IsTable
  put_found-IsSetResult idx (inl e) =
      let missed : (idx == bss_not_found) ≡ true = ground arith in
      elim (Bool-cases (leb max_len_of_bss_table tab.bss_nr)) [
        | inl full ↦ rw missed (rw full (put_at_overlap-IsSetResult (ground arith)))
        | inr free ↦ rw missed (
            rw free (
              put_entry-IsSetResult tab.bss_nr (tab.bss_nr + 1) (ground arith) (omega arith)
                (ground arith)))
      ]
  put_found-IsSetResult idx (inr l) =
      let met : (idx == bss_not_found) ≡ false = ground (arith, v.1) in
      rw met (put_entry-IsSetResult idx tab.bss_nr (omega (arith, v.1)) l v.1)

  -- On a table that has its 64 entries, its count and the place of its next overlap within bounds,
  -- for an address of 6 bytes, BssTableSetEntry keeps the table so. Either it returns an index
  -- within the count, the entry there matches the address and the band of the channel and
  -- BssTableSearch returns this index or an earlier one, and of all entries only this one has
  -- changed, to what BssEntrySet makes of it; or it returns BSS_NOT_FOUND and the table is as it
  -- was, in which case it was full, and the adapter was connected or the station not the wanted one.
  -- The next place for an overlap is taken to be one of the 64.
  pub bss_table_set_entry_found : IsSetResult w s j tab (bss_table_set_entry next_overlap w s tab)
  unfolding bss_table_set_entry
  bss_table_set_entry_found =
      put_found-IsSetResult
        (bss_table_search_with_ssid tab s.sta_bssid s.sta_ssid s.sta_ssid_len s.sta_channel)
        (bss_table_search_with_ssid_bound tab s.sta_bssid s.sta_ssid s.sta_ssid_len s.sta_channel)
