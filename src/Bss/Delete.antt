-- ===== src/Bss/Delete.antt =====
-- What BssTableDeleteEntry of Module/mlme.c leaves in the table.
use rt.Prelude.{
  ℕ, zero, suc, ◌+◌, ◌-◌, ◌≤◌, ◌<◌, ◌≡◌, true, false, ◌&&◌, List, arith, refl, ltb, leb, ap, ◌∙◌,
  if◌then◌else◌,
}
use rt.Prelude.Lists.{length, get_or, set, length-set, get_or-set}
use native.Mathlib.Decide.{dec_lt}
use rt.Bss.{
  BssEntry, BssTable, bss_at, no_entry, move_down, is_entry, delete_from, bss_table_delete_entry,
}

length-move_down : (left j : ℕ) (es : List BssEntry) → length (move_down left j es) ≡ length es
unfolding move_down
length-move_down zero j es = refl
length-move_down (suc left) j es =
    length-move_down left (j + 1) (set es j (get_or es (j + 1) no_entry))
    ∙ length-set es j (get_or es (j + 1) no_entry)

get_or-move_down :
    (left j k : ℕ) (es : List BssEntry)
    → j + left < length es
    → get_or (move_down left j es) k no_entry
      ≡ (if leb j k && ltb k (j + left) then get_or es (k + 1) no_entry else get_or es k no_entry)
unfolding move_down
get_or-move_down zero j k es h = ground arith
get_or-move_down (suc left) j k es h = ground (
  arith,
  length-set es j (get_or es (j + 1) no_entry),
  get_or-move_down left (j + 1) k (set es j (get_or es (j + 1) no_entry)),
  get_or-set es j k (get_or es (j + 1) no_entry) no_entry,
  get_or-set es j (k + 1) (get_or es (j + 1) no_entry) no_entry,
)

-- The table with the entry at `t` taken out.
removed : ℕ → BssTable → BssTable
removed t tab = record tab {
  bss_nr = tab.bss_nr - 1;
  bss_entry = move_down (tab.bss_nr - 1 - t) t tab.bss_entry;
}

delete_from_first :
    (bssid : List ℕ) (channel left i t : ℕ) (tab : BssTable)
    → i ≤ t
    → t < i + left
    → is_entry bssid channel (bss_at tab t) ≡ true
    → ((j : ℕ) → i ≤ j → j < t → is_entry bssid channel (bss_at tab j) ≡ false)
    → delete_from bssid channel left i tab ≡ removed t tab
unfolding delete_from removed
delete_from_first bssid channel zero i t tab p q e h = absurd (omega arith)
delete_from_first bssid channel (suc left) i t tab p q e h = elim (dec_lt i t) [
  | yes lt ↦
      let rest =
        delete_from_first bssid channel left (i + 1) t tab (omega arith) (omega arith) e
          (λ j a b. h j (omega arith) b) in
      rw (h i (omega arith) lt) rest
  | no ge ↦
      let same : i ≡ t = omega arith in
      rw (ap (λ j. is_entry bssid channel (bss_at tab j)) same ∙ e) (ap (λ j. removed j tab) same)
]

-- When an entry of the table has the address and the very channel, and none before it has,
-- BssTableDeleteEntry takes exactly that entry out: the count drops by one, the entries before it
-- stay, and those behind it, up to the old count, move down by one.
pub bss_table_delete_entry_lem :
    (tab : BssTable) (bssid : List ℕ) (channel t k : ℕ)
    → tab.bss_nr ≤ length tab.bss_entry
    → t < tab.bss_nr
    → is_entry bssid channel (bss_at tab t) ≡ true
    → ((j : ℕ) → j < t → is_entry bssid channel (bss_at tab j) ≡ false)
    → let tab' = bss_table_delete_entry bssid channel tab in
      (tab'.bss_nr + 1 ≡ tab.bss_nr)
      × (bss_at tab' k
          ≡ (if leb t k && ltb (k + 1) tab.bss_nr then bss_at tab (k + 1) else bss_at tab k))
unfolding bss_table_delete_entry removed
bss_table_delete_entry_lem tab bssid channel t k fits h e before =
    rw
      (delete_from_first bssid channel tab.bss_nr 0 t tab (omega arith) (omega arith) e
        (λ j a b. before j b))
      (omega arith, ground (arith, get_or-move_down (tab.bss_nr - 1 - t) t k tab.bss_entry))

delete_from_absent :
    (bssid : List ℕ) (channel left i : ℕ) (tab : BssTable)
    → ((j : ℕ) → j < i + left → is_entry bssid channel (bss_at tab j) ≡ false)
    → delete_from bssid channel left i tab ≡ tab
unfolding delete_from
delete_from_absent bssid channel zero i tab h = refl
delete_from_absent bssid channel (suc left) i tab h =
    rw (h i (omega arith))
      (delete_from_absent bssid channel left (i + 1) tab (λ j b. h j (omega arith)))

-- When no entry of the table has the address and the very channel, BssTableDeleteEntry changes
-- nothing.
pub bss_table_delete_entry_absent :
    (tab : BssTable) (bssid : List ℕ) (channel : ℕ)
    → ((j : ℕ) → j < tab.bss_nr → is_entry bssid channel (bss_at tab j) ≡ false)
    → bss_table_delete_entry bssid channel tab ≡ tab
unfolding bss_table_delete_entry
bss_table_delete_entry_absent tab bssid channel h =
    delete_from_absent bssid channel tab.bss_nr 0 tab (λ j b. h j (omega arith))
