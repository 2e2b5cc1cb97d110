-- ===== src/Bss/Sort.antt =====
-- BssTableSortByRssi of Module/mlme.c sorts the entries by their signal, the strongest first.
pub mod Exchange
use rt.Prelude.{
  ℕ, zero, suc, ◌+◌, ◌-◌, ◌≤◌, ◌<◌, ◌≡◌, refl, ap, ◌∙◌, Bool, List, [], ◌∷◌, ltb, ◌==◌,
  if◌then◌else◌, arith, Bool-cases, inl, inr,
}
use rt.Prelude.Lists.{length, get_or, set, length-set, get_or-set}
use native.Mathlib.Decide.{dec_lt}
use rt.Bss.Sort.Exchange.{
  count, get_or-exchange_entries, length-exchange_entries, count-exchange_entries,
}
use rt.Bss.{
  BssEntry, BssTable, bss_at, no_entry, exchange_entries, sort_inner, sort_outer,
  bss_table_sort_by_rssi,
}

abbrev signal : List BssEntry → ℕ → ℕ
signal es k = (get_or es k no_entry).rssi

-- What a round, and the inner loop, leave: the length, the counts, the entries in front, no signal
-- above a bound that held, and the strongest of those passed at `i`.
record IsPassed (i nr : ℕ) (es es' : List BssEntry) : Type 0 where
  same_length : length es' ≡ length es
  same_count : (p : BssEntry → Bool) → count p es' ≡ count p es
  in_front : (k : ℕ) → k < i → get_or es' k no_entry ≡ get_or es k no_entry
  bounded :
      (b : ℕ)
      → ((k : ℕ) → i ≤ k → k < nr → signal es k ≤ b)
      → (k : ℕ) → i ≤ k
      → k < nr
      → signal es' k ≤ b

round : ℕ → ℕ → List BssEntry → List BssEntry
round i j es = if ltb (signal es i) (signal es j) then exchange_entries i j es else es

round-IsPassed :
    (i j nr : ℕ) (es : List BssEntry)
    → i < j
    → j < nr
    → nr ≤ length es
    → IsPassed i nr es (round i j es)
unfolding round
round-IsPassed i j nr es low high fits = elim (Bool-cases (ltb (signal es i) (signal es j))) [
  | inr stays ↦ rw stays (record {
    same_length = refl;
    same_count = λ p. refl;
    in_front = λ k h. refl;
    bounded = λ b h. h;
  })
  | inl less ↦ rw less (record {
    same_length = length-exchange_entries es i j low (omega arith);
    same_count = count-exchange_entries es i j low (omega arith);
    in_front = λ k h. ground (arith, get_or-exchange_entries es i j low (omega arith) k);
    bounded = λ b h k l u.
        ground (arith, get_or-exchange_entries es i j low (omega arith) k, h i, h j, h k);
  })
]

-- Behind a round the entry at `i` is as strong as the one at `j`, and as those it was as strong as.
round_strongest :
    (i j k nr : ℕ) (es : List BssEntry)
    → i < j
    → j < nr
    → nr ≤ length es
    → i < k
    → k < j + 1
    → ((m : ℕ) → i < m → m < j → signal es m ≤ signal es i)
    → signal (round i j es) k ≤ signal (round i j es) i
unfolding round
round_strongest i j k nr es low high fits l u h =
    elim (Bool-cases (ltb (signal es i) (signal es j))) [
      | inr stays ↦ rw stays (ground (arith, h k))
      | inl less ↦ rw less (
          ground (
            arith,
            get_or-exchange_entries es i j low (omega arith) k,
            get_or-exchange_entries es i j low (omega arith) i,
            h k,
          ))
    ]

pass_again :
    (i nr : ℕ) (a b c : List BssEntry) → IsPassed i nr a b → IsPassed i nr b c → IsPassed i nr a c
pass_again i nr a b c p q = record {
  same_length = q.same_length ∙ p.same_length;
  same_count = λ f. q.same_count f ∙ p.same_count f;
  in_front = λ k h. q.in_front k h ∙ p.in_front k h;
  bounded = λ n h. q.bounded n (p.bounded n h);
}

inner-IsPassed :
    (left i j nr : ℕ) (es : List BssEntry)
    → i < j
    → j + left ≡ nr
    → nr ≤ length es
    → IsPassed i nr es (sort_inner left i j es)
unfolding sort_inner round
inner-IsPassed zero i j nr es low end fits = record {
  same_length = refl;
  same_count = λ p. refl;
  in_front = λ k h. refl;
  bounded = λ b h. h;
}
inner-IsPassed (suc left) i j nr es low end fits =
    let p = round-IsPassed i j nr es low (omega arith) fits in
    pass_again i nr es (round i j es) (sort_inner (suc left) i j es) p (
      inner-IsPassed left i (j + 1) nr (round i j es) (omega arith) (omega arith)
        (omega (arith, p.same_length)))

inner_strongest :
    (left i j k nr : ℕ) (es : List BssEntry)
    → i < j
    → j + left ≡ nr
    → nr ≤ length es
    → ((m : ℕ) → i < m → m < j → signal es m ≤ signal es i)
    → i < k
    → k < nr
    → signal (sort_inner left i j es) k ≤ signal (sort_inner left i j es) i
unfolding sort_inner round
inner_strongest zero i j k nr es low end fits h l u = h k l (omega arith)
inner_strongest (suc left) i j k nr es low end fits h l u =
    let p = round-IsPassed i j nr es low (omega arith) fits in
    inner_strongest left i (j + 1) k nr (round i j es) (omega arith) (omega arith)
      (omega (arith, p.same_length))
      (λ m a b. round_strongest i j m nr es low (omega arith) fits a b h) l u

-- The first `i` entries are in order, and none behind them is stronger.
abbrev IsSorted : ℕ → ℕ → List BssEntry → Type 0
IsSorted i nr es = (a b : ℕ) → a < i → a < b → b < nr → signal es b ≤ signal es a

step-IsSorted :
    (i nr : ℕ) (es : List BssEntry)
    → i < nr
    → nr ≤ length es
    → IsSorted i nr es
    → IsSorted (i + 1) nr (sort_inner (nr - (i + 1)) i (i + 1) es)
step-IsSorted i nr es low fits s a b ai ab bn =
    let p = inner-IsPassed (nr - (i + 1)) i (i + 1) nr es (omega arith) (omega arith) fits in
    elim (dec_lt a i) [
      | no last ↦
          let here : a ≡ i = omega arith in
          rw here (
            inner_strongest (nr - (i + 1)) i (i + 1) b nr es (omega arith) (omega arith) fits
              (λ m x y. absurd (omega arith)) (omega arith) bn)
      | yes before ↦ elim (dec_lt b i) [
        | yes both ↦ omega (
          arith,
          s a b before ab bn,
          ap (λ (e : BssEntry). e.rssi) (p.in_front a before),
          ap (λ (e : BssEntry). e.rssi) (p.in_front b both),
        )
        | no behind ↦ omega (
          arith,
          ap (λ (e : BssEntry). e.rssi) (p.in_front a before),
          p.bounded (signal es a) (λ k x y. s a k before (omega arith) y) b (omega arith) bn,
        )
      ]
    ]

outer_lem :
    (left i nr : ℕ) (es : List BssEntry)
    → i + left + 1 ≡ nr
    → nr ≤ length es
    → IsSorted i nr es
    → IsSorted (i + left) nr (sort_outer left i nr es)
      × ((p : BssEntry → Bool) → count p (sort_outer left i nr es) ≡ count p es)
unfolding sort_outer
outer_lem zero i nr es end fits s = ((λ a b ai. s a b (omega arith)), λ p. refl)
outer_lem (suc left) i nr es end fits s =
    let q = inner-IsPassed (nr - (i + 1)) i (i + 1) nr es (omega arith) (omega arith) fits in
    let (sorted, counts) =
      outer_lem left (i + 1) nr (sort_inner (nr - (i + 1)) i (i + 1) es) (omega arith)
        (omega (arith, q.same_length)) (step-IsSorted i nr es (omega arith) fits s) in
    ((λ a b ai. sorted a b (omega arith)), λ p. counts p ∙ q.same_count p)

pub count-bss_table_sort_by_rssi :
    (tab : BssTable) (p : BssEntry → Bool)
    → tab.bss_nr ≤ length tab.bss_entry
    → count p (bss_table_sort_by_rssi tab).bss_entry ≡ count p tab.bss_entry
unfolding bss_table_sort_by_rssi sort_outer
count-bss_table_sort_by_rssi tab p fits = elim (dec_lt 0 tab.bss_nr) [
  | yes some_left ↦
      (outer_lem (tab.bss_nr - 1) 0 tab.bss_nr tab.bss_entry (omega arith) fits
          (λ x y h. absurd (omega arith))).1
        p
  | no empty ↦ let none_left : tab.bss_nr - 1 ≡ 0 = omega arith in rw none_left refl
]

-- Behind the sort no entry of the table is stronger than one in front of it, and for every test as
-- many entries of the array pass it as before, so that none is lost or doubled.
pub bss_table_sort_by_rssi_lem :
    (tab : BssTable) (a b : ℕ) (p : BssEntry → Bool)
    → tab.bss_nr ≤ length tab.bss_entry
    → a < b
    → b < tab.bss_nr
    → let t = bss_table_sort_by_rssi tab in
      ((bss_at t b).rssi ≤ (bss_at t a).rssi)
      × (count p t.bss_entry ≡ count p tab.bss_entry)
      × (t.bss_nr ≡ tab.bss_nr)
unfolding bss_table_sort_by_rssi
bss_table_sort_by_rssi_lem tab a b p fits ab bn =
    let (sorted, counts) =
      outer_lem (tab.bss_nr - 1) 0 tab.bss_nr tab.bss_entry (omega arith) fits
        (λ x y h. absurd (omega arith)) in
    (sorted a b (omega arith) ab bn, counts p, refl)
