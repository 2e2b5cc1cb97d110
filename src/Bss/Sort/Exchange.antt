-- ===== src/Bss/Sort/Exchange.antt =====
-- The exchange of two entries in BssTableSortByRssi of Module/mlme.c, and what it keeps.
use rt.Prelude.{ℕ, zero, suc, ◌+◌, ◌<◌, ◌≡◌, ◌∙◌, Bool, List, [], ◌∷◌, ◌==◌, if◌then◌else◌, arith}
use rt.Prelude.Lists.{length, get_or, set, length-set, get_or-set}
use rt.Bss.{BssEntry, no_entry, exchange_entries}

-- How many entries pass a test.
unfoldable pub count : (BssEntry → Bool) → List BssEntry → ℕ
count p [] = 0
count p (e ∷ es) = (if p e then 1 else 0) + count p es

pub count-set :
    (p : BssEntry → Bool) (es : List BssEntry) (i : ℕ) (v : BssEntry)
    → i < length es
    → count p (set es i v) + (if p (get_or es i no_entry) then 1 else 0)
      ≡ count p es + (if p v then 1 else 0)
unfolding count
count-set p [] i v h = absurd (omega arith)
count-set p (e ∷ es) zero v h = omega arith
count-set p (e ∷ es) (suc i) v h = omega (arith, count-set p es i v (omega arith))

module _ (es : List BssEntry) (i j : ℕ) (low : i < j) (high : j < length es) where
  pub get_or-exchange_entries :
      (k : ℕ)
      → get_or (exchange_entries i j es) k no_entry ≡ (
          if i == k
          then get_or es j no_entry
          else if j == k
          then get_or es i no_entry
          else get_or es k no_entry)
  get_or-exchange_entries k = ground (
    arith,
    get_or-set (set es j (get_or es i no_entry)) i k (get_or es j no_entry) no_entry,
    get_or-set es j k (get_or es i no_entry) no_entry,
    length-set es j (get_or es i no_entry),
  )

  pub length-exchange_entries : length (exchange_entries i j es) ≡ length es
  length-exchange_entries =
      length-set (set es j (get_or es i no_entry)) i (get_or es j no_entry)
      ∙ length-set es j (get_or es i no_entry)

  pub count-exchange_entries :
      (p : BssEntry → Bool) → count p (exchange_entries i j es) ≡ count p es
  count-exchange_entries p = ground (
    arith,
    count-set p es j (get_or es i no_entry),
    count-set p (set es j (get_or es i no_entry)) i (get_or es j no_entry),
    length-set es j (get_or es i no_entry),
    get_or-set es j i (get_or es i no_entry) no_entry,
  )
