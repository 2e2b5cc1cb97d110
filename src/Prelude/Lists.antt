-- ===== src/Prelude/Lists.antt =====
-- C arrays as lists, measured and indexed by native numbers, and `memcmp` and `memcpy` on them.
pub mod Pieces
use Prim.Native.Nat.{ℕ, zero, suc, ◌+◌, ◌-◌, ◌≤◌, ◌<◌}
use mathlib.Core.Path.{◌≡◌, refl, sym, ap, ap₂, ◌∙◌}
use mathlib.Core.Logic.{◌≢◌}
use mathlib.Core.Bool.{Bool, true, ◌&&◌}
use mathlib.Core.List.{List, [], ◌∷◌, ◌++◌}
use mathlib.Core.Option.{Option, none, some}
use native.Mathlib.Omega.{arith}
use rt.Prelude.Tests.{ltb, ◌==◌, if◌then◌else◌}

module _ {ℓ} {A : Type ℓ} where
  abbrev pub length : List A → ℕ
  length [] = 0
  length (x ∷ xs) = suc (length xs)

  abbrev pub get_elem? : List A → ℕ → Option A
  get_elem? [] i = none
  get_elem? (x ∷ xs) zero = some x
  get_elem? (x ∷ xs) (suc i) = get_elem? xs i

  abbrev pub get_or : List A → ℕ → A → A
  get_or [] i d = d
  get_or (x ∷ xs) zero d = x
  get_or (x ∷ xs) (suc i) d = get_or xs i d

  -- A write out of bounds changes nothing.
  abbrev pub set : List A → ℕ → A → List A
  set [] i v = []
  set (x ∷ xs) zero v = v ∷ xs
  set (x ∷ xs) (suc i) v = x ∷ set xs i v

  abbrev pub take : ℕ → List A → List A
  take zero xs = []
  take (suc n) [] = []
  take (suc n) (x ∷ xs) = x ∷ take n xs

  abbrev pub drop : ℕ → List A → List A
  drop zero xs = xs
  drop (suc n) [] = []
  drop (suc n) (x ∷ xs) = drop n xs

  abbrev pub replicate : ℕ → A → List A
  replicate zero a = []
  replicate (suc n) a = a ∷ replicate n a

  pub length-append : (xs ys : List A) → length (xs ++ ys) ≡ length xs + length ys
  length-append [] ys = omega arith
  length-append (x ∷ xs) ys = omega (arith, length-append xs ys)

  pub length-set : (xs : List A) (i : ℕ) (v : A) → length (set xs i v) ≡ length xs
  length-set [] i v = refl
  length-set (x ∷ xs) zero v = refl
  length-set (x ∷ xs) (suc i) v = ap suc (length-set xs i v)

  pub length-take : (n : ℕ) (xs : List A) → n ≤ length xs → length (take n xs) ≡ n
  length-take zero xs h = refl
  length-take (suc n) [] h = absurd (omega arith)
  length-take (suc n) (x ∷ xs) h = ap suc (length-take n xs (omega arith))

  pub get_or-take :
      (n : ℕ) (xs : List A) (i : ℕ) (d : A) → i < n → get_or (take n xs) i d ≡ get_or xs i d
  get_or-take zero xs i d h = absurd (omega arith)
  get_or-take (suc n) [] i d h = refl
  get_or-take (suc n) (x ∷ xs) zero d h = refl
  get_or-take (suc n) (x ∷ xs) (suc i) d h = get_or-take n xs i d (omega arith)

  pub length-replicate : (n : ℕ) (a : A) → length (replicate n a) ≡ n
  length-replicate zero a = refl
  length-replicate (suc n) a = ap suc (length-replicate n a)

  pub get_or-replicate : (n i : ℕ) (a : A) → get_or (replicate n a) i a ≡ a
  get_or-replicate zero i a = refl
  get_or-replicate (suc n) zero a = refl
  get_or-replicate (suc n) (suc i) a = get_or-replicate n i a

  -- Reading what was written, at one index and at the others.
  pub get_or-set_self :
      (xs : List A) (i : ℕ) (v d : A) → i < length xs → get_or (set xs i v) i d ≡ v
  get_or-set_self [] i v d h = elim h [ ]
  get_or-set_self (x ∷ xs) zero v d h = refl
  get_or-set_self (x ∷ xs) (suc i) v d h = get_or-set_self xs i v d (omega arith)

  pub get_or-set_ne :
      (xs : List A) (i j : ℕ) (v d : A) → i ≢ j → get_or (set xs i v) j d ≡ get_or xs j d
  get_or-set_ne [] i j v d h = refl
  get_or-set_ne (x ∷ xs) zero zero v d h = absurd (h refl)
  get_or-set_ne (x ∷ xs) zero (suc j) v d h = refl
  get_or-set_ne (x ∷ xs) (suc i) zero v d h = refl
  get_or-set_ne (x ∷ xs) (suc i) (suc j) v d h = get_or-set_ne xs i j v d (λ e. h (ap suc e))

  -- The two laws as one equation.
  pub get_or-set :
      (xs : List A) (i j : ℕ) (v d : A)
      → i < length xs
      → get_or (set xs i v) j d ≡ (if i == j then v else get_or xs j d)
  get_or-set [] i j v d h = elim h [ ]
  get_or-set (x ∷ xs) zero zero v d h = refl
  get_or-set (x ∷ xs) zero (suc j) v d h = ground arith
  get_or-set (x ∷ xs) (suc i) zero v d h = ground arith
  get_or-set (x ∷ xs) (suc i) (suc j) v d h = ground (arith, get_or-set xs i j v d (omega arith))

  pub get_or-append :
      (xs ys : List A) (i : ℕ) (d : A)
      → get_or (xs ++ ys) i d
        ≡ (if ltb i (length xs) then get_or xs i d else get_or ys (i - length xs) d)
  get_or-append [] ys i d = ground arith
  get_or-append (x ∷ xs) ys zero d = ground arith
  get_or-append (x ∷ xs) ys (suc i) d = ground (arith, get_or-append xs ys i d)

  pub get_or_beyond : (xs : List A) (i : ℕ) (d : A) → length xs ≤ i → get_or xs i d ≡ d
  get_or_beyond [] i d h = refl
  get_or_beyond (x ∷ xs) zero d h = absurd (omega arith)
  get_or_beyond (x ∷ xs) (suc i) d h = get_or_beyond xs i d (omega arith)

  pub take-append_take :
      (n : ℕ) (xs ys : List A) → n ≤ length xs → take n (take n xs ++ ys) ≡ take n xs
  take-append_take zero xs ys h = refl
  take-append_take (suc n) [] ys h = absurd (omega arith)
  take-append_take (suc n) (x ∷ xs) ys h = ap (◌∷◌ x) (take-append_take n xs ys (omega arith))

  pub take-append : (xs ys : List A) → take (length xs) (xs ++ ys) ≡ xs
  take-append [] ys = refl
  take-append (x ∷ xs) ys = ap (◌∷◌ x) (take-append xs ys)

  pub drop-append : (xs ys : List A) → drop (length xs) (xs ++ ys) ≡ ys
  drop-append [] ys = refl
  drop-append (x ∷ xs) ys = drop-append xs ys

  pub get_or-drop : (n i : ℕ) (xs : List A) (d : A) → get_or (drop n xs) i d ≡ get_or xs (n + i) d
  get_or-drop zero i xs d = ap (λ (j : ℕ). get_or xs j d) (omega arith)
  get_or-drop (suc n) i [] d = refl
  get_or-drop (suc n) i (x ∷ xs) d =
      get_or-drop n i xs d ∙ ap (λ (j : ℕ). get_or (x ∷ xs) j d) (suc_plus n i)
    where
      suc_plus : (n i : ℕ) → suc (n + i) ≡ suc n + i
      suc_plus n i = omega arith

  drop-empty : (j : ℕ) (xs : List A) → length xs ≡ 0 → drop j xs ≡ xs
  drop-empty zero xs h = refl
  drop-empty (suc j) [] h = refl
  drop-empty (suc j) (x ∷ xs) h = absurd (omega arith)

  pub drop-drop : (n k : ℕ) (xs : List A) → drop k (drop n xs) ≡ drop (k + n) xs
  drop-drop zero k xs = ap (λ (j : ℕ). drop j xs) (omega arith)
  drop-drop (suc n) k [] = drop-empty k [] refl ∙ sym (drop-empty (k + suc n) [] refl)
  drop-drop (suc n) k (x ∷ xs) = drop-drop n k xs ∙ ap (λ (j : ℕ). drop j (x ∷ xs)) (plus_suc n k)
    where
      plus_suc : (n k : ℕ) → suc (k + n) ≡ k + suc n
      plus_suc n k = omega arith

  -- Lists of one length with the same elements are equal.
  pub get_or_ext :
      (d : A) (xs ys : List A)
      → length xs ≡ length ys
      → ((i : ℕ) → i < length xs → get_or xs i d ≡ get_or ys i d)
      → xs ≡ ys
  get_or_ext d [] [] e h = refl
  get_or_ext d [] (y ∷ ys) e h = absurd (omega arith)
  get_or_ext d (x ∷ xs) [] e h = absurd (omega arith)
  get_or_ext d (x ∷ xs) (y ∷ ys) e h =
      ap₂ ◌∷◌ (h 0 (omega arith))
        (get_or_ext d xs ys (omega arith) (λ i p. h (suc i) (omega arith)))

-- `memcpy(dst, src, n)` for `n` within both: the first `n` bytes of `dst` are replaced.
abbrev pub memcpy : List ℕ → List ℕ → ℕ → List ℕ
memcpy dst src n = take n src ++ drop n dst

-- `memcpy(dst + i, src, n)`.
abbrev pub memcpy_at : List ℕ → ℕ → List ℕ → ℕ → List ℕ
memcpy_at dst i src n = take i dst ++ memcpy (drop i dst) src n

-- `memcmp(a, b, n) == 0`; a byte past the end of a list is read as 0.
unfoldable pub mem_eq : List ℕ → List ℕ → ℕ → Bool
mem_eq a b zero = true
mem_eq a b (suc n) = get_or a n 0 == get_or b n 0 && mem_eq a b n

pub mem_eq_self : (a : List ℕ) (n : ℕ) → mem_eq a a n ≡ true
unfolding mem_eq
mem_eq_self a zero = refl
mem_eq_self a (suc n) = ground (arith, mem_eq_self a n)

pub mem_eq_sym : (a b : List ℕ) (n : ℕ) → mem_eq a b n ≡ mem_eq b a n
unfolding mem_eq
mem_eq_sym a b zero = refl
mem_eq_sym a b (suc n) = ground (arith, mem_eq_sym a b n)

pub mem_eq_trans :
    (a b c : List ℕ) (n : ℕ) → mem_eq a b n ≡ true → mem_eq b c n ≡ true → mem_eq a c n ≡ true
unfolding mem_eq
mem_eq_trans a b c zero p q = refl
mem_eq_trans a b c (suc n) p q = ground (arith, mem_eq_trans a b c n)

pub mem_eq-get_or :
    (a b : List ℕ) (n i : ℕ) → mem_eq a b n ≡ true → i < n → get_or a i 0 ≡ get_or b i 0
unfolding mem_eq
mem_eq-get_or a b zero i p h = elim h [ ]
mem_eq-get_or a b (suc n) i p h = ground (arith, mem_eq-get_or a b n i)

-- What was copied compares as its source.
pub mem_eq-memcpy :
    (n k : ℕ) (dst src x : List ℕ)
    → k ≤ n
    → n ≤ length src
    → mem_eq (memcpy dst src n) x k ≡ mem_eq src x k
unfolding mem_eq
mem_eq-memcpy n zero dst src x h l = refl
mem_eq-memcpy n (suc k) dst src x h l = ground (
  arith,
  get_or-append (take n src) (drop n dst) k 0,
  length-take n src l,
  get_or-take n src k 0,
  mem_eq-memcpy n k dst src x (omega arith) l,
)

pub length-drop : (n : ℕ) (xs : List ℕ) → length (drop n xs) ≡ length xs - n
length-drop zero xs = omega arith
length-drop (suc n) [] = omega arith
length-drop (suc n) (x ∷ xs) = omega (arith, length-drop n xs)

pub length-memcpy :
    (dst src : List ℕ) (n : ℕ)
    → n ≤ length dst
    → n ≤ length src
    → length (memcpy dst src n) ≡ length dst
length-memcpy dst src n h l =
    omega (arith, length-append (take n src) (drop n dst), length-take n src l, length-drop n dst)

pub length-memcpy_at :
    (dst : List ℕ) (i : ℕ) (src : List ℕ) (n : ℕ)
    → i + n ≤ length dst
    → n ≤ length src
    → length (memcpy_at dst i src n) ≡ length dst
length-memcpy_at dst i src n h l = omega (
  arith,
  length-append (take i dst) (memcpy (drop i dst) src n),
  length-take i dst (omega arith),
  length-drop i dst,
  length-memcpy (drop i dst) src n (omega (arith, length-drop i dst)) l,
)

pub take-memcpy : (dst xs ys : List ℕ) → take (length xs) (memcpy dst (xs ++ ys) (length xs)) ≡ xs
take-memcpy dst xs ys = rw (take-append xs ys) (take-append xs (drop (length xs) dst))
