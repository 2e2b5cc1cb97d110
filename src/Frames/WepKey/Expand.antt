-- ===== src/Frames/WepKey/Expand.antt =====
-- A WEP key as it is stored (Module/sanity.c, RTMPWPAWepKeySanity): the key over and over.
use rt.Prelude.{
  Bool-cases, inl, inr, ℕ, zero, suc, ◌+◌, ◌-◌, ◌*◌, ◌/◌, ◌%◌, ◌≤◌, ◌<◌, ◌≡◌, sym, ap, ◌∙◌, List,
  ltb, if◌then◌else◌, arith,
}
use rt.Prelude.Lists.{
  length, get_or, take, drop, memcpy, memcpy_at, length-take, length-memcpy_at, get_or-take,
  get_or-append,
}
use mathlib.Core.Path.{subst}
use native.Mathlib.Decide.{dec_lt}
use native.Mathlib.Nat.{
  mul-add-mod_self_right, mod-eq_of_lt, mod-lt, div-add-mod', div-eq-sub-div, suc-mul, add-mul,
}
use rt.Frames.WepKey.{repeat_key, expand_key}

get_or-memcpy :
    (dst src : List ℕ) (n j : ℕ)
    → n ≤ length src
    → j < n
    → get_or (memcpy dst src n) j 0 ≡ get_or src j 0
get_or-memcpy dst src n j l h =
    ground (
      arith,
      get_or-append (take n src) (drop n dst) j 0,
      length-take n src l,
      get_or-take n src j 0,
    )

get_or-memcpy_at :
    (dst : List ℕ) (i : ℕ) (src : List ℕ) (n j : ℕ)
    → i ≤ length dst
    → n ≤ length src
    → j < i + n
    → get_or (memcpy_at dst i src n) j 0
      ≡ (if ltb j i then get_or dst j 0 else get_or src (j - i) 0)
get_or-memcpy_at dst i src n j h l b = elim (dec_lt j i) [
  | yes before ↦ ground (
    arith,
    get_or-append (take i dst) (memcpy (drop i dst) src n) j 0,
    length-take i dst h,
    get_or-take i dst j 0,
  )
  | no within ↦ ground (
    arith,
    get_or-append (take i dst) (memcpy (drop i dst) src n) j 0,
    length-take i dst h,
    get_or-memcpy (drop i dst) src n (j - i) l (omega arith),
  )
]

times_one_more : (i len : ℕ) → (i + 1) * len ≡ i * len + len
times_one_more i len = ap (λ (m : ℕ). m * len) (add_one i) ∙ suc-mul i len
  where
    add_one : (i : ℕ) → i + 1 ≡ suc i
    add_one i = omega arith

add_zero : (i : ℕ) → i ≡ i + zero
add_zero i = omega arith

later : (i left : ℕ) → i + 1 + left ≡ i + suc left
later i left = omega arith

-- The first `n` bytes hold the key over and over.
record IsFilled (len : ℕ) (material key : List ℕ) (n : ℕ) : Type 0 where
  whole : length key ≡ 16
  filled : (j : ℕ) → j < n → get_or key j 0 ≡ get_or material (j % len) 0

module _ (len : ℕ) (material : List ℕ) (some_bytes : 0 < len) (given : len ≤ length material) where
  copy-IsFilled :
      (key : List ℕ) (i n : ℕ)
      → IsFilled len material key (i * len)
      → n ≤ len
      → i * len + n ≤ 16
      → IsFilled len material (memcpy_at key (i * len) material n) (i * len + n)
  copy-IsFilled key i n f h fits = record {
    whole =
        length-memcpy_at key (i * len) material n (omega (arith, f.whole)) (omega arith) ∙ f.whole;
    filled = λ j b.
        get_or-memcpy_at key (i * len) material n j (omega (arith, f.whole)) (omega arith) b
        ∙ elim (dec_lt j (i * len)) [
          | yes before ↦ ground (arith, f.filled j before)
          | no within ↦ rw (place j within b) (ground arith)
        ];
  }
    where
      split : (j : ℕ) → ¬ (j < i * len) → j ≡ i * len + (j - i * len)
      split j within = omega arith

      place : (j : ℕ) → ¬ (j < i * len) → j < i * len + n → j % len ≡ j - i * len
      place j within b =
          ap (λ (m : ℕ). m % len) (split j within)
          ∙ mul-add-mod_self_right i len (j - i * len)
          ∙ mod-eq_of_lt (omega arith)

  repeat_key-IsFilled :
      (left i : ℕ) (key : List ℕ)
      → IsFilled len material key (i * len)
      → (i + left) * len ≤ 16
      → IsFilled len material (repeat_key left i len material key) ((i + left) * len)
  unfolding repeat_key
  repeat_key-IsFilled zero i key f fits =
      subst (IsFilled len material key) (ap (λ (m : ℕ). m * len) (add_zero i)) f
  repeat_key-IsFilled (suc left) i key f fits =
      subst (IsFilled len material (repeat_key (suc left) i len material key))
        (ap (λ (m : ℕ). m * len) (later i left))
        (repeat_key-IsFilled left (i + 1) (memcpy_at key (i * len) material len)
          (subst (IsFilled len material (memcpy_at key (i * len) material len))
            (sym (times_one_more i len))
            (copy-IsFilled key i len f (omega arith) (in_key i left fits)))
          (subst (λ m. m * len ≤ 16) (sym (later i left)) fits))
    where
      in_key : (i left : ℕ) → (i + suc left) * len ≤ 16 → i * len + len ≤ 16
      in_key i left fits = omega (arith, add-mul i (suc left) len, suc-mul left len)

-- Every byte of a stored key of 1 to 16 bytes is the byte of the key at its place, counted from the
-- start again after each end of the key.
pub expand_key_lem :
    (len : ℕ) (material key : List ℕ) (j : ℕ)
    → 0 < len
    → len ≤ 16
    → len ≤ length material
    → length key ≡ 16
    → j < 16
    → get_or (expand_key len material key) j 0 ≡ get_or material (j % len) 0
unfolding expand_key
expand_key_lem len material key j some_bytes fits given whole b = elim (Bool-cases (ltb len 16)) [
  | inr full ↦ rw full (copied.filled j (ground (arith, full)))
  | inl short ↦ rw short (last.filled j (omega (arith, rounds)))
]
  where
    rounds : (16 / len) * len ≤ 16
    rounds = omega (arith, div-add-mod' 16 len)

    remaining : 16 - (16 / len) * len ≤ len
    remaining = omega (arith, div-add-mod' 16 len, mod-lt 16 some_bytes)

    copied : IsFilled len material (memcpy_at key 0 material len) len
    copied = record {
      whole = length-memcpy_at key 0 material len (omega arith) given ∙ whole;
      filled = λ j b.
          get_or-memcpy key material len j given b
          ∙ ap (λ (m : ℕ). get_or material m 0) (sym (mod-eq_of_lt b));
    }

    times : 1 + (16 / len - 1) ≡ 16 / len
    times = omega (arith, div-eq-sub-div {m = len} {n = 16} some_bytes fits)

    one : len ≡ 1 * len
    one = omega arith

    repeated :
        IsFilled len material
          (repeat_key (16 / len - 1) 1 len material (memcpy_at key 0 material len))
          ((16 / len) * len)
    repeated =
        subst
          (λ m.
            IsFilled len material
              (repeat_key (16 / len - 1) 1 len material (memcpy_at key 0 material len)) (m * len))
          times
          (repeat_key-IsFilled len material some_bytes given (16 / len - 1) 1
            (memcpy_at key 0 material len)
            (subst (IsFilled len material (memcpy_at key 0 material len)) one copied)
            (subst (λ m. m * len ≤ 16) (sym times) rounds))

    last :
        IsFilled len material
          (memcpy_at
            (repeat_key (16 / len - 1) 1 len material (memcpy_at key 0 material len))
            ((16 / len) * len)
            material
            (16 - (16 / len) * len))
          ((16 / len) * len + (16 - (16 / len) * len))
    last =
        copy-IsFilled len material some_bytes given
          (repeat_key (16 / len - 1) 1 len material (memcpy_at key 0 material len)) (16 / len)
          (16 - (16 / len) * len) repeated remaining (omega (arith, rounds))
