-- ===== src/Bss/Cipher/Meaning.antt =====
-- What the suites of an RSN element say (IEEE 802.11i, with the numbers of Module/oid.h), on its own,
-- and that the loops and the end of BssCipherParse (Module/mlme.c) come to it.
use rt.Prelude.{
  ℕ, ◌+◌, ◌≡◌, refl, ap, ap₂, ◌∙◌, Bool, true, false, not, ◌||◌, List, [], ◌∷◌, ltb, ◌==◌, bit_or,
  if◌then◌else◌, arith, Bool-cases, inl, inr,
}
use rt.Bss.Cipher.{
  CipherSuite, Security, no_security, cipher_of, add_pair, wpa2_akm, add_akm, rsn_end,
}
use rt.Bss.Cipher.Suites.{all_pairs, all_akms}

-- The number of a suite: 6 for AES, 4 for TKIP, 0 for WEP of either length, 1 for no cipher.
abbrev pub suite_number : ℕ → ℕ
suite_number type =
    if type == 4 then 6 else if type == 2 then 4 else if type == 1 || type == 5 then 0 else 1

abbrev larger : ℕ → ℕ → ℕ
larger n m = if ltb n m then m else n

abbrev smaller : ℕ → ℕ → ℕ
smaller n m = if ltb n m then n else m

-- The largest number of suites, from `n` on; and the smaller one of the last suite and the largest
-- in front of it.
abbrev pub highest : List ℕ → ℕ → ℕ
highest [] n = n
highest (t ∷ ts) n = highest ts (larger n (suite_number t))

abbrev pub second : List ℕ → ℕ → ℕ → ℕ
second [] n aux = aux
second (t ∷ ts) n aux = second ts (larger n (suite_number t)) (smaller n (suite_number t))

abbrev pub has : ℕ → List ℕ → Bool
has n [] = false
has n (t ∷ ts) = (t == n) || has n ts

-- 7 for a shared key and 6 for 802.1X, whichever is the last.
abbrev pub last_mode : List ℕ → ℕ → ℕ
last_mode [] mode = mode
last_mode (t ∷ ts) mode = last_mode ts (if t == 2 then 7 else if t == 1 then 6 else mode)

abbrev pub flags : ℕ → ℕ → Bool → Bool → ℕ
flags a b x y = (if x then a else 0) + (if y then b else 0)

abbrev pub suite_of : ℕ → ℕ → ℕ → CipherSuite
suite_of n aux group = record {
  pair_cipher = n;
  pair_cipher_aux = aux;
  group_cipher = group;
  rsn_capability = 0;
  mix_mode = false;
}

-- The network's security, by what its suites come to. An ad hoc network is one of WPA-None, and
-- its group cipher stands in for a second cipher.
unfoldable pub rsn_security : Bool → ℕ → ℕ → ℕ → ℕ → ℕ → ℕ → ℕ → Security
rsn_security adhoc cap group best aux pair_bits mode auth_bits = record {
  wep_status = best;
  auth_mode = if adhoc then 5 else mode;
  auth_mode_aux = if adhoc then 5 else 0;
  auth_bit_mode = auth_bits;
  pair_cipher_bit_mode = pair_bits;
  wpa = record {
    pair_cipher = 1;
    pair_cipher_aux = if adhoc then (if aux == 1 then group else aux) else 1;
    group_cipher = if adhoc then group else 1;
    rsn_capability = 0;
    mix_mode = false;
  };
  wpa2 = record {
    pair_cipher = best;
    pair_cipher_aux = aux;
    group_cipher = group;
    rsn_capability = cap;
    mix_mode = not (group == best);
  };
}

pub cipher_of-suite_number : (type : ℕ) → cipher_of type 1 ≡ suite_number type
unfolding cipher_of
cipher_of-suite_number type = ground arith

or_first : (x y : Bool) → bit_or (flags 1 2 x y) 1 ≡ flags 1 2 (x || true) y
or_first true true = refl
or_first true false = refl
or_first false true = refl
or_first false false = refl

or_second : (x y : Bool) → bit_or (flags 1 2 x y) 2 ≡ flags 1 2 x (y || true)
or_second true true = refl
or_second true false = refl
or_second false true = refl
or_second false false = refl

or_1x : (x y : Bool) → bit_or (flags 2 8 x y) 2 ≡ flags 2 8 (x || true) y
or_1x true true = refl
or_1x true false = refl
or_1x false true = refl
or_1x false false = refl

or_psk : (x y : Bool) → bit_or (flags 2 8 x y) 8 ≡ flags 2 8 x (y || true)
or_psk true true = refl
or_psk true false = refl
or_psk false true = refl
or_psk false false = refl

or_false : (x : Bool) → x ≡ (x || false)
or_false true = refl
or_false false = refl

or_assoc : (x y z : Bool) → ((x || y) || z) ≡ (x || (y || z))
or_assoc true y z = refl
or_assoc false y z = refl

-- One suite.
put :
    (b : Bool) (n m aux g : ℕ)
    → (if b
        then record (suite_of n aux g) { pair_cipher_aux = n; pair_cipher = m }
        else record (suite_of n aux g) { pair_cipher_aux = m })
      ≡ suite_of (if b then m else n) (if b then n else m) g
put true n m aux g = refl
put false n m aux g = refl

pair_bits :
    (t : ℕ) (x y : Bool)
    → (if t == 2
        then bit_or (flags 1 2 x y) 1
        else if t == 4
        then bit_or (flags 1 2 x y) 2
        else flags 1 2 x y)
      ≡ flags 1 2 (x || (t == 2)) (y || (t == 4))
pair_bits t x y = ground (arith, or_first x y, or_second x y, or_false x, or_false y)

add_pair-suite_number :
    (t : ℕ) (x y : Bool) (n aux g : ℕ)
    → add_pair t (flags 1 2 x y, suite_of n aux g) ≡ (
      flags 1 2 (x || (t == 2)) (y || (t == 4)),
      suite_of (larger n (suite_number t)) (smaller n (suite_number t)) g,
    )
unfolding add_pair
add_pair-suite_number t x y n aux g =
    ap₂ (λ (b : ℕ) (s : CipherSuite). (b, s)) (pair_bits t x y)
      (put (ltb n (cipher_of t 1)) n (cipher_of t 1) aux g
        ∙ ap (λ (m : ℕ). suite_of (larger n m) (smaller n m) g) (cipher_of-suite_number t))

pub all_pairs-highest :
    (ts : List ℕ) (x y : Bool) (n aux g : ℕ)
    → all_pairs ts (flags 1 2 x y, suite_of n aux g)
      ≡ (flags 1 2 (x || has 2 ts) (y || has 4 ts), suite_of (highest ts n) (second ts n aux) g)
unfolding all_pairs
all_pairs-highest [] x y n aux g =
    ap₂ (λ (a b : Bool). (flags 1 2 a b, suite_of n aux g)) (or_false x) (or_false y)
all_pairs-highest (t ∷ ts) x y n aux g =
    ap (all_pairs ts) (add_pair-suite_number t x y n aux g)
    ∙ all_pairs-highest ts (x || (t == 2)) (y || (t == 4)) (larger n (suite_number t))
        (smaller n (suite_number t)) g
    ∙ ap₂ (λ (a b : Bool). (flags 1 2 a b, suite_of (highest (t ∷ ts) n) (second (t ∷ ts) n aux) g))
        (or_assoc x (t == 2) (has 2 ts)) (or_assoc y (t == 4) (has 4 ts))

akm_bits :
    (t : ℕ) (x y : Bool) (mode : ℕ)
    → add_akm wpa2_akm t (mode, flags 2 8 x y) ≡ (
      (if t == 2 then 7 else if t == 1 then 6 else mode),
      flags 2 8 (x || (t == 1)) (y || (t == 2)),
    )
unfolding add_akm
akm_bits t x y mode = elim (Bool-cases (t == 1)) [
  | inl one ↦
      let other : (t == 2) ≡ false = ground (arith, one) in
      rw (one, other)
        (ap₂ (λ (a b : ℕ). (a, b)) refl (or_1x x y ∙ ap (flags 2 8 (x || true)) (or_false y)))
  | inr o ↦ elim (Bool-cases (t == 2)) [
    | inl two ↦
        rw (o, two)
          (ap₂ (λ (a b : ℕ). (a, b)) refl
            (or_psk x y ∙ ap (λ (z : Bool). flags 2 8 z (y || true)) (or_false x)))
    | inr p ↦ rw (o, p) (ap₂ (λ (a b : Bool). (mode, flags 2 8 a b)) (or_false x) (or_false y))
  ]
]

pub all_akms-last_mode :
    (ts : List ℕ) (x y : Bool) (mode : ℕ)
    → all_akms ts (mode, flags 2 8 x y)
      ≡ (last_mode ts mode, flags 2 8 (x || has 1 ts) (y || has 2 ts))
unfolding all_akms
all_akms-last_mode [] x y mode =
    ap₂ (λ (a b : Bool). (mode, flags 2 8 a b)) (or_false x) (or_false y)
all_akms-last_mode (t ∷ ts) x y mode =
    ap (all_akms ts) (akm_bits t x y mode)
    ∙ all_akms-last_mode ts (x || (t == 1)) (y || (t == 2)) _
    ∙ ap₂ (λ (a b : Bool). (last_mode (t ∷ ts) mode, flags 2 8 a b))
        (or_assoc x (t == 1) (has 1 ts)) (or_assoc y (t == 2) (has 2 ts))

-- The end of `case IE_RSN`.
pub rsn_end-rsn_security :
    (adhoc privacy : Bool) (cap group best aux bits mode auth_bits : ℕ)
    → rsn_end adhoc cap (record (no_security privacy) {
      pair_cipher_bit_mode = bits;
      wpa2 = suite_of best aux group;
      auth_mode = mode;
      auth_bit_mode = auth_bits;
    })
      ≡ rsn_security adhoc cap group best aux bits mode auth_bits
unfolding rsn_end rsn_security
rsn_end-rsn_security true privacy cap group best aux bits mode auth_bits =
    elim (Bool-cases (group == best)) [
      | inl same ↦ elim (Bool-cases (aux == 1)) [
        | inl a ↦ rw (same, a) refl
        | inr a ↦ rw (same, a) refl
      ]
      | inr other ↦ elim (Bool-cases (aux == 1)) [
        | inl a ↦ rw (other, a) refl
        | inr a ↦ rw (other, a) refl
      ]
    ]
rsn_end-rsn_security false privacy cap group best aux bits mode auth_bits =
    elim (Bool-cases (group == best)) [ inl same ↦ rw same refl | inr other ↦ rw other refl ]
