-- ===== src/Prelude/Lists/Pieces.antt =====
-- Lists put together of pieces: what `take`, `drop`, `set` and `get_or` find in them.
use Prim.Native.Nat.{ℕ, zero, suc, ◌+◌, ◌≤◌}
use mathlib.Core.Path.{◌≡◌, refl, sym, ap, ap₂, ◌∙◌}
use mathlib.Core.List.{List, [], ◌∷◌, ◌++◌, append_assoc, append-nil}
use native.Mathlib.Omega.{arith}
use rt.Prelude.Lists.{
  length, get_or, set, take, drop, replicate, length-take, length-drop, memcpy_at,
}
pub use mathlib.Core.List.{append_assoc, append-nil}

module _ {ℓ} {A : Type ℓ} where
  pub take_all : (n : ℕ) (xs : List A) → length xs ≡ n → take n xs ≡ xs
  take_all zero [] h = refl
  take_all zero (x ∷ xs) h = absurd (omega arith)
  take_all (suc n) [] h = refl
  take_all (suc n) (x ∷ xs) h = ap (◌∷◌ x) (take_all n xs (omega arith))

  pub take-pieces :
      (n k : ℕ) (xs ys : List A) → n ≡ length xs + k → take n (xs ++ ys) ≡ xs ++ take k ys
  take-pieces n k [] ys h = ap (λ (m : ℕ). take m ys) (omega arith)
  take-pieces zero k (x ∷ xs) ys h = absurd (omega arith)
  take-pieces (suc n) k (x ∷ xs) ys h = ap (◌∷◌ x) (take-pieces n k xs ys (omega arith))

  pub drop-pieces : (n k : ℕ) (xs ys : List A) → n ≡ length xs + k → drop n (xs ++ ys) ≡ drop k ys
  drop-pieces n k [] ys h = ap (λ (m : ℕ). drop m ys) (omega arith)
  drop-pieces zero k (x ∷ xs) ys h = absurd (omega arith)
  drop-pieces (suc n) k (x ∷ xs) ys h = drop-pieces n k xs ys (omega arith)

  pub set-pieces :
      (n : ℕ) (xs ys : List A) (x y : A) → n ≡ length xs → set (xs ++ (x ∷ ys)) n y ≡ xs ++ (y ∷ ys)
  set-pieces zero [] ys x y h = refl
  set-pieces (suc n) [] ys x y h = absurd (omega arith)
  set-pieces zero (z ∷ xs) ys x y h = absurd (omega arith)
  set-pieces (suc n) (z ∷ xs) ys x y h = ap (◌∷◌ z) (set-pieces n xs ys x y (omega arith))

  pub get_or-pieces :
      (n : ℕ) (xs ys : List A) (x d : A) → n ≡ length xs → get_or (xs ++ (x ∷ ys)) n d ≡ x
  get_or-pieces zero [] ys x d h = refl
  get_or-pieces (suc n) [] ys x d h = absurd (omega arith)
  get_or-pieces zero (z ∷ xs) ys x d h = absurd (omega arith)
  get_or-pieces (suc n) (z ∷ xs) ys x d h = get_or-pieces n xs ys x d (omega arith)

  pub take-replicate : (n m : ℕ) (a : A) → n ≤ m → take n (replicate m a) ≡ replicate n a
  take-replicate zero m a h = refl
  take-replicate (suc n) zero a h = absurd (omega arith)
  take-replicate (suc n) (suc m) a h = ap (◌∷◌ a) (take-replicate n m a (omega arith))

  pub drop-replicate : (n m k : ℕ) (a : A) → m ≡ n + k → drop n (replicate m a) ≡ replicate k a
  drop-replicate zero m k a h = ap (λ (j : ℕ). replicate j a) (omega arith)
  drop-replicate (suc n) zero k a h = absurd (omega arith)
  drop-replicate (suc n) (suc m) k a h = drop-replicate n m k a (omega arith)

  pub take-drop : (n : ℕ) (xs : List A) → take n xs ++ drop n xs ≡ xs
  take-drop zero xs = refl
  take-drop (suc n) [] = refl
  take-drop (suc n) (x ∷ xs) = ap (◌∷◌ x) (take-drop n xs)

  pub take-front : (n : ℕ) (xs ys : List A) → n ≤ length xs → take n (xs ++ ys) ≡ take n xs
  take-front zero xs ys h = refl
  take-front (suc n) [] ys h = absurd (omega arith)
  take-front (suc n) (x ∷ xs) ys h = ap (◌∷◌ x) (take-front n xs ys (omega arith))

  pub drop-front : (n : ℕ) (xs ys : List A) → n ≤ length xs → drop n (xs ++ ys) ≡ drop n xs ++ ys
  drop-front zero xs ys h = refl
  drop-front (suc n) [] ys h = absurd (omega arith)
  drop-front (suc n) (x ∷ xs) ys h = drop-front n xs ys (omega arith)

  pub drop-take : (n m l : ℕ) (xs : List A) → l ≡ n + m → drop n (take l xs) ≡ take m (drop n xs)
  drop-take zero m l xs h = ap (λ (j : ℕ). take j xs) (omega arith)
  drop-take (suc n) m zero xs h = absurd (omega arith)
  drop-take (suc n) zero (suc l) [] h = refl
  drop-take (suc n) (suc m) (suc l) [] h = refl
  drop-take (suc n) m (suc l) (x ∷ xs) h = drop-take n m l xs (omega arith)

  pub take-take : (n l : ℕ) (xs : List A) → n ≤ l → take n (take l xs) ≡ take n xs
  take-take zero l xs h = refl
  take-take (suc n) zero xs h = absurd (omega arith)
  take-take (suc n) (suc l) [] h = refl
  take-take (suc n) (suc l) (x ∷ xs) h = ap (◌∷◌ x) (take-take n l xs (omega arith))

  pub drop_all : (n : ℕ) (xs : List A) → length xs ≤ n → drop n xs ≡ []
  drop_all zero [] h = refl
  drop_all zero (x ∷ xs) h = absurd (omega arith)
  drop_all (suc n) [] h = refl
  drop_all (suc n) (x ∷ xs) h = drop_all n xs (omega arith)

  pub set-set : (xs : List A) (i : ℕ) (v w : A) → set (set xs i v) i w ≡ set xs i w
  set-set [] i v w = refl
  set-set (x ∷ xs) zero v w = refl
  set-set (x ∷ xs) (suc i) v w = ap (◌∷◌ x) (set-set xs i v w)

  pub set-get_or : (xs : List A) (i : ℕ) (d : A) → set xs i (get_or xs i d) ≡ xs
  set-get_or [] i d = refl
  set-get_or (x ∷ xs) zero d = refl
  set-get_or (x ∷ xs) (suc i) d = ap (◌∷◌ x) (set-get_or xs i d)

-- A write behind what has been written so far.
pub memcpy_at_next :
    (done piece rest : List ℕ) (n k : ℕ)
    → length done ≡ n
    → length piece ≡ k
    → memcpy_at (done ++ rest) n piece k ≡ (done ++ piece) ++ drop k rest
memcpy_at_next done piece rest n k h l =
    rw
      (
        take-pieces n 0 done rest (omega arith),
        drop-pieces n 0 done rest (omega arith),
        take_all k piece l,
        append-nil done,
      )
      (sym (append_assoc done piece (drop k rest)))

-- A block read where it was written, and one written where it was read.
drop-memcpy_at :
    (dst : List ℕ) (at : ℕ) (piece : List ℕ) (k : ℕ)
    → at ≤ length dst
    → drop at (memcpy_at dst at piece k) ≡ take k piece ++ drop k (drop at dst)
drop-memcpy_at dst at piece k h =
    drop-pieces at 0 (take at dst) (take k piece ++ drop k (drop at dst))
      (omega (arith, length-take at dst h))

pub memcpy_at_read :
    (dst : List ℕ) (at : ℕ) (piece : List ℕ) (k : ℕ)
    → at ≤ length dst
    → length piece ≡ k
    → take k (drop at (memcpy_at dst at piece k)) ≡ piece
memcpy_at_read dst at piece k h l =
    ap (take k) (drop-memcpy_at dst at piece k h)
    ∙ ap (λ (z : List ℕ). take k (z ++ drop k (drop at dst))) (take_all k piece l)
    ∙ take-pieces k 0 piece (drop k (drop at dst)) (omega (arith, l))
    ∙ append-nil piece

pub memcpy_at_back :
    (dst : List ℕ) (at : ℕ) (piece : List ℕ) (k : ℕ)
    → at + k ≤ length dst
    → length piece ≡ k
    → memcpy_at (memcpy_at dst at piece k) at (take k (drop at dst)) k ≡ dst
memcpy_at_back dst at piece k h l =
    let old = take k (drop at dst) in
    let size : length old ≡ k = length-take k (drop at dst) (omega (arith, length-drop at dst)) in
    let front : take at (memcpy_at dst at piece k) ≡ take at dst =
      take-pieces at 0 (take at dst) (take k piece ++ drop k (drop at dst))
        (omega (arith, length-take at dst (omega arith)))
      ∙ append-nil (take at dst) in
    let behind : drop k (drop at (memcpy_at dst at piece k)) ≡ drop k (drop at dst) =
      ap (drop k) (drop-memcpy_at dst at piece k (omega arith))
      ∙ drop-pieces k 0 (take k piece) (drop k (drop at dst))
          (omega (arith, length-take k piece (omega (arith, l)))) in
    ap₂ (λ (x y : List ℕ). x ++ (take k old ++ y)) front behind
    ∙ ap (λ (z : List ℕ). take at dst ++ (z ++ drop k (drop at dst))) (take_all k old size)
    ∙ ap (◌++◌ (take at dst)) (take-drop k (drop at dst))
    ∙ take-drop at dst

pub memcpy_at-front :
    (dst behind : List ℕ) (at : ℕ) (piece : List ℕ) (k : ℕ)
    → at + k ≤ length dst
    → memcpy_at (dst ++ behind) at piece k ≡ memcpy_at dst at piece k ++ behind
memcpy_at-front dst behind at piece k h =
    ap₂ (λ (x y : List ℕ). x ++ (take k piece ++ y)) (take-front at dst behind (omega arith))
      (ap (drop k) (drop-front at dst behind (omega arith))
        ∙ drop-front k (drop at dst) behind (omega (arith, length-drop at dst)))
    ∙ ap (◌++◌ (take at dst)) (sym (append_assoc (take k piece) (drop k (drop at dst)) behind))
    ∙ sym (append_assoc (take at dst) (take k piece ++ drop k (drop at dst)) behind)
