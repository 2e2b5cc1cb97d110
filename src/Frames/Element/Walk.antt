-- ===== src/Frames/Element/Walk.antt =====
-- The loop over the elements of a frame (Module/sanity.c): its end, what it keeps, and a frame that
-- was written element by element.
use rt.Prelude.{
  ℕ, zero, suc, ◌+◌, ◌≤◌, ◌<◌, ◌≡◌, refl, sym, ap, ◌∙◌, Bool, true, false, Option, none, some, List,
  [], ◌∷◌, ◌++◌, ltb, if◌then◌else◌, arith, Bool-cases, inl, inr,
}
use mathlib.Core.Path.{subst}
use mathlib.Core.Option.{some-injective, none-ne-some}
use rt.Prelude.Lists.{length, get_or, drop, length-append, get_or-drop, drop-drop, drop-append}
use rt.Frames.Element.{octet_at, Element, element_at, and_then, walk}

pub and_then-same {ℓ} :
    {A B : Type ℓ} (o : Option A) {f g : A → Option B}
    → ((a : A) → f a ≡ g a)
    → and_then o f ≡ and_then o g
and_then-same none h = refl
and_then-same (some a) h = h a

pub and_then-some {ℓ} :
    {A B : Type ℓ} (o : Option A) (f : A → Option B) (b : B)
    → and_then o f ≡ some b
    → (a : A) × (o ≡ some a) × (f a ≡ some b)
and_then-some none f b e = absurd (none-ne-some b e)
and_then-some (some a) f b e = (a, refl, e)

module _ {ℓ} {S : Type ℓ} (handle : Element → S → Option S) where
  past_end :
      (fuel : ℕ) (frame : List ℕ) (msg_len pos : ℕ) (s : S)
      → msg_len ≤ pos
      → walk handle fuel frame msg_len pos s ≡ some s
  unfolding walk
  past_end zero frame msg_len pos s h = refl
  past_end (suc fuel) frame msg_len pos s h =
      let ends : ltb (pos + octet_at frame (pos + 1) + 1) msg_len ≡ false = ground arith in
      rw ends refl

  -- With as many rounds as bytes are left the loop has come to its end: more change nothing.
  pub walk_enough :
      (fuel fuel' : ℕ) (frame : List ℕ) (msg_len pos : ℕ) (s : S)
      → msg_len ≤ pos + fuel
      → msg_len ≤ pos + fuel'
      → walk handle fuel frame msg_len pos s ≡ walk handle fuel' frame msg_len pos s
  unfolding walk
  walk_enough zero fuel' frame msg_len pos s h h' =
      sym (past_end fuel' frame msg_len pos s (omega arith))
  walk_enough (suc fuel) zero frame msg_len pos s h h' =
      past_end (suc fuel) frame msg_len pos s (omega arith)
  walk_enough (suc fuel) (suc fuel') frame msg_len pos s h h' =
      ap (λ (o : Option S). if ltb (pos + octet_at frame (pos + 1) + 1) msg_len then o else some s)
        (and_then-same (handle (element_at frame pos) s) (λ t.
          walk_enough fuel fuel' frame msg_len (pos + octet_at frame (pos + 1) + 2) t (omega arith)
            (omega arith)))

  -- A property that every accepted element of the frame keeps, the loop keeps.
  pub walk-keeps :
      (P : S → Type 0) (fuel : ℕ) (frame : List ℕ) (msg_len pos : ℕ) (s s' : S)
      → ((at : ℕ) (t t' : S)
          → at + octet_at frame (at + 1) + 1 < msg_len
          → P t
          → handle (element_at frame at) t ≡ some t'
          → P t')
      → P s
      → walk handle fuel frame msg_len pos s ≡ some s'
      → P s'
  unfolding walk
  walk-keeps P zero frame msg_len pos s s' k p e = subst P (some-injective s s' e) p
  walk-keeps P (suc fuel) frame msg_len pos s s' k p e =
      elim (Bool-cases (ltb (pos + octet_at frame (pos + 1) + 1) msg_len)) [
        | inr ends ↦ subst P (some-injective s s' (sym (stops ends) ∙ e)) p
        | inl inside ↦
            let (t, taken, rest) =
              and_then-some (handle (element_at frame pos) s)
                (λ t. walk handle fuel frame msg_len (pos + octet_at frame (pos + 1) + 2) t) s'
                (sym (goes_on inside) ∙ e) in
            walk-keeps P fuel frame msg_len (pos + octet_at frame (pos + 1) + 2) t s' k
              (k pos s t (ground arith) p taken) rest
      ]
    where
      goes_on :
          ltb (pos + octet_at frame (pos + 1) + 1) msg_len ≡ true
          → walk handle (suc fuel) frame msg_len pos s
            ≡ and_then
                (handle (element_at frame pos) s)
                (λ t. walk handle fuel frame msg_len (pos + octet_at frame (pos + 1) + 2) t)
      goes_on inside = rw inside refl

      stops :
          ltb (pos + octet_at frame (pos + 1) + 1) msg_len ≡ false
          → walk handle (suc fuel) frame msg_len pos s ≡ some s
      stops ends = rw ends refl

-- Elements as a sender writes them: the identifier, the length and the bytes of each.
abbrev pub encode : List (ℕ × List ℕ) → List ℕ
encode [] = []
encode ((eid, body) ∷ es) = eid ∷ length body ∷ (body ++ encode es)

abbrev pub written : ℕ → List ℕ → List (ℕ × List ℕ) → Element
written eid body es = record { eid = eid; len = length body; octet = body ++ encode es }

-- Each element handed over in its order, until one is refused.
unfoldable pub fold_elements {ℓ} :
    {S : Type ℓ} → (Element → S → Option S) → List (ℕ × List ℕ) → S → Option S
fold_elements handle [] s = some s
fold_elements handle ((eid, body) ∷ es) s =
    and_then (handle (written eid body es) s) (fold_elements handle es)

-- The loop, when the elements lie at its position and nothing behind them.
pub walk-encode {ℓ} :
    {S : Type ℓ} (handle : Element → S → Option S) (es : List (ℕ × List ℕ)) (fuel : ℕ)
    (frame : List ℕ) (pos : ℕ) (s : S)
    → drop pos frame ≡ encode es
    → length (encode es) ≤ fuel
    → walk handle fuel frame (pos + length (encode es)) pos s ≡ fold_elements handle es s
unfolding walk fold_elements
walk-encode handle [] fuel frame pos s e h =
    past_end handle fuel frame (pos + 0) pos s (omega arith)
walk-encode handle ((eid, body) ∷ es) zero frame pos s e h = absurd (omega arith)
walk-encode {S} handle ((eid, body) ∷ es) (suc fuel) frame pos s e h =
    ap (λ (b : Bool). if b then step (element_at frame pos) else some s) inside
    ∙ ap step here
    ∙ and_then-same (handle (written eid body es) s) (λ t.
      ap (λ (m : ℕ). walk handle fuel frame m next t) whole
      ∙ walk-encode handle es fuel frame next t behind (omega (arith, total)))
  where
    next : ℕ
    next = pos + octet_at frame (pos + 1) + 2

    step : Element → Option S
    step x =
        and_then (handle x s)
          (λ t. walk handle fuel frame (pos + length (encode ((eid, body) ∷ es))) next t)

    octets :
        (i : ℕ) → octet_at frame (pos + i) ≡ octet_at (eid ∷ length body ∷ (body ++ encode es)) i
    octets i = sym (get_or-drop pos i frame 0) ∙ ap (λ t. get_or t i 0) e

    total : length (encode ((eid, body) ∷ es)) ≡ length body + length (encode es) + 2
    total = omega (arith, length-append body (encode es))

    whole : pos + length (encode ((eid, body) ∷ es)) ≡ next + length (encode es)
    whole = omega (arith, total, octets 1)

    inside :
        ltb (pos + octet_at frame (pos + 1) + 1) (pos + length (encode ((eid, body) ∷ es))) ≡ true
    inside = ground (arith, octets 1, total)

    place : next ≡ suc (suc (length body)) + pos
    place = omega (arith, octets 1)

    behind : drop next frame ≡ encode es
    behind =
        ap (λ (j : ℕ). drop j frame) place
        ∙ sym (drop-drop pos (suc (suc (length body))) frame)
        ∙ ap (drop (suc (suc (length body)))) e
        ∙ drop-append body (encode es)

    start : pos ≡ pos + 0
    start = omega arith

    two : pos + 2 ≡ 2 + pos
    two = omega arith

    here : element_at frame pos ≡ written eid body es
    here = λ i. record {
      eid = (ap (octet_at frame) start ∙ octets 0) i;
      len = octets 1 i;
      octet = (ap (λ (j : ℕ). drop j frame) two ∙ sym (drop-drop pos 2 frame) ∙ ap (drop 2) e) i;
    }
