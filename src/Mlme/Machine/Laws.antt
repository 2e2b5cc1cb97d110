-- ===== src/Mlme/Machine/Laws.antt =====
-- What the table of a state machine holds after StateMachineInit and StateMachineSetAction
-- (Module/mlme.c).
use rt.Prelude.{
  ℕ, zero, suc, ◌+◌, ◌-◌, ◌*◌, ◌^◌, ◌≤◌, ◌<◌, ◌≡◌, refl, sym, ap, ◌∙◌, inl, inr, Bool, false, ◌&&◌,
  List, arith, ltb, leb, ◌==◌, if◌then◌else◌, Bool-cases,
}
use rt.Prelude.Lists.{length, get_or, set, length-set, get_or-set, get_or_ext}
use rt.Mlme.Machine.{
  Action, drop, StateMachine, u32, fill_row, fill_rows, state_machine_init,
  state_machine_set_action,
}

-- Cells of a table with `n` columns do not overlap.
cell_injective : (n a b c d : ℕ) → b < n → d < n → a * n + b ≡ c * n + d → (a ≡ c) × (b ≡ d)
cell_injective n zero b zero d p q e = omega arith
cell_injective n zero b (suc c) d p q e = absurd (grind arith)
cell_injective n (suc a) b zero d p q e = absurd (grind arith)
cell_injective n (suc a) b (suc c) d p q e =
    let r = cell_injective n a b c d p q (omega arith) in (ap suc r.0, r.1)

pub cell-lt : (n k a b : ℕ) → a < k → b < n → a * n + b < k * n
cell-lt n k a b p q = grind arith

-- The 32-bit difference that numbers a message's column.
abbrev column : ℕ → ℕ → ℕ
column msg base = u32 (msg + 2 ^ 32 - base)

column_eq :
    (m m' b : ℕ)
    → b ≤ m
    → m < 2 ^ 32
    → b ≤ m'
    → m' < 2 ^ 32
    → (column m b == column m' b) ≡ (m == m')
column_eq m m' b p q p' q' = ground arith

-- The function at a state and a message of a machine.
pub action_at : StateMachine → ℕ → ℕ → Action
action_at s st msg = get_or s.trans_func (st * s.nr_msg + u32 (msg + 2 ^ 32 - s.base)) drop

length-fill_row :
    (left at : ℕ) (f : Action) (trans : List Action)
    → length (fill_row left at f trans) ≡ length trans
unfolding fill_row
length-fill_row zero at f trans = refl
length-fill_row (suc left) at f trans =
    length-fill_row left (at + 1) f (set trans at f) ∙ length-set trans at f

get_or-fill_row :
    (left at j : ℕ) (f d : Action) (trans : List Action)
    → at + left ≤ length trans
    → get_or (fill_row left at f trans) j d
      ≡ (if leb at j && ltb j (at + left) then f else get_or trans j d)
unfolding fill_row
get_or-fill_row zero at j f d trans h = ground arith
get_or-fill_row (suc left) at j f d trans h = ground (
  arith,
  get_or-fill_row left (at + 1) j f d (set trans at f),
  length-set trans at f,
  get_or-set trans at j f d,
)

length-fill_rows :
    (left i n : ℕ) (f : Action) (trans : List Action)
    → length (fill_rows left i n f trans) ≡ length trans
unfolding fill_rows
length-fill_rows zero i n f trans = refl
length-fill_rows (suc left) i n f trans =
    length-fill_rows left (i + 1) n f (fill_row n (i * n) f trans)
    ∙ length-fill_row n (i * n) f trans

get_or-fill_rows :
    (left i n j : ℕ) (f d : Action) (trans : List Action)
    → (i + left) * n ≤ length trans
    → get_or (fill_rows left i n f trans) j d
      ≡ (if leb (i * n) j && ltb j ((i + left) * n) then f else get_or trans j d)
unfolding fill_rows
get_or-fill_rows zero i n j f d trans h = ground arith
get_or-fill_rows (suc left) i n j f d trans h =
    let fits : (i + 1 + left) * n ≤ length (fill_row n (i * n) f trans) =
      omega (arith, length-fill_row n (i * n) f trans) in
    let row : i * n + n ≤ length trans = omega arith in
    ground (
      arith,
      get_or-fill_rows left (i + 1) n j f d (fill_row n (i * n) f trans) fits,
      get_or-fill_row n (i * n) j f d trans row,
    )

-- The two constants of a table fit its memory and 32-bit words.
pub record IsTable (s : StateMachine) : Type 0 where
  pub cells : length s.trans_func ≡ s.nr_state * s.nr_msg
  pub base_fits : s.base + s.nr_msg < 2 ^ 32

-- After StateMachineInit on a table of the right size every state answers every message with the
-- default function, and the machine is in the initial state.
pub init_lem :
    (trans : List Action) (st_nr msg_nr init_state base st msg : ℕ) (f : Action)
    → length trans ≡ st_nr * msg_nr
    → st < st_nr
    → base ≤ msg
    → msg < base + msg_nr
    → base + msg_nr < 2 ^ 32
    → let s = state_machine_init trans st_nr msg_nr f init_state base in
      (action_at s st msg ≡ f) × (s.curr_state ≡ init_state) × IsTable s
unfolding state_machine_init action_at
init_lem trans st_nr msg_nr init_state base st msg f len hst hlo hhi fits = (
  ground (
    arith,
    get_or-fill_rows st_nr 0 msg_nr (st * msg_nr + u32 (msg + 2 ^ 32 - base)) f drop trans,
    cell-lt msg_nr st_nr st (msg - base),
  ),
  refl,
  record { cells = length-fill_rows st_nr 0 msg_nr f trans ∙ len; base_fits = fits },
)

-- StateMachineInit overwrites every cell: what the memory held before does not show.
pub init_forgets :
    (trans trans' : List Action) (st_nr msg_nr init_state base : ℕ) (f : Action)
    → length trans ≡ st_nr * msg_nr
    → length trans' ≡ st_nr * msg_nr
    → state_machine_init trans st_nr msg_nr f init_state base
      ≡ state_machine_init trans' st_nr msg_nr f init_state base
unfolding state_machine_init
init_forgets trans trans' st_nr msg_nr init_state base f len len' =
    ap
      (λ (t : List Action). record {
        base = base;
        nr_state = st_nr;
        nr_msg = msg_nr;
        curr_state = init_state;
        trans_func = t;
      })
      (get_or_ext drop _ _
        (length-fill_rows st_nr 0 msg_nr f trans
          ∙ len
          ∙ sym len'
          ∙ sym (length-fill_rows st_nr 0 msg_nr f trans'))
        λ j h. ground (
          arith,
          length-fill_rows st_nr 0 msg_nr f trans,
          get_or-fill_rows st_nr 0 msg_nr j f drop trans,
          get_or-fill_rows st_nr 0 msg_nr j f drop trans',
        ))

-- A write to one cell, read at any cell.
set_cell :
    (trans : List Action) (n k st i st' i' : ℕ) (f : Action)
    → length trans ≡ k * n
    → st < k
    → i < n
    → i' < n
    → get_or (set trans (st * n + i) f) (st' * n + i') drop
      ≡ (if st == st' && i == i' then f else get_or trans (st' * n + i') drop)
set_cell trans n k st i st' i' f len hst hi hi' = ground (
  arith,
  get_or-set trans (st * n + i) (st' * n + i') f drop,
  cell_injective n st i st' i',
  cell-lt n k st i,
)

-- StateMachineSetAction changes the answer of the given state to the given message and no other;
-- a state or a message outside the table changes nothing.
pub set_action_lem :
    (s : StateMachine) (st msg st' msg' : ℕ) (f : Action)
    → IsTable s
    → st' < s.nr_state
    → s.base ≤ msg'
    → msg' < s.base + s.nr_msg
    → s.base ≤ msg
    → msg < 2 ^ 32
    → action_at (state_machine_set_action st msg f s) st' msg'
      ≡ (if st == st' && msg == msg' then f else action_at s st' msg')
unfolding state_machine_set_action action_at
set_action_lem s st msg st' msg' f t hst hlo hhi lo hi = elim (Bool-cases inside) [
  | inl e ↦ rw e (
      set_cell s.trans_func s.nr_msg s.nr_state st (column msg s.base) st' (column msg' s.base) f
        t.cells (ground arith) (ground arith) (omega (arith, t.base_fits))
      ∙ ap (λ b. if st == st' && b then f else action_at s st' msg')
          (column_eq msg msg' s.base lo hi hlo (omega (arith, t.base_fits))))
  | inr e ↦ rw e (sym (ap (λ b. if b then f else action_at s st' msg') (elsewhere e)))
]
  where
    inside : Bool
    inside = ltb st s.nr_state && ltb (column msg s.base) s.nr_msg

    elsewhere : inside ≡ false → (st == st' && msg == msg') ≡ false
    elsewhere e = ground (arith, t.base_fits)
