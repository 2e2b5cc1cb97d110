-- ===== src/Mlme/Machine/Tabulate.antt =====
-- A table written out from the function that it stands for, row by row, and read back. A machine of
-- Module/mlme.c answers as a function says when its table is the function's.
use rt.Prelude.{
  ℕ, zero, suc, ◌+◌, ◌-◌, ◌*◌, ◌^◌, ◌<◌, ◌≡◌, refl, ap, ap₂, ◌∙◌, some, List, [], ◌∷◌, arith,
}
use rt.Prelude.Lists.{get_elem?}
use rt.Mlme.Machine.Laws.{cell-lt}
use rt.Mlme.Machine.{Action, StateMachine, u32, state_machine_action}

-- Columns `j` to `j + left` of one row, in front of the rest.
abbrev pub row : ℕ → ℕ → (ℕ → Action) → List Action → List Action
row zero j g rest = rest
row (suc left) j g rest = g j ∷ row left (j + 1) g rest

-- Rows `i` to `i + left`.
abbrev pub rows : ℕ → ℕ → ℕ → (ℕ → ℕ → Action) → List Action
rows zero i n g = []
rows (suc left) i n g = row n 0 (g i) (rows left (i + 1) n g)

get_elem?-row_in :
    (left j k : ℕ) (g : ℕ → Action) (rest : List Action)
    → k < left
    → get_elem? (row left j g rest) k ≡ some (g (j + k))
get_elem?-row_in zero j k g rest h = absurd (omega arith)
get_elem?-row_in (suc left) j zero g rest h = ap (λ i. some (g i)) (omega arith)
get_elem?-row_in (suc left) j (suc k) g rest h =
    get_elem?-row_in left (j + 1) k g rest (omega arith) ∙ ap (λ i. some (g i)) (omega arith)

get_elem?-row_out :
    (left j k n : ℕ) (g : ℕ → Action) (rest : List Action)
    → n ≡ left + k
    → get_elem? (row left j g rest) n ≡ get_elem? rest k
get_elem?-row_out zero j k n g rest e = ap (get_elem? rest) (omega arith)
get_elem?-row_out (suc left) j k zero g rest e = absurd (omega arith)
get_elem?-row_out (suc left) j k (suc n) g rest e =
    get_elem?-row_out left (j + 1) k n g rest (omega arith)

pub get_elem?-rows :
    (left i n st msg k : ℕ) (g : ℕ → ℕ → Action)
    → st < left
    → msg < n
    → k ≡ st * n + msg
    → get_elem? (rows left i n g) k ≡ some (g (i + st) msg)
get_elem?-rows zero i n st msg k g p q e = absurd (omega arith)
get_elem?-rows (suc left) i n zero msg k g p q e =
    get_elem?-row_in n 0 k (g i) (rows left (i + 1) n g) (omega arith)
    ∙ ap₂ (λ a b. some (g a b)) (omega arith) (omega arith)
get_elem?-rows (suc left) i n (suc st) msg k g p q e =
    get_elem?-row_out n 0 (st * n + msg) k (g i) (rows left (i + 1) n g) (omega arith)
    ∙ get_elem?-rows left (i + 1) n st msg (st * n + msg) g (omega arith) q refl
    ∙ ap (λ a. some (g a msg)) (omega arith)

-- The machine in a state of its own.
abbrev pub in_state : ℕ → StateMachine → StateMachine
in_state st s = record s { curr_state = st }

-- In every state the machine dispatches each of its messages to the function given, and its
-- index stays inside the table.
abbrev pub Answers : StateMachine → (ℕ → ℕ → Action) → Type 0
Answers s answer =
    (st msg : ℕ)
    → st < s.nr_state
    → msg < s.nr_msg
    → state_machine_action (in_state st s) msg ≡ some (answer st msg)

pub tabulated-Answers :
    (s : StateMachine) (answer : ℕ → ℕ → Action)
    → s.base ≡ 0
    → s.nr_state * s.nr_msg < 2 ^ 32
    → s.trans_func ≡ rows s.nr_state 0 s.nr_msg answer
    → Answers s answer
unfolding state_machine_action
tabulated-Answers s answer base small table st msg p q =
    ap (λ t. get_elem? t (u32 (st * s.nr_msg + msg + 2 ^ 32 - s.base))) table
    ∙ get_elem?-rows s.nr_state 0 s.nr_msg st msg _ answer p q
        (omega (arith, cell-lt s.nr_msg s.nr_state st msg p q))
    ∙ ap (λ a. some (answer a msg)) (omega arith)
