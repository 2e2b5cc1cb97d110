-- ===== src/Mlme/Machine/Tables/Memory.antt =====
-- A table of Module/mlme.c does not depend on the memory it is built in, so that it may be read
-- back on one memory.
use rt.Prelude.{ℕ, ◌*◌, ◌≡◌, List}
use mathlib.Core.Path.{subst}
use rt.Prelude.Lists.{length, replicate, length-replicate}
use rt.Mlme.Machine.{Action, drop, state_machine_init}
use rt.Mlme.Machine.Laws.{init_forgets}
use rt.Mlme.Machine.Tabulate.{Answers}
use rt.Mlme.Machine.Tables.{set_actions}

pub Answers-memory :
    (acts : List (ℕ × ℕ × Action)) (st_nr msg_nr init base : ℕ) (answer : ℕ → ℕ → Action)
    (trans : List Action)
    → length trans ≡ st_nr * msg_nr
    → Answers
        (set_actions acts
          (state_machine_init (replicate (st_nr * msg_nr) drop) st_nr msg_nr drop init base))
        answer
    → Answers (set_actions acts (state_machine_init trans st_nr msg_nr drop init base)) answer
Answers-memory acts st_nr msg_nr init base answer trans e h =
    subst (λ s. Answers (set_actions acts s) answer)
      (init_forgets (replicate (st_nr * msg_nr) drop) trans st_nr msg_nr init base drop
        (length-replicate (st_nr * msg_nr) drop) e)
      h
