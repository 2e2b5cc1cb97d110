-- ===== src/Mlme/Examples.antt =====
-- The state machines and the dispatch of Module/mlme.c at concrete states and messages.
use rt.Prelude.{ℕ, ◌≡◌, refl, false, some, List, [], ◌∷◌, arith}
use rt.Prelude.Lists.{replicate}
use rt.Mlme.Machine.{Action, drop, peer_beacon, StateMachine, state_machine_init}
use rt.Mlme.Machine.Laws.{IsTable, init_lem}
use rt.Mlme.Recv.{msg_type_subst, mgmt_subst}
use rt.Mlme.Handler.{dispatch, performed}
use rt.Mlme.Handler.Tables.{machines_in, answer_for, received-dispatch}

abbrev memory : List Action
memory = replicate 6 peer_beacon

abbrev small : StateMachine
small = state_machine_init memory 2 3 drop 1 4

small-IsTable : IsTable small
small-IsTable =
    (init_lem memory 2 3 1 4 0 4 drop refl (omega arith) (omega arith) (omega arith)
      (omega arith)).2

-- A beacon's header.
abbrev beacon_frame : List ℕ
beacon_frame = (128 ∷ 0 ∷ [])

received-dispatch_example :
    dispatch false
      (machines_in
        (replicate 44 drop, 0)
        (replicate 9 drop, 1)
        (replicate 6 drop, 0)
        (replicate 30 drop, 2)
        (replicate 5 drop, 0))
      4
      3
    ≡ performed (some (answer_for 0 1 0 2 0 4 3))
received-dispatch_example =
    received-dispatch (replicate 44 drop, 0) (replicate 9 drop, 1) (replicate 6 drop, 0)
      (replicate 30 drop, 2) (replicate 5 drop, 0) (refl, omega arith) (refl, omega arith)
      (refl, omega arith) (refl, omega arith) (refl, omega arith) false beacon_frame 4 3
      (unfold msg_type_subst mgmt_subst in refl)
