-- ===== src/Auth/Run/Ends.antt =====
-- How the runs of the authentication machine (Module/auth.c) go on and end.
use rt.Prelude.{
  ℕ, ◌+◌, ◌≡◌, refl, ap, Bool, true, List, [], ◌∷◌, ◌++◌, ◌==◌, arith, Bool-cases, inl, inr,
}
use rt.Auth.{Config, AuthState, auth_timeout}
use rt.Auth.Run.{
  AuthMsg, timed_out, World, is_waiting, handled, AuthReach, initial, Alone, over, timer_first,
  message_first,
}
use rt.Auth.Run.Invariant.{
  confs, has_timeout, IsSound, handled-IsSound, reach-IsSound, timed_out_idle,
}

-- In every run from an idle machine, the requests that were handled are the confirmations sent, the
-- request that is under way, if one is, and those that another one has overtaken.
pub answered_once :
    (cfg : Config) (a : AuthState) (w : World)
    → AuthReach cfg (initial a) w
    → w.started ≡ confs w.outbox + is_waiting w.auth + w.overtaken
answered_once cfg a w r = (reach-IsSound cfg a w r).answered

module _ (cfg : Config) (alloc : Bool) (stack : List ℕ) where
  ends_by_timer :
      (w : World)
      → IsSound w
      → w.auth.timer ≡ true
      → w.inbox ≡ []
      → (u : World) × Alone cfg alloc stack w u × (u.auth.curr_state ≡ 0)
  unfolding auth_timeout
  ends_by_timer w s pending empty =
      let v = record w { auth = auth_timeout w.auth; inbox = w.inbox ++ timed_out ∷ [] } in
      let u = handled cfg alloc stack timed_out [] v in
      (
        u,
        timer_first w pending
            (message_first v timed_out [] (ap (λ ms. ms ++ timed_out ∷ []) empty) (over u)),
        timed_out_idle cfg alloc stack (auth_timeout w.auth) s.small,
      )

  ends_from :
      (ms : List AuthMsg) (w : World)
      → IsSound w
      → w.lost ≡ 0
      → w.inbox ≡ ms
      → (u : World) × Alone cfg alloc stack w u × (u.auth.curr_state ≡ 0)
  ends_from [] w s l e = elim (Bool-cases (w.auth.curr_state == 0)) [
    | inl idle ↦ (w, over w, ground arith)
    | inr busy ↦ ends_by_timer w s (ground (arith, s.armed (ground arith) l, ap has_timeout e)) e
  ]
  ends_from (m ∷ ms) w s l e =
      let (u, r, idle) =
        ends_from ms (handled cfg alloc stack m ms w) (handled-IsSound cfg alloc stack m ms w s e) l
          refl in
      (u, message_first w m ms e r, idle)

-- From every world that is reached by a run in which MlmeEnqueue took every message of the timer,
-- whatever kmalloc gives, the machine comes back to idle by its timer and the messages that wait
-- alone, where MlmeEnqueue takes the timer's message there too.
pub comes_to_idle :
    (cfg : Config) (a : AuthState) (alloc : Bool) (stack : List ℕ) (w : World)
    → AuthReach cfg (initial a) w
    → w.lost ≡ 0
    → (u : World) × Alone cfg alloc stack w u × (u.auth.curr_state ≡ 0)
comes_to_idle cfg a alloc stack w r l =
    ends_from cfg alloc stack w.inbox w (reach-IsSound cfg a w r) l refl
