-- ===== src/Scan/Examples.antt =====
-- The channels of Module/sync.c for a concrete list.
use rt.Prelude.{ℕ, zero, suc, ◌<◌, ◌≡◌, refl, ◌≢◌, List, [], ◌∷◌, arith}
use rt.Prelude.Lists.{get_or}
use rt.Scan.{first_channel}
use rt.Scan.Channels.{Distinct, visits, visits_lem}

abbrev channels : List ℕ
channels = (1 ∷ 6 ∷ 36 ∷ [])

channels-Distinct : Distinct channels
channels-Distinct zero zero p q e = refl
channels-Distinct zero (suc zero) p q e = absurd (omega arith)
channels-Distinct zero (suc (suc zero)) p q e = absurd (omega arith)
channels-Distinct (suc zero) zero p q e = absurd (omega arith)
channels-Distinct (suc zero) (suc zero) p q e = refl
channels-Distinct (suc zero) (suc (suc zero)) p q e = absurd (omega arith)
channels-Distinct (suc (suc zero)) zero p q e = absurd (omega arith)
channels-Distinct (suc (suc zero)) (suc zero) p q e = absurd (omega arith)
channels-Distinct (suc (suc zero)) (suc (suc zero)) p q e = refl
channels-Distinct (suc (suc (suc i))) j p q e = absurd (omega arith)
channels-Distinct zero (suc (suc (suc j))) p q e = absurd (omega arith)
channels-Distinct (suc zero) (suc (suc (suc j))) p q e = absurd (omega arith)
channels-Distinct (suc (suc zero)) (suc (suc (suc j))) p q e = absurd (omega arith)

channels_nonzero : (i : ℕ) → i < 3 → get_or channels i 0 ≢ 0
channels_nonzero zero h = λ e. omega arith
channels_nonzero (suc zero) h = λ e. omega arith
channels_nonzero (suc (suc zero)) h = λ e. omega arith
channels_nonzero (suc (suc (suc i))) h = absurd (omega arith)

visits_lem_example : visits 4 channels (first_channel channels) ≡ channels
visits_lem_example = visits_lem channels channels-Distinct channels_nonzero
