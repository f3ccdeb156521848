-- ===== src/Lifecycle/Evolution.antt =====
-- How the status of an experiment may change (ChaosExperimentStatus of src/operator/crd.rs).
use ch_chaos.Base.{ℕ, ◌≤◌, ◌<◌, ◌≡◌, refl, ◌∙◌, true, arith}
use ch_chaos.Types.{Phase, is_terminal}
use ch_chaos.Crd.{ChaosExperimentStatus}
use ch_chaos.Experiment.Guard.{IsLegal, started, refused, ended, cleaned}
use ch_chaos.Crd.Encoding.Patching.{merge_status}

abbrev pub rank : Phase → ℕ
rank Phase.pending = 0
rank Phase.running = 1
rank Phase.succeeded = 2
rank Phase.failed = 2

-- The phase does not go back, a final phase is kept, what was recorded at the start is kept from then
-- on, and a status that is marked clean does not change.
pub record Evolves (s t : ChaosExperimentStatus) : Type 0 where
  pub forward : rank s.phase ≤ rank t.phase
  pub settled : is_terminal s.phase ≡ true → t.phase ≡ s.phase
  pub recorded :
      0 < rank s.phase
      → (t.runner_jobs ≡ s.runner_jobs)
        × (t.started_at ≡ s.started_at)
        × (t.experiment_id ≡ s.experiment_id)
  pub clean : s.cleanup_done ≡ true → t ≡ s

-- A status that is marked clean has a final phase.
abbrev pub IsConsistent : ChaosExperimentStatus → Type 0
IsConsistent s = s.cleanup_done ≡ true → is_terminal s.phase ≡ true

pub Evolves-refl : (s : ChaosExperimentStatus) → Evolves s s
Evolves-refl s = record {
  forward = omega arith;
  settled = λ _. refl;
  recorded = λ _. (refl, refl, refl);
  clean = λ _. refl;
}

pub Evolves-trans : {s t u : ChaosExperimentStatus} → Evolves s t → Evolves t u → Evolves s u
Evolves-trans {s} {t} {u} a b = record {
  forward = omega (arith, a.forward, b.forward);
  settled = λ h. ground (arith, h, a.settled h, b.settled);
  recorded = λ h.
      let (j, st, i) = a.recorded h in
      let (j', st', i') = b.recorded (omega (arith, h, a.forward)) in (j' ∙ j, st' ∙ st, i' ∙ i);
  clean = λ h. ground (arith, h, a.clean h, b.clean);
}

module _ (s t : ChaosExperimentStatus) where
  pub merge-Evolves : IsConsistent s → IsLegal s t → Evolves s (merge_status s t)
  merge-Evolves c (started p r d) = ground arith
  merge-Evolves c (refused m p e) = ground arith
  merge-Evolves c (ended phase m time p over e) = ground arith
  merge-Evolves c (cleaned over dirty e) = ground arith

  pub merge-IsConsistent : IsConsistent s → IsLegal s t → IsConsistent (merge_status s t)
  merge-IsConsistent c (started p r d) = ground arith
  merge-IsConsistent c (refused m p e) = ground arith
  merge-IsConsistent c (ended phase m time p over e) = ground arith
  merge-IsConsistent c (cleaned over dirty e) = ground arith
