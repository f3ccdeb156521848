-- ===== src/Runner/Metrics.antt =====
-- src/runner/metrics.rs: the metrics of a runner. A vector of gauges or counters is an association list
-- from label values; its numbers are whole, since the source sets 0.0, 1.0 and `f64::from(u32)`.
use ch_chaos.Base.{
  ℕ, suc, String, ◌&&◌, ◌≡◌, refl, Bool, true, List, [], ◌∷◌, Result, ok, err, str_eq, str_eq_refl,
  if◌then◌else◌, Bool-cases, inl, inr,
}
use ch_chaos.Errors.{RunnerError, execution_failed}

abbrev pub Series : Type 0
Series = List ((String × String) × ℕ)

abbrev pub same_labels : String × String → String × String → Bool
same_labels (a, b) (c, d) = str_eq a c && str_eq b d

-- A label that was never used reads 0.
abbrev pub value_at : String × String → Series → ℕ
value_at k [] = 0
value_at k ((j, n) ∷ l) = if same_labels j k then n else value_at k l

abbrev pub set_at : String × String → ℕ → Series → Series
set_at k n [] = (k, n) ∷ []
set_at k n ((j, m) ∷ l) = if same_labels j k then (j, n) ∷ l else (j, m) ∷ set_at k n l

pub record RunnerMetrics (F : Type 0) : Type 0 where
  pub injection_active : Series
  pub injection_total : Series
  pub targets_affected : ℕ
  pub injection_duration : List F

-- The constructors of the crate `prometheus` and `Registry::register`, by the name of the metric, with
-- the text of their error.
pub record Prometheus : Type 0 where
  pub gauge_vec : String → List String → Result String (Unit {0})
  pub int_counter_vec : String → List String → Result String (Unit {0})
  pub gauge : String → Result String (Unit {0})
  pub histogram : String → Result String (Unit {0})
  pub register : String → Result String (Unit {0})

infixl 5 ◌>>=◌ ◌>>◌
abbrev ◌>>=◌ :
    {A B : Type 0} → Result RunnerError A → (A → Result RunnerError B) → Result RunnerError B
ok a >>= f = f a
err e >>= f = err e

abbrev ◌>>◌ : {A B : Type 0} → Result RunnerError A → Result RunnerError B → Result RunnerError B
m >> k = m >>= λ _. k

-- `.map_err(|e| RunnerError::ExecutionFailed(e.to_string()))`
abbrev failed_text : Result String (Unit {0}) → Result RunnerError (Unit {0})
failed_text (ok _) = ok tt
failed_text (err text) = err (execution_failed text)

module _ {F : Type 0} where
  unfoldable pub new_metrics : Prometheus → Result RunnerError (RunnerMetrics F)
  new_metrics prom = do
    failed_text (prom.gauge_vec "chaos_injection_active" ("experiment_id" ∷ "scenario" ∷ []))
    failed_text (prom.int_counter_vec "chaos_injection_total" ("scenario" ∷ "result" ∷ []))
    failed_text (prom.gauge "chaos_targets_affected")
    failed_text (prom.histogram "chaos_injection_duration_seconds")
    failed_text (prom.register "chaos_injection_active")
    failed_text (prom.register "chaos_injection_total")
    failed_text (prom.register "chaos_targets_affected")
    failed_text (prom.register "chaos_injection_duration_seconds")
    ok (record {
      injection_active = [];
      injection_total = [];
      targets_affected = 0;
      injection_duration = [];
    })

  unfoldable pub set_active : String → String → RunnerMetrics F → RunnerMetrics F
  set_active experiment_id scenario m = record m {
    injection_active = set_at (experiment_id, scenario) 1 m.injection_active;
  }

  unfoldable pub set_inactive : String → String → RunnerMetrics F → RunnerMetrics F
  set_inactive experiment_id scenario m = record m {
    injection_active = set_at (experiment_id, scenario) 0 m.injection_active;
  }

  abbrev increment : String × String → RunnerMetrics F → RunnerMetrics F
  increment k m = record m {
    injection_total = set_at k (suc (value_at k m.injection_total)) m.injection_total;
  }

  unfoldable pub record_success : String → RunnerMetrics F → RunnerMetrics F
  record_success scenario = increment (scenario, "success")

  unfoldable pub record_failure : String → RunnerMetrics F → RunnerMetrics F
  record_failure scenario = increment (scenario, "failure")

  unfoldable pub set_targets : ℕ → RunnerMetrics F → RunnerMetrics F
  set_targets count m = record m { targets_affected = count }

  -- the samples, the most recent first
  unfoldable pub observe_duration : F → RunnerMetrics F → RunnerMetrics F
  observe_duration seconds m = record m { injection_duration = seconds ∷ m.injection_duration }

pub same_labels_refl : (k : String × String) → same_labels k k ≡ true
same_labels_refl (a, b) = rw (str_eq_refl a) (str_eq_refl b)

pub value_at-set_at : (k : String × String) (n : ℕ) (l : Series) → value_at k (set_at k n l) ≡ n
value_at-set_at k n [] = rw (same_labels_refl k) refl
value_at-set_at k n ((j, m) ∷ l) = elim (Bool-cases (same_labels j k)) [
  | inl same ↦ rw same (rw same refl)
  | inr other ↦ rw other (rw other (value_at-set_at k n l))
]
