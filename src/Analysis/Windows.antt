-- ===== src/Analysis/Windows.antt =====
-- src/operator/analysis_reconciler.rs: the times at which an analysis queries, from the experiment's
-- status. This part of `reconcile_analysis` calls no client; it may fail or panic.
use ch_chaos.Base.{
  ℕ, suc, ◌-◌, ◌/◌, String, Result, ok, err, Outcome, done, fail, panic, settle, settle_option, ℤ,
  pos, negsuc, as_i64, if◌then◌else◌, ok_or, format, [], ◌∷◌, ◌==◌,
}
use ch_chaos.Errors.{OperatorError, analysis}
use ch_chaos.Crd.{ChaosExperimentStatus}
use ch_chaos.Chrono.{Chrono}
use ch_chaos.Duration.{parse_duration_str}

infixl 5 ◌>>=◌
abbrev ◌>>=◌ : {E A B : Type 0} → Outcome E A → (A → Outcome E B) → Outcome E B
done a >>= f = f a
fail e >>= f = fail e
panic >>= f = panic

-- `n / 2` on `i64`, which rounds towards 0
abbrev pub half_ℤ : ℤ → ℤ
half_ℤ (pos n) = pos (n / 2)
half_ℤ (negsuc n) = let m = suc n / 2 in if m == 0 then pos 0 else negsuc (m - 1)

abbrev pub map_err : {E E' A : Type 0} → (E → E') → Result E A → Result E' A
map_err f (ok a) = ok a
map_err f (err e) = err (f e)

abbrev pub baseline_seconds : String → Outcome OperatorError ℕ
baseline_seconds window = settle (
    ok_or (parse_duration_str window)
      (analysis (format ("invalid baselineWindow: " ∷ window ∷ []))))

module _ {DateTime TimeDelta : Type 0} (chrono : Chrono DateTime TimeDelta) where
  abbrev pub parse_time : String → String → Outcome OperatorError DateTime
  parse_time field text = settle (
      map_err (λ e. analysis (format ("invalid " ∷ field ∷ ": " ∷ e ∷ [])))
        (chrono.parse_from_rfc3339 text))

  -- `baseline_time` and `chaos_time`
  unfoldable pub query_times :
      ChaosExperimentStatus → String → Outcome OperatorError (DateTime × DateTime)
  query_times exp_status baseline_window = do
    started_at ← settle (ok_or exp_status.started_at (analysis "experiment has no startedAt"))
    completed_at ← settle (ok_or exp_status.completed_at (analysis "experiment has no completedAt"))
    baseline_secs ← baseline_seconds baseline_window
    started ← parse_time "startedAt" started_at
    completed ← parse_time "completedAt" completed_at
    before ← settle_option (chrono.seconds (half_ℤ (as_i64 baseline_secs)))
    baseline_time ← settle_option (chrono.sub started before)
    chaos_time ← settle_option (chrono.add started (chrono.half (chrono.since completed started)))
    done (baseline_time, chaos_time)
