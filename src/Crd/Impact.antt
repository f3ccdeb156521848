-- ===== src/Crd/Impact.antt =====
-- src/operator/crd.rs, `calculate_impact`, over the floating-point operations that it uses.
use ch_chaos.Base.{ℕ, ◌≤◌, ◌≡◌, ◌↔◌, arith, leb, min, if◌then◌else◌}
use ch_chaos.Float.{Float}
use ch_chaos.Types.{DegradationDirection, up, down, AnalysisVerdict, pass, fail}

module _ {F : Type 0} (float : Float F) where
  open float use {literal, sub, mul, div, fmax, round, as_u32, eq}

  abbrev pub raw_degradation : F → F → DegradationDirection → F
  raw_degradation baseline during up = mul (div (sub during baseline) baseline) (literal "100.0")
  raw_degradation baseline during down = mul (div (sub baseline during) baseline) (literal "100.0")

  abbrev pub degradation : F → F → DegradationDirection → F
  degradation baseline during direction =
      if eq baseline (literal "0.0")
      then if eq during (literal "0.0") then literal "0.0" else literal "100.0"
      else fmax (raw_degradation baseline during direction) (literal "0.0")

  unfoldable pub calculate_impact : F → F → DegradationDirection → ℕ → ℕ × AnalysisVerdict × F
  calculate_impact baseline during direction max_impact =
      let degradation_percent = degradation baseline during direction in
      let impact_score = min (as_u32 (round degradation_percent)) 100 in
      (impact_score, if leb impact_score max_impact then pass else fail, degradation_percent)

  -- The score is at most 100, and the verdict is a pass exactly when the score does not exceed the
  -- allowed impact, whatever the measurements are.
  pub calculate_impact_bounds :
      (baseline during : F) (direction : DegradationDirection) (max_impact : ℕ)
      → let (score, verdict, _) = calculate_impact baseline during direction max_impact in
        (score ≤ 100) × ((verdict ≡ pass) ↔ (score ≤ max_impact))
  unfolding calculate_impact
  calculate_impact_bounds baseline during direction max_impact = ground arith
