-- ===== src/Runner/Restored.antt =====
-- What follows a network delay (src/runner/scenarios/network_delay.rs).
use ch_chaos.Base.{◌≡◌, List, ◌∷◌, ok, done, arith}
use ch_chaos.Runner.Scenarios.{
  Call, Effects, NetworkDelay, add_delay, remove_delay, cleanup_delay, delay_network,
}

module _ (effects : Effects) (delay : NetworkDelay) where
  -- Where the command that adds the delay succeeds, the scenario sleeps for its duration, then runs the
  -- command that removes the delay from the same interface, and reports one target, whatever the second
  -- command answers.
  pub delay_network-restores :
      (log : List Call)
      → effects.run "tc" (add_delay effects delay) log ≡ ok tt
      → delay_network effects delay log ≡ (
        done 1,
        Call.run "tc" (remove_delay effects delay)
            ∷ Call.sleep delay.duration_secs
            ∷ Call.run "tc" (add_delay effects delay)
            ∷ log,
      )
  unfolding delay_network cleanup_delay
  delay_network-restores log added = ground arith
