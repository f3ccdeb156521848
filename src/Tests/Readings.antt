-- ===== src/Tests/Readings.antt =====
-- The affected services of two listings of the same readings.
use ch_chaos.Base.{ℕ, false, ◌≡◌, refl, [], ◌∷◌, arith}
use ch_chaos.Graph.{ServiceKey, key_eq, lookup_key}
use ch_chaos.ImpactMap.{MetricsSnapshot, compute_affected_services}
use ch_chaos.ImpactMap.Reach.Visited.{key_eq_iff}
use ch_chaos.ImpactMap.Order.{HasSameReadings, compute_affected_services_same}
use ch_chaos.Tests.Model.{float}
use ch_chaos.Tests.Services.{key, snapshot}

-- the readings of the other snapshot, with the services the other way round
abbrev turned : MetricsSnapshot ℕ
turned = record snapshot {
  latency = record {
    baseline = (key "bank", 1000) ∷ (key "pay", 2000) ∷ [];
    during = (key "bank", 1000) ∷ (key "pay", 4000) ∷ [];
  };
}

apart : key_eq (key "pay") (key "bank") ≡ false
apart = refl

swapped :
    (a b : ServiceKey) (x y : ℕ) (k : ServiceKey)
    → key_eq a b ≡ false
    → lookup_key k ((a, x) ∷ (b, y) ∷ []) ≡ lookup_key k ((b, y) ∷ (a, x) ∷ [])
swapped a b x y k h = ground (arith, key_eq_iff a k, key_eq_iff b k, key_eq_iff a b)

turned-HasSameReadings : HasSameReadings snapshot turned
turned-HasSameReadings = record {
  latency = record {
    baseline = λ k. swapped (key "pay") (key "bank") 2000 1000 k apart;
    during = λ k. swapped (key "pay") (key "bank") 4000 1000 k apart;
  };
  error_rate = record { baseline = λ k. refl; during = λ k. refl };
  throughput = record { baseline = λ k. refl; during = λ k. refl };
}

compute_affected_services_same_example :
    compute_affected_services float snapshot 5 ≡ compute_affected_services float turned 5
compute_affected_services_same_example =
    compute_affected_services_same float snapshot turned turned-HasSameReadings 5
