-- ===== src/Monitor/Feedback.antt =====
-- feedback_handler of src/monitor/feedback_handler.cpp, over the machine's doubles.
use anna.Prelude.{
  ℕ, ◌+◌, ◌%◌, ◌^◌, list_eq, nat_eq, Bool, Option, none, some, List, [], ◌∷◌, if◌then◌else◌,
}
use anna.Containers.HashMap
use anna.Containers.HashMap.{HashMap}
use anna.Text.{Text}
use anna.Monitor.{Double, Monitor}

module _ (F : Double) where
  -- UserFeedback of include/proto/benchmark.proto
  pub record UserFeedback : Type 0 where
    pub uid : Text
    pub latency : F.D
    pub throughput : F.D
    pub finish : Bool
    pub key_latency : List (Text × F.D)

  -- The mean of the ratios so far, and their number, on 32 bits. `slo_worst` is kSloWorst.
  unfoldable pub add_ratio : F.D → F.D → Option (F.D × ℕ) → F.D × ℕ
  add_ratio slo_worst observed none = (F.divide observed slo_worst, 1)
  add_ratio slo_worst observed (some (ratio, count)) = (
    F.divide (F.add (F.multiply ratio (F.of_nat count)) (F.divide observed slo_worst))
        (F.of_nat ((count + 1) % 2 ^ 32)),
    (count + 1) % 2 ^ 32,
  )

  unfoldable pub add_ratios :
      F.D → List (Text × F.D) → HashMap Text (F.D × ℕ) → HashMap Text (F.D × ℕ)
  add_ratios slo_worst [] m = m
  add_ratios slo_worst ((key, observed) ∷ latencies) m =
      add_ratios slo_worst latencies
        (HashMap.assign key (add_ratio slo_worst observed (HashMap.find key m)) m)

  unfoldable pub feedback_handler : F.D → UserFeedback → Monitor F.D → Monitor F.D
  feedback_handler slo_worst fb m =
      if fb.finish
      then record m { user_latency = HashMap.erase fb.uid m.user_latency }
      else record m {
        user_latency = HashMap.assign fb.uid fb.latency m.user_latency;
        user_throughput = HashMap.assign fb.uid fb.throughput m.user_throughput;
        latency_miss_ratio_map = add_ratios slo_worst fb.key_latency m.latency_miss_ratio_map;
      }
