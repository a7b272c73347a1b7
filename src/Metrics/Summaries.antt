-- ===== src/Metrics/Summaries.antt =====
-- packages/observability/src/metrics.ts: summaries.
use secret_rotation_kit.Prelude.{
  ℕ, ◌-◌, ◌<>◌, Option, none, some, List, [], ◌∷◌, ◌++◌, String, string_eq, if◌then◌else◌, ltb,
  length, min, map, slice_last, drop, head?,
}
use secret_rotation_kit.Sort.{sort}
use secret_rotation_kit.Metrics.{
  Numbers, MetricSample, MetricsService, summary, register_metric, update_samples, single,
}

pub record Summary (N : Type 0) : Type 0 where
  pub name : String
  pub values : List N
  pub sum : N
  pub count : N

module _ {N : Type 0} (nums : Numbers N) where
  -- `xs[i] ?? 0`.
  abbrev or_zero : Option N → N
  or_zero none = nums.zero_of
  or_zero (some v) = v

  abbrev at : List N → ℕ → N
  at xs i = or_zero (head? (drop i xs))

  -- Below 1, `Math.ceil(quantile * length)` gives the index 0 here as there.
  abbrev pub quantile_sample : List N → N → MetricSample N
  quantile_sample sorted q = record {
    labels = ("quantile", nums.show q) ∷ [];
    value = at sorted (min (nums.ceil_times q (length sorted) - 1) (length sorted - 1));
  }

  abbrev pub quantile_samples : List N → List (MetricSample N)
  quantile_samples sorted =
      map (quantile_sample sorted) (nums.median ∷ nums.ninth ∷ nums.last ∷ [])
      ++ (record { labels = ("quantile", "1") ∷ []; value = at sorted (length sorted - 1) }) ∷ []

  unfoldable pub flush_summary : Summary N × MetricsService N → Summary N × MetricsService N
  flush_summary (y, s) = (
    y,
    update_samples (y.name <> "_count") (single [] y.count) (
        update_samples (y.name <> "_sum") (single [] y.sum)
          (update_samples y.name (quantile_samples (sort nums.leq y.values)) s)),
  )

  unfoldable pub new_summary : String → String → MetricsService N → Summary N × MetricsService N
  new_summary name help s = flush_summary (
    record { name = name; values = []; sum = nums.zero_of; count = nums.zero_of },
    register_metric (name <> "_count") help summary
        (register_metric (name <> "_sum") help summary (register_metric name help summary s)),
  )

  abbrev pub kept_values : List N → List N
  kept_values vs = if ltb 10000 (length vs) then slice_last 1000 vs else vs

  unfoldable pub observe_summary : N → Summary N × MetricsService N → Summary N × MetricsService N
  observe_summary v (y, s) = flush_summary (
    record y {
      values = kept_values (y.values ++ v ∷ []);
      sum = nums.add y.sum v;
      count = nums.add y.count nums.one_of;
    },
    s,
  )
