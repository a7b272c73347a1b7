-- ===== src/Metrics/Histograms.antt =====
-- packages/observability/src/metrics.ts: histograms.
use secret_rotation_kit.Prelude.{◌<>◌, List, [], ◌∷◌, String, string_eq, if◌then◌else◌, map}
use secret_rotation_kit.Map
use secret_rotation_kit.Map.{Map}
use secret_rotation_kit.Sort.{sort}
use secret_rotation_kit.Metrics.{
  Numbers, Labels, MetricSample, MetricsService, histogram, spread, register_metric, update_samples,
  single,
}

pub record Histogram (N : Type 0) : Type 0 where
  pub name : String
  pub help : String
  pub buckets : List N
  pub cumulative : List N
  pub sum : N
  pub count : N
  pub labels : Labels

module _ {N : Type 0} (nums : Numbers N) where
  -- The samples of the buckets before `later`, put in front one by one.
  abbrev pub bucket_samples :
      Labels → List N → List N → List (MetricSample N) → List (MetricSample N)
  bucket_samples labels [] counts later = later
  bucket_samples labels (b ∷ bs) [] later =
      bucket_samples labels bs []
        (record { labels = Map.set labels "le" (nums.show b); value = nums.zero_of } ∷ later)
  bucket_samples labels (b ∷ bs) (c ∷ counts) later =
      bucket_samples labels bs counts
        (record { labels = Map.set labels "le" (nums.show b); value = c } ∷ later)

  unfoldable pub flush_histogram : Histogram N × MetricsService N → Histogram N × MetricsService N
  flush_histogram (h, s) = (
    h,
    update_samples (h.name <> "_count") (single h.labels h.count) (
        update_samples (h.name <> "_sum") (single h.labels h.sum) (
          update_samples (h.name <> "_bucket")
            (bucket_samples h.labels h.buckets h.cumulative
              (single (Map.set h.labels "le" "+Inf") h.count))
            s)),
  )

  unfoldable pub new_histogram :
      String → String → List N → MetricsService N → Histogram N × MetricsService N
  new_histogram name help buckets s = flush_histogram (
    record {
      name = name;
      help = help;
      buckets = sort nums.leq buckets;
      cumulative = map (λ b. nums.zero_of) (sort nums.leq buckets);
      sum = nums.zero_of;
      count = nums.zero_of;
      labels = [];
    },
    register_metric (name <> "_count") help histogram (
        register_metric (name <> "_sum") help histogram
          (register_metric (name <> "_bucket") help histogram s)),
  )

  unfoldable pub histogram_child :
      Labels → Histogram N × MetricsService N → Histogram N × MetricsService N
  histogram_child partial (h, s) =
      let (d, t) = new_histogram h.name h.help h.buckets s in
      (record d { labels = spread h.labels partial }, t)

  -- The loop over the buckets.
  abbrev pub counted : N → List N → List N → List N
  counted v [] counts = counts
  counted v (b ∷ bs) [] = []
  counted v (b ∷ bs) (c ∷ counts) =
      let rest = counted v bs counts in
      if nums.leq v b then nums.add c nums.one_of ∷ rest else c ∷ rest

  unfoldable pub observe_histogram :
      N → Histogram N × MetricsService N → Histogram N × MetricsService N
  observe_histogram v (h, s) = flush_histogram (
    record h {
      sum = nums.add h.sum v;
      count = nums.add h.count nums.one_of;
      cumulative = counted v h.buckets h.cumulative;
    },
    s,
  )
