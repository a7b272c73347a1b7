-- ===== src/Metrics.antt =====
-- packages/observability/src/metrics.ts. Numbers are a parameter. An instrument and the service that it
-- reports to are passed and returned together; logging is left out.
pub mod Counters
pub mod Histograms
pub mod Summaries
pub mod Samples
pub mod Buckets
use secret_rotation_kit.Prelude.{
  ℕ, suc, ◌-◌, ◌<>◌, Bool, true, false, Option, none, some, List, [], ◌∷◌, ◌++◌, String, string_eq,
  if◌then◌else◌, ltb, length, min, map, slice_last, drop, head?,
}
use secret_rotation_kit.Map
use secret_rotation_kit.Map.{Map}
use secret_rotation_kit.Sort.{sort}

-- `ceil_times q n` is `Math.ceil(q * n)`; `median`, `ninth` and `last` are 0.5, 0.9 and 0.99.
pub record Numbers (N : Type 0) : Type 0 where
  pub zero_of : N
  pub one_of : N
  pub add : N → N → N
  pub sub : N → N → N
  pub leq : N → N → Bool
  pub show : N → String
  pub ceil_times : N → ℕ → ℕ
  pub median : N
  pub ninth : N
  pub last : N

abbrev pub Labels : Type 0
Labels = Map String String

pub record MetricSample (N : Type 0) : Type 0 where
  pub labels : Labels
  pub value : N

pub data MetricType : Type 0 where
  counter gauge histogram summary : MetricType

pub record MetricDefinition (N : Type 0) : Type 0 where
  pub name : String
  pub help : String
  pub type : MetricType
  pub samples : List (MetricSample N)

abbrev pub MetricsService : Type 0 → Type 0
MetricsService N = Map String (MetricDefinition N)

abbrev pub type_name : MetricType → String
type_name counter = "counter"
type_name gauge = "gauge"
type_name histogram = "histogram"
type_name summary = "summary"

-- `{ ...labels, ...partial }`.
abbrev pub spread : Labels → Labels → Labels
spread labels [] = labels
spread labels ((k, v) ∷ partial) = spread (Map.set labels k v) partial

-- `join`.
abbrev pub joined : String → List String → String
joined sep [] = ""
joined sep (s ∷ []) = s
joined sep (s ∷ t ∷ ss) = s <> sep <> joined sep (t ∷ ss)

abbrev label_text : String × String → String
label_text (k, v) = k <> "=\"" <> v <> "\""

abbrev pub label_string : Labels → String
label_string [] = ""
label_string (l ∷ ls) = "{" <> joined "," (map label_text (l ∷ ls)) <> "}"

module _ {N : Type 0} (nums : Numbers N) where
  abbrev pub sample_line : String → MetricSample N → String
  sample_line name s = name <> label_string s.labels <> " " <> nums.show s.value

  abbrev pub definition_lines : MetricDefinition N → List String
  definition_lines d =
      ("# HELP " <> d.name <> " " <> d.help)
      ∷ ("# TYPE " <> d.name <> " " <> type_name d.type)
      ∷ map (sample_line d.name) d.samples

  abbrev pub all_lines : MetricsService N → List String
  all_lines [] = []
  all_lines ((k, d) ∷ ds) = definition_lines d ++ all_lines ds

  unfoldable pub collect : MetricsService N → String
  collect s = joined "\n" (all_lines s) <> "\n"

module _ {N : Type 0} where
  unfoldable pub reset_metrics : MetricsService N → MetricsService N
  reset_metrics s = []

  unfoldable pub register_metric :
      String → String → MetricType → MetricsService N → MetricsService N
  register_metric name help type s =
      Map.set s name (record { name = name; help = help; type = type; samples = [] })

  -- A name that is not registered is passed over.
  abbrev update_found :
      String
      → List (MetricSample N)
      → MetricsService N
      → Option (MetricDefinition N)
      → MetricsService N
  update_found name samples s none = s
  update_found name samples s (some d) = Map.set s name (record d { samples = samples })

  unfoldable pub update_samples :
      String → List (MetricSample N) → MetricsService N → MetricsService N
  update_samples name samples s = update_found name samples s (Map.get s name)

  abbrev pub single : Labels → N → List (MetricSample N)
  single labels v = (record { labels = labels; value = v }) ∷ []
