-- ===== src/Tests/Measuring.antt =====
-- Instruments over whole numbers.
use secret_rotation_kit.Prelude.{
  ℕ, ◌+◌, ◌-◌, ◌≡◌, refl, [], ◌∷◌, ◌<>◌, String, leb, nat_beq, if◌then◌else◌,
}
use secret_rotation_kit.Metrics.{
  Numbers, MetricsService, collect, register_metric, update_samples, single,
}
use secret_rotation_kit.Metrics.Histograms.{new_histogram, observe_histogram, flush_histogram}
use secret_rotation_kit.Metrics.Counters.{new_counter, inc_counter, counter_child}
use secret_rotation_kit.Metrics.Samples.{Shows}
use secret_rotation_kit.Metrics.Buckets.{
  observes, reports, happen, bucket_report, count_upto, histogram-Shows,
}
use secret_rotation_kit.Map.{get, set}
use secret_rotation_kit.Sort.{sort, insert}

abbrev digit : ℕ → String
digit n =
    if nat_beq n 0 then "0" else if nat_beq n 1 then "1" else if nat_beq n 2 then "2" else "many"

-- The quantiles are the half, three quarters and all.
abbrev whole : Numbers ℕ
whole = record {
  zero_of = 0;
  one_of = 1;
  add = λ a b. a + b;
  sub = λ a b. a - b;
  leq = leb;
  show = digit;
  ceil_times = λ q n. n;
  median = 0;
  ninth = 1;
  last = 2;
}

abbrev nothing : MetricsService ℕ
nothing = []

histogram_text :
    collect whole
      (observe_histogram whole 1 (new_histogram whole "h" "Help" (2 ∷ 0 ∷ []) nothing)).1
    ≡ ("# HELP h_bucket Help\n# TYPE h_bucket histogram\nh_bucket{le=\"2\"} 1\nh_bucket{le=\"0\"} 0\nh_bucket{le=\"+Inf\"} 1\n"
        <> "# HELP h_sum Help\n# TYPE h_sum histogram\nh_sum 1\n"
        <> "# HELP h_count Help\n# TYPE h_count histogram\nh_count 1\n")
unfolding collect observe_histogram new_histogram flush_histogram register_metric update_samples get
    set sort insert
histogram_text = refl

-- The child of a counter takes the place of its parent's samples.
child_text :
    collect whole
      (inc_counter whole 1 (
        counter_child whole
          (("a", "b") ∷ [])
          (inc_counter whole 1 (new_counter whole "c" "Help" 0 nothing)))).1
    ≡ "# HELP c Help\n# TYPE c counter\nc{a=\"b\"} 2\n"
unfolding collect inc_counter counter_child new_counter register_metric update_samples get set
child_text = refl

histogram-Shows_example :
    Shows "h" "Help"
      (bucket_report whole (sort leb (2 ∷ 0 ∷ [])) (λ b. count_upto whole b (1 ∷ 0 ∷ [])) 2)
      (single [] 1)
      (single [] 2)
      (happen whole
        (observes 1 ∷ reports "c" [] ∷ observes 0 ∷ [])
        (new_histogram whole "h" "Help" (2 ∷ 0 ∷ []) nothing)).1
histogram-Shows_example =
    histogram-Shows whole "h" "Help" (2 ∷ 0 ∷ []) (observes 1 ∷ reports "c" [] ∷ observes 0 ∷ [])
      nothing (tt, ((cc, cc, cc), (tt, tt)))
