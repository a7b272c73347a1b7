-- ===== src/Metrics/Counters.antt =====
-- packages/observability/src/metrics.ts: counters and gauges.
use secret_rotation_kit.Prelude.{[], String, string_eq}
use secret_rotation_kit.Metrics.{
  Numbers, Labels, MetricsService, counter, gauge, spread, register_metric, update_samples, single,
}

pub record Counter (N : Type 0) : Type 0 where
  pub name : String
  pub help : String
  pub value : N
  pub labels : Labels

pub record Gauge (N : Type 0) : Type 0 where
  pub name : String
  pub help : String
  pub value : N
  pub labels : Labels

module _ {N : Type 0} (nums : Numbers N) where
  abbrev pub flush_counter : Counter N × MetricsService N → Counter N × MetricsService N
  flush_counter (c, s) = (c, update_samples c.name (single c.labels c.value) s)

  unfoldable pub new_counter : String → String → N → MetricsService N → Counter N × MetricsService N
  new_counter name help value s = (
    record { name = name; help = help; value = value; labels = [] },
    register_metric name help counter s,
  )

  unfoldable pub counter_child :
      Labels → Counter N × MetricsService N → Counter N × MetricsService N
  counter_child partial (c, s) =
      let (d, t) = new_counter c.name c.help c.value s in
      (record d { labels = spread c.labels partial }, t)

  unfoldable pub inc_counter : N → Counter N × MetricsService N → Counter N × MetricsService N
  inc_counter by (c, s) = flush_counter (record c { value = nums.add c.value by }, s)

  unfoldable pub reset_counter : Counter N × MetricsService N → Counter N × MetricsService N
  reset_counter (c, s) = flush_counter (record c { value = nums.zero_of }, s)

  abbrev pub flush_gauge : Gauge N × MetricsService N → Gauge N × MetricsService N
  flush_gauge (g, s) = (g, update_samples g.name (single g.labels g.value) s)

  unfoldable pub new_gauge : String → String → MetricsService N → Gauge N × MetricsService N
  new_gauge name help s = flush_gauge (
    record { name = name; help = help; value = nums.zero_of; labels = [] },
    register_metric name help gauge s,
  )

  unfoldable pub gauge_child : Labels → Gauge N × MetricsService N → Gauge N × MetricsService N
  gauge_child partial (g, s) =
      let (d, t) = new_gauge g.name g.help s in
      (record d { labels = spread g.labels partial; value = g.value }, t)

  unfoldable pub set_gauge : N → Gauge N × MetricsService N → Gauge N × MetricsService N
  set_gauge v (g, s) = flush_gauge (record g { value = v }, s)

  unfoldable pub inc_gauge : N → Gauge N × MetricsService N → Gauge N × MetricsService N
  inc_gauge by (g, s) = flush_gauge (record g { value = nums.add g.value by }, s)

  unfoldable pub dec_gauge : N → Gauge N × MetricsService N → Gauge N × MetricsService N
  dec_gauge by (g, s) = flush_gauge (record g { value = nums.sub g.value by }, s)
