-- ===== src/Metrics/Samples.antt =====
-- What a service shows of a histogram.
use text.Mathlib.TextLemmas.{append_cancel_left}
use secret_rotation_kit.Prelude.{
  ◌<>◌, ◌≡◌, ◌≢◌, refl, ◌∙◌, false, inl, inr, some, List, [], String, ◌==◌, string_eq, eq_of_beq,
  beq_self, Bool-cases, Option-cases,
}
use secret_rotation_kit.Map
use secret_rotation_kit.Map.{get-set, get-set_self}
use secret_rotation_kit.Metrics.{
  MetricSample, MetricDefinition, MetricsService, histogram, register_metric, update_samples,
}

abbrev pub bucket_name : String → String
bucket_name name = name <> "_bucket"

abbrev pub sum_name : String → String
sum_name name = name <> "_sum"

abbrev pub count_name : String → String
count_name name = name <> "_count"

apart : (a b : String) → a ≢ b → (a == b) ≡ false
apart a b n = elim (Bool-cases (a == b)) [ inl e ↦ absurd (n (eq_of_beq a b e)) | inr e ↦ e ]

suffixes : (name a b : String) → a ≢ b → (name <> a == name <> b) ≡ false
suffixes name a b n = apart (name <> a) (name <> b) (λ e. n (append_cancel_left name a b e))

module _ {N : Type 0} where
  abbrev pub definition_of : String → String → List (MetricSample N) → MetricDefinition N
  definition_of name help samples = record {
    name = name;
    help = help;
    type = histogram;
    samples = samples;
  }

  -- A service shows, under the three names of a histogram, these samples.
  pub record Shows (name help : String) (buckets sum count : List (MetricSample N))
      (s : MetricsService N) : Type 0 where
    pub bucket :
        Map.get s (name <> "_bucket") ≡ some (definition_of (name <> "_bucket") help buckets)
    pub total : Map.get s (name <> "_sum") ≡ some (definition_of (name <> "_sum") help sum)
    pub number : Map.get s (name <> "_count") ≡ some (definition_of (name <> "_count") help count)

  -- A metric under another name.
  update_samples-other :
      (name other : String) (samples : List (MetricSample N)) (s : MetricsService N)
      → (name == other) ≡ false
      → Map.get (update_samples name samples s) other ≡ Map.get s other
  unfolding update_samples
  update_samples-other name other samples s n = elim (Option-cases (Map.get s name)) [
    | inl e ↦ rw (update_samples, e) refl
    | inr (d, e) ↦
        rw (update_samples, e) (rw (get-set s name other (record d { samples = samples }), n) refl)
  ]

  update_samples-same :
      (name help : String) (old samples : List (MetricSample N)) (s : MetricsService N)
      → Map.get s name ≡ some (definition_of name help old)
      → Map.get (update_samples name samples s) name ≡ some (definition_of name help samples)
  unfolding update_samples
  update_samples-same name help old samples s e = rw (update_samples, e) (get-set_self s name _)

  module _ (name help : String) where
    -- Writing the samples of the three names.
    pub write_all-Shows :
        (x y z x' y' z' : List (MetricSample N)) (s : MetricsService N)
        → Shows name help x y z s
        → Shows name help x' y' z' (
            update_samples
              (count_name name)
              z'
              (update_samples (sum_name name) y' (update_samples (bucket_name name) x' s)))
    write_all-Shows x y z x' y' z' s w = record {
      bucket =
          update_samples-other (count_name name) (bucket_name name) z' u (suffixes name _ _ cc)
          ∙ update_samples-other (sum_name name) (bucket_name name) y' t (suffixes name _ _ cc)
          ∙ update_samples-same (bucket_name name) help x x' s w.bucket;
      total =
          update_samples-other (count_name name) (sum_name name) z' u (suffixes name _ _ cc)
          ∙ update_samples-same (sum_name name) help y y' t (
              update_samples-other (bucket_name name) (sum_name name) x' s (suffixes name _ _ cc)
              ∙ w.total);
      number = update_samples-same (count_name name) help z z' u (
          update_samples-other (sum_name name) (count_name name) y' t (suffixes name _ _ cc)
          ∙ update_samples-other (bucket_name name) (count_name name) x' s (suffixes name _ _ cc)
          ∙ w.number);
    }
      where
        t : MetricsService N
        t = update_samples (bucket_name name) x' s

        u : MetricsService N
        u = update_samples (sum_name name) y' t

    pub registered-Shows :
        (s : MetricsService N)
        → Shows name help [] [] [] (
            register_metric (count_name name) help histogram (
              register_metric
                (sum_name name)
                help
                histogram
                (register_metric (bucket_name name) help histogram s)))
    unfolding register_metric
    registered-Shows s = record {
      bucket = simp (
        get-set,
        suffixes name "_count" "_bucket" cc,
        suffixes name "_sum" "_bucket" cc,
        beq_self,
      );
      total = simp (get-set, suffixes name "_count" "_sum" cc, beq_self);
      number = simp (get-set, beq_self);
    }

    -- The samples of another instrument.
    pub reports-Shows :
        (x y z : List (MetricSample N)) (other : String) (samples : List (MetricSample N))
        (s : MetricsService N)
        → (other ≢ (bucket_name name)) × (other ≢ (sum_name name)) × (other ≢ (count_name name))
        → Shows name help x y z s
        → Shows name help x y z (update_samples other samples s)
    reports-Shows x y z other samples s a w = record {
      bucket = update_samples-other other (bucket_name name) samples s (apart _ _ a.0) ∙ w.bucket;
      total = update_samples-other other (sum_name name) samples s (apart _ _ a.1) ∙ w.total;
      number = update_samples-other other (count_name name) samples s (apart _ _ a.2) ∙ w.number;
    }
