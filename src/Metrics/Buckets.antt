-- ===== src/Metrics/Buckets.antt =====
-- What the buckets of a histogram count.
use mathlib.Core.Path.{fun_ext}
use mathlib.Core.List.{reverse, reverse-cons}
use secret_rotation_kit.Prelude.{
  ℕ, zero, suc, ◌+◌, ◌<>◌, ◌≡◌, ◌≢◌, refl, ◌∙◌, sym, ap, inl, inr, List, [], ◌∷◌, ◌++◌, String,
  string_eq, if◌then◌else◌, length, map, arith, All, subst, subst₂, append_assoc, Bool-cases,
}
use secret_rotation_kit.Map
use secret_rotation_kit.Map.{get-set, get-set_self}
use secret_rotation_kit.Sort.{sort}
use secret_rotation_kit.Metrics.Samples.{Shows, write_all-Shows, registered-Shows, reports-Shows}
use secret_rotation_kit.Metrics.{Numbers, MetricSample, MetricsService, single, update_samples}
use secret_rotation_kit.Metrics.Histograms.{
  Histogram, bucket_samples, counted, flush_histogram, new_histogram, observe_histogram,
}

module _ {N : Type 0} (nums : Numbers N) where
  -- What comes to a service in which a histogram is registered: an observation of the histogram, or
  -- samples of another instrument.
  pub data Happening : Type 0 where
    observes : N → Happening
    reports : String → List (MetricSample N) → Happening

  abbrev pub IsApart : String → Happening → Type 0
  IsApart name (observes v) = Unit
  IsApart name (reports other samples) =
      (other ≢ name <> "_bucket") × (other ≢ name <> "_sum") × (other ≢ name <> "_count")

  abbrev pub happens : Happening → Histogram N × MetricsService N → Histogram N × MetricsService N
  happens (observes v) p = observe_histogram nums v p
  happens (reports other samples) (h, s) = (h, update_samples other samples s)

  unfoldable pub happen :
      List Happening → Histogram N × MetricsService N → Histogram N × MetricsService N
  happen [] p = p
  happen (e ∷ es) p = happen es (happens e p)

  abbrev pub observed : List Happening → List N
  observed [] = []
  observed (observes v ∷ es) = v ∷ observed es
  observed (reports other samples ∷ es) = observed es

  abbrev pub added : N → List N → N
  added sum [] = sum
  added sum (v ∷ vs) = added (nums.add sum v) vs

  -- The number that n additions of 1 give.
  abbrev pub numeral : ℕ → N
  numeral zero = nums.zero_of
  numeral (suc n) = nums.add (numeral n) nums.one_of

  -- The reference: how many observations are at most a bound.
  abbrev pub count_upto : N → List N → ℕ
  count_upto b [] = 0
  count_upto b (v ∷ vs) = (if nums.leq v b then 1 else 0) + count_upto b vs

  abbrev pub bucket_sample : N → ℕ → MetricSample N
  bucket_sample b n = record { labels = ("le", nums.show b) ∷ []; value = numeral n }

  -- One more for the bounds that an observation is at most.
  abbrev bump : (N → ℕ) → N → N → ℕ
  bump n v b = if nums.leq v b then suc (n b) else n b

  abbrev counts : (N → ℕ) → List N → N → ℕ
  counts n [] = n
  counts n (v ∷ vs) = counts (bump n v) vs

  counts-eq : (n : N → ℕ) (vs : List N) (b : N) → counts n vs b ≡ n b + count_upto b vs
  counts-eq n [] b = omega arith
  counts-eq n (v ∷ vs) b = ground (arith, counts-eq (bump n v) vs b)

  counted-map :
      (v : N) (n : N → ℕ) (bs : List N)
      → counted nums v bs (map (λ b. numeral (n b)) bs) ≡ map (λ b. numeral (bump n v b)) bs
  counted-map v n [] = refl
  counted-map v n (b ∷ bs) = elim (Bool-cases (nums.leq v b)) [
    | inl e ↦ rw (e, counted-map v n bs) refl
    | inr e ↦ rw (e, counted-map v n bs) refl
  ]

  bucket_samples-reverse :
      (n : N → ℕ) (bs : List N) (later : List (MetricSample N))
      → bucket_samples nums [] bs (map (λ b. numeral (n b)) bs) later
        ≡ reverse (map (λ b. bucket_sample b (n b)) bs) ++ later
  unfolding Map.set
  bucket_samples-reverse n [] later = refl
  bucket_samples-reverse n (b ∷ bs) later =
      bucket_samples-reverse n bs (bucket_sample b (n b) ∷ later)
      ∙ sym (
          append_assoc (reverse (map (λ c. bucket_sample c (n c)) bs)) (bucket_sample b (n b) ∷ [])
            later)
      ∙ ap (λ z. z ++ later)
          (sym (reverse-cons (bucket_sample b (n b)) (map (λ c. bucket_sample c (n c)) bs)))

  -- What is reported of the buckets: the greatest bound first, and all observations at the end.
  abbrev pub bucket_report : List N → (N → ℕ) → ℕ → List (MetricSample N)
  bucket_report bounds n k =
      reverse (map (λ b. bucket_sample b (n b)) bounds)
      ++ (record { labels = ("le", "+Inf") ∷ []; value = numeral k }) ∷ []

  module _ (name help : String) (bounds : List N) where
    abbrev state : (N → ℕ) → N → ℕ → Histogram N
    state n total k = record {
      name = name;
      help = help;
      buckets = bounds;
      cumulative = map (λ b. numeral (n b)) bounds;
      sum = total;
      count = numeral k;
      labels = [];
    }

    abbrev Reports : (N → ℕ) → N → ℕ → MetricsService N → Type 0
    Reports n total k =
        Shows name help (bucket_report bounds n k) (single [] total) (single [] (numeral k))

    flush-Reports :
        (n : N → ℕ) (total : N) (k : ℕ) (x y z : List (MetricSample N)) (s : MetricsService N)
        → Shows name help x y z s
        → Reports n total k (flush_histogram nums (state n total k, s)).1
    unfolding flush_histogram Map.set
    flush-Reports n total k x y z s w =
        rw (← bucket_samples-reverse n bounds (single (("le", "+Inf") ∷ []) (numeral k)))
          (write_all-Shows name help x y z _ _ _ s w)

    observe-state :
        (n : N → ℕ) (total : N) (k : ℕ) (v : N) (s : MetricsService N)
        → observe_histogram nums v (state n total k, s)
          ≡ flush_histogram nums (state (bump n v) (nums.add total v) (suc k), s)
    unfolding observe_histogram
    observe-state n total k v s =
        ap
          (λ c.
            flush_histogram nums
              (record (state n (nums.add total v) (suc k)) { cumulative = c }, s))
          (counted-map v n bounds)

    happen-Reports :
        (es : List Happening) (n : N → ℕ) (total : N) (k : ℕ) (s : MetricsService N)
        → All (IsApart name) es
        → Reports n total k s
        → Reports
            (counts n (observed es))
            (added total (observed es))
            (length (observed es) + k)
            (happen es (state n total k, s)).1
    unfolding happen flush_histogram
    happen-Reports [] n total k s a w = let e : 0 + k ≡ k = omega arith in rw e w
    happen-Reports (observes v ∷ es) n total k s a w =
        let e : suc (length (observed es)) + k ≡ length (observed es) + suc k = omega arith in
        rw e (
          subst
            (λ q.
              Reports (counts (bump n v) (observed es)) (added (nums.add total v) (observed es))
                (length (observed es) + suc k) (happen es q).1)
            (sym (observe-state n total k v s))
            (happen-Reports es (bump n v) (nums.add total v) (suc k)
              (flush_histogram nums (state (bump n v) (nums.add total v) (suc k), s)).1 a.1
              (flush-Reports (bump n v) (nums.add total v) (suc k) _ _ _ s w)))
    happen-Reports (reports other samples ∷ es) n total k s a w =
        happen-Reports es n total k (update_samples other samples s) a.1
          (reports-Shows name help _ _ _ other samples s a.0 w)

  -- Whatever comes to the service after a histogram has been registered, of observations and of samples of
  -- other instruments: it shows, for each bound of the histogram, from the greatest down in the order of the
  -- sort, how many of the observations are at most that bound, then how many there are, and under the other two
  -- names their sum and their number.
  pub histogram-Shows :
      (name help : String) (bounds : List N) (es : List Happening) (s : MetricsService N)
      → All (IsApart name) es
      → Shows name help
          (bucket_report
            (sort nums.leq bounds)
            (λ b. count_upto b (observed es))
            (length (observed es)))
          (single [] (added nums.zero_of (observed es)))
          (single [] (numeral (length (observed es))))
          (happen es (new_histogram nums name help bounds s)).1
  unfolding new_histogram flush_histogram
  histogram-Shows name help bounds es s a =
      let e : length (observed es) + 0 ≡ length (observed es) = omega arith in
      let c : counts (λ b. 0) (observed es) ≡ (λ b. count_upto b (observed es)) =
        fun_ext (λ b. counts-eq (λ b. 0) (observed es) b ∙ omega arith) in
      subst₂
        (λ n k.
          Shows name help (bucket_report (sort nums.leq bounds) n k)
            (single [] (added nums.zero_of (observed es))) (single [] (numeral k))
            (happen es (new_histogram nums name help bounds s)).1)
        c e
        (happen-Reports name help (sort nums.leq bounds) es (λ b. 0) nums.zero_of 0
          (new_histogram nums name help bounds s).1 a
          (flush-Reports name help (sort nums.leq bounds) (λ b. 0) nums.zero_of 0 [] [] [] _
            (registered-Shows name help s)))
