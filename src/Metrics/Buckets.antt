-- ===== src/Metrics/Buckets.antt =====
-- The buckets that `PrometheusMetrics.export` writes.
use fuzzy_octo_train.Prelude.{
  string_eq, nat_eq, ℕ, ◌+◌, true, ◌&&◌, List, [], ◌∷◌, Dict, get_or, put, contains, Distinct, ◌≡◌,
  ◌==◌, refl, ◌∙◌, ap, arith, count, leb_ℤ, ℤ, pos, if◌then◌else◌, get-put, ==_iff, ==_refl,
  Bool-cases, inl, inr,
}
use fuzzy_octo_train.Metrics.{
  zero_counts, count_observation, count_observations, cumulate, exported_buckets,
}

-- How many observations are at or below a bound: what Prometheus expects for a bucket.
abbrev pub at_most : List ℤ → ℕ → ℕ
at_most observations bucket = count (λ obs. leb_ℤ obs (pos bucket)) observations

-- The sums of these numbers, over each bucket and the ones before it.
abbrev pub summed : List ℤ → List ℕ → (before : ℕ) → List (ℕ × ℕ)
summed observations [] before = []
summed observations (bucket ∷ buckets) before =
    let total = before + at_most observations bucket in
    (bucket, total) ∷ summed observations buckets total

get_or-put :
    (counts : Dict ℕ ℕ) (k j n : ℕ)
    → get_or (put counts k n) j 0 ≡ (if k == j then n else get_or counts j 0)
get_or-put counts k j n = ground (arith, get-put counts k j n)

get_or-zero_counts :
    (buckets : List ℕ) (counts : Dict ℕ ℕ) (b : ℕ)
    → get_or (zero_counts buckets counts) b 0
      ≡ (if contains buckets b then 0 else get_or counts b 0)
get_or-zero_counts [] counts b = refl
get_or-zero_counts (bucket ∷ buckets) counts b =
    ground (arith, get_or-zero_counts buckets (put counts bucket 0) b, get_or-put counts bucket b 0)

get_or-count_observation :
    (buckets : List ℕ) (obs : ℤ) (counts : Dict ℕ ℕ) (b : ℕ)
    → Distinct buckets
    → get_or (count_observation buckets obs counts) b 0
      ≡ get_or counts b 0 + (if contains buckets b && leb_ℤ obs (pos b) then 1 else 0)
unfolding count_observation
get_or-count_observation [] obs counts b d = ground arith
get_or-count_observation (bucket ∷ buckets) obs counts b d =
    elim (Bool-cases (leb_ℤ obs (pos bucket))) [
      | inl below ↦ rw below (
          get_or-count_observation buckets obs (put counts bucket (get_or counts bucket 0 + 1)) b
            d.1
          ∙ ground
              (arith, get_or-put counts bucket b (get_or counts bucket 0 + 1), ==_iff bucket b))
      | inr above ↦
          rw above
            (get_or-count_observation buckets obs counts b d.1 ∙ ground (arith, ==_iff bucket b))
    ]

get_or-count_observations :
    (buckets : List ℕ) (observations : List ℤ) (counts : Dict ℕ ℕ) (b : ℕ)
    → Distinct buckets
    → contains buckets b ≡ true
    → get_or (count_observations buckets observations counts) b 0
      ≡ get_or counts b 0 + at_most observations b
unfolding count_observations
get_or-count_observations buckets [] counts b d m = ground arith
get_or-count_observations buckets (obs ∷ observations) counts b d m = ground (
  arith,
  get_or-count_observations buckets observations (count_observation buckets obs counts) b d m,
  get_or-count_observation buckets obs counts b d,
)

cumulate_lem :
    (observations : List ℤ) (buckets : List ℕ) (counts : Dict ℕ ℕ) (before : ℕ)
    → ((b : ℕ) → contains buckets b ≡ true → get_or counts b 0 ≡ at_most observations b)
    → cumulate buckets counts before ≡ summed observations buckets before
unfolding cumulate
cumulate_lem observations [] counts before h = refl
cumulate_lem observations (bucket ∷ buckets) counts before h =
    rw (h bucket (ground (arith, ==_refl bucket))) (
      ap (◌∷◌ (bucket, before + at_most observations bucket)) (
        cumulate_lem observations buckets counts (before + at_most observations bucket)
          (λ b m. h b (ground arith))))

-- For each bucket of a histogram without repeated buckets, `export` writes not the number of
-- observations at or below its bound, but the sum of these numbers over the bucket and all buckets
-- before it.
pub exported_buckets_lem :
    (buckets : List ℕ) (observations : List ℤ)
    → Distinct buckets
    → exported_buckets buckets observations ≡ summed observations buckets 0
unfolding exported_buckets
exported_buckets_lem buckets observations d =
    cumulate_lem observations buckets
      (count_observations buckets observations (zero_counts buckets [])) 0
      (λ b m. ground (
        arith,
        get_or-count_observations buckets observations (zero_counts buckets []) b d m,
        get_or-zero_counts buckets [] b,
      ))
