-- ===== src/Metrics/Histograms.antt =====
-- The counts of a histogram as they are logged say the same as those of Prometheus.
use cargo_website.Base.{ℕ, ◌<◌, ◌≡◌, refl, ap, List, [], ◌∷◌, map, All, arith}
use cargo_website.Base.Words.{u64_mod, wadd, wsub}
use cargo_website.Metrics.{Bucket, plain_counts}

-- What Prometheus keeps: the sums of the counts up to each bucket.
abbrev pub cumulated : ℕ → List ℕ → List ℕ
cumulated total [] = []
cumulated total (n ∷ counts) = wadd total n ∷ cumulated (wadd total n) counts

wadd-wsub : (c l : ℕ) → c < u64_mod → l < u64_mod → wadd l (wsub c l) ≡ c
unfolding wadd wsub
wadd-wsub c l h k = omega arith

cumulated_from :
    (last : ℕ) (buckets : List Bucket)
    → last < u64_mod
    → All (λ (b : Bucket). b.cumulative_count < u64_mod) buckets
    → cumulated last (plain_counts last buckets) ≡ map (λ (b : Bucket). b.cumulative_count) buckets
unfolding plain_counts
cumulated_from last [] h k = refl
cumulated_from last (b ∷ buckets) h k =
    rw (wadd-wsub b.cumulative_count last k.0 h)
      (ap (λ z. b.cumulative_count ∷ z) (cumulated_from b.cumulative_count buckets k.0 k.1))

-- If the cumulative counts of the buckets fit 64 bits then the plain counts that are logged sum up to
-- them, bucket by bucket.
pub cumulated-plain_counts :
    (buckets : List Bucket)
    → All (λ (b : Bucket). b.cumulative_count < u64_mod) buckets
    → cumulated 0 (plain_counts 0 buckets) ≡ map (λ (b : Bucket). b.cumulative_count) buckets
cumulated-plain_counts buckets h = cumulated_from 0 buckets (omega arith) h
