-- ===== src/Metrics.antt =====
-- src/metrics/log_encoder.rs: the metrics of Prometheus as lines of the log. A floating-point number
-- is its bits, which the code only moves; the writers of JSON and of Base64 are parameters.
pub mod Histograms
pub mod Chunked
mod Tests
use cargo_website.Base.{
  ℕ, zero, suc, Bool, List, [], ◌∷◌, ◌++◌, map, Option, none, some, Result, ok, err, ◌>>=◌, ◌>>◌,
  guard, leb, if◌then◌else◌, length,
}
use cargo_website.Base.Text.{Text, codes, text_eq}
use cargo_website.Base.Words.{wsub}

abbrev pub F64 : Type 0
F64 = ℕ

pub data MetricType : Type 0 where
  counter gauge histogram summary untyped : MetricType

pub record Bucket : Type 0 where
  pub upper_bound : F64
  pub cumulative_count : ℕ

pub record Histogram : Type 0 where
  pub bucket : List Bucket
  pub sample_count : ℕ
  pub sample_sum : F64

pub record Metric : Type 0 where
  pub label : List (Text × Text)
  pub counter_value : F64
  pub gauge_value : F64
  pub histogram_value : Histogram

pub record MetricFamily : Type 0 where
  pub name : Text
  pub field_type : MetricType
  pub metric : List Metric

pub data VectorMetricData : Type 0 where
  aggregated_histogram : List F64 → List ℕ → ℕ → F64 → VectorMetricData
  counter_data gauge_data : F64 → VectorMetricData

pub record VectorMetric : Type 0 where
  pub data' : VectorMetricData
  pub kind : Text
  pub name : Text
  pub tags : List (Text × Text)

-- From cumulative counts to plain ones; the subtraction of a `u64` wraps in a release build.
unfoldable pub plain_counts : ℕ → List Bucket → List ℕ
unfolding wsub
plain_counts last_cumulative_count [] = []
plain_counts last_cumulative_count (b ∷ buckets) =
    wsub b.cumulative_count last_cumulative_count ∷ plain_counts b.cumulative_count buckets

-- `IndexMap::insert`: a key keeps its place and gets the later value.
unfoldable pub insert_tag : List (Text × Text) → Text × Text → List (Text × Text)
insert_tag [] (k, v) = (k, v) ∷ []
insert_tag ((j, w) ∷ tags) (k, v) =
    if text_eq j k then (j, v) ∷ tags else (j, w) ∷ insert_tag tags (k, v)

unfoldable pub collect_tags : List (Text × Text) → List (Text × Text) → List (Text × Text)
unfolding insert_tag
collect_tags tags [] = tags
collect_tags tags (l ∷ labels) = collect_tags (insert_tag tags l) labels

-- `none` for a type that is not supported: the encoder panics.
unfoldable pub data_of : MetricType → Metric → Option VectorMetricData
unfolding plain_counts
data_of counter m = some (counter_data m.counter_value)
data_of gauge m = some (gauge_data m.gauge_value)
data_of histogram m = some (
    aggregated_histogram (map (λ (b : Bucket). b.upper_bound) m.histogram_value.bucket)
      (plain_counts 0 m.histogram_value.bucket) m.histogram_value.sample_count
      m.histogram_value.sample_sum)
data_of _ m = none

unfoldable pub family_events : MetricFamily → List Metric → Option (List VectorMetric)
unfolding data_of collect_tags
family_events family [] = some []
family_events family (m ∷ ms) = elim (data_of family.field_type m) [
  | none ↦ none
  | some d ↦ elim (family_events family ms) [
    | none ↦ none
    | some events ↦ some (
        record {
          data' = d;
          kind = codes "absolute";
          name = family.name;
          tags = collect_tags [] m.label;
        }
        ∷ events)
  ]
]

unfoldable pub families_to_json_events : List MetricFamily → Option (List VectorMetric)
unfolding family_events
families_to_json_events [] = some []
families_to_json_events (family ∷ families) = elim (family_events family family.metric) [
  | none ↦ none
  | some events ↦ elim (families_to_json_events families) [
    | none ↦ none
    | some rest ↦ some (events ++ rest)
  ]
]

pub data Error : Type 0 where
  not_serializable out_of_fuel : Error

-- The writers: how many bytes have been written when these items of a chunk are serialized, which
-- items can be serialized, and the bytes of the chunk when it is ended.
pub record Serializer {ℓ} (A : Type ℓ) : Type ℓ where
  pub written_count : List A → ℕ
  pub serializes : A → Bool
  pub end : List A → Text

module _ {ℓ} {A : Type ℓ} where
  -- The inner loop: the items of a chunk, and those that are left.
  unfoldable pub fill_chunk : Serializer A → ℕ → List A → List A → Result Error (List A × List A)
  fill_chunk s max_size_hint chunk [] = ok (chunk, [])
  fill_chunk s max_size_hint chunk (item ∷ items) =
      let rest = fill_chunk s max_size_hint (chunk ++ item ∷ []) items in
      do
        guard (s.serializes item) not_serializable
        (if leb max_size_hint (s.written_count (chunk ++ item ∷ []))
            then ok (chunk ++ item ∷ [], items)
            else rest)

  -- The outer loop, with fuel for the number of chunks.
  unfoldable pub split_items : Serializer A → ℕ → ℕ → List A → Result Error (List (List A))
  unfolding fill_chunk
  split_items s max_size_hint fuel [] = ok []
  split_items s max_size_hint zero (item ∷ items) = err out_of_fuel
  split_items s max_size_hint (suc fuel) (item ∷ items) = do
    filled ← fill_chunk s max_size_hint [] (item ∷ items)
    chunks ← split_items s max_size_hint fuel filled.1
    ok (filled.0 ∷ chunks)

  -- Each chunk takes an item at least.
  unfoldable pub serialize_and_split_list : Serializer A → ℕ → List A → Result Error (List Text)
  unfolding split_items
  serialize_and_split_list s max_size_hint items = do
    chunks ← split_items s max_size_hint (length items) items
    ok (map s.end chunks)

abbrev pub chunks_max_size_bytes : ℕ
chunks_max_size_bytes = 5000

abbrev pub lines_of : List Text → Text
lines_of [] = []
lines_of (chunk ∷ chunks) =
    codes "crates-io-heroku-metrics:ingest " ++ chunk ++ codes "\n" ++ lines_of chunks

-- `none` for a panic.
unfoldable pub encode : Serializer VectorMetric → List MetricFamily → Option (Result Error Text)
unfolding families_to_json_events serialize_and_split_list
encode s families = elim (families_to_json_events families) [
  | none ↦ none
  | some events ↦
      some
        (do chunks ← serialize_and_split_list s chunks_max_size_bytes events; ok (lines_of chunks))
]
