-- ===== src/Metrics/Tests.antt =====
-- A histogram of three buckets, and five items in chunks of six bytes or more.
use cargo_website.Base.{ℕ, ◌*◌, ◌≡◌, refl, true, List, [], ◌∷◌, map, some, ok, length, arith}
use cargo_website.Base.Text.{codes, text_eq}
use cargo_website.Base.Words.{wsub}
use cargo_website.Metrics.{
  Bucket, MetricFamily, histogram, aggregated_histogram, Serializer, plain_counts, insert_tag,
  collect_tags, data_of, family_events, families_to_json_events, fill_chunk, split_items,
  serialize_and_split_list,
}
use cargo_website.Metrics.Histograms.{cumulated, cumulated-plain_counts}
use cargo_website.Metrics.Chunked.{concat, AreChunks, serialize_and_split_list-AreChunks}

abbrev buckets : List Bucket
buckets =
    record { upper_bound = 1; cumulative_count = 4 }
    ∷ record { upper_bound = 2; cumulative_count = 4 }
    ∷ record { upper_bound = 3; cumulative_count = 9 }
    ∷ []

abbrev response_times : MetricFamily
response_times = record {
  name = codes "times";
  field_type = histogram;
  metric =
      record {
        label = (codes "a", codes "1") ∷ (codes "b", codes "2") ∷ (codes "a", codes "3") ∷ [];
        counter_value = 0;
        gauge_value = 0;
        histogram_value = record { bucket = buckets; sample_count = 9; sample_sum = 20 };
      }
      ∷ [];
}

one_event :
    families_to_json_events (response_times ∷ [])
    ≡ some (
        record {
          data' = aggregated_histogram (1 ∷ 2 ∷ 3 ∷ []) (4 ∷ 0 ∷ 5 ∷ []) 9 20;
          kind = codes "absolute";
          name = codes "times";
          tags = (codes "a", codes "3") ∷ (codes "b", codes "2") ∷ [];
        }
        ∷ [])
unfolding families_to_json_events family_events data_of plain_counts wsub collect_tags insert_tag
    text_eq
one_event = refl

cumulated-plain_counts_example : cumulated 0 (plain_counts 0 buckets) ≡ 4 ∷ 4 ∷ 9 ∷ []
cumulated-plain_counts_example =
    cumulated-plain_counts buckets (omega arith, (omega arith, (omega arith, tt)))

abbrev three_bytes : Serializer ℕ
three_bytes = record {
  written_count = λ items. 3 * length items;
  serializes = λ _. true;
  end = λ items. items;
}

abbrev numbers : List ℕ
numbers = 1 ∷ 2 ∷ 3 ∷ 4 ∷ 5 ∷ []

three_chunks :
    serialize_and_split_list three_bytes 6 numbers
    ≡ ok ((1 ∷ 2 ∷ []) ∷ (3 ∷ 4 ∷ []) ∷ (5 ∷ []) ∷ [])
unfolding serialize_and_split_list split_items fill_chunk
three_chunks = refl

serialize_and_split_list-AreChunks_example :
    (chunks : List (List ℕ)) × (serialize_and_split_list three_bytes 6 numbers
      ≡ ok (map (λ items. items) chunks))
    × (concat chunks ≡ numbers)
    × AreChunks three_bytes 6 chunks
serialize_and_split_list-AreChunks_example =
    serialize_and_split_list-AreChunks three_bytes 6 numbers refl
