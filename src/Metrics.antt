-- ===== src/Metrics.antt =====
-- src/observability/metrics.ts: the counters. Times are whole milliseconds.
pub mod Totals
pub mod Prometheus
mod Tests
use morpheus_proxy.Prelude.{
  ℕ, suc, ◌+◌, ◌≡◌, refl, Bool, true, false, Option, none, some, List, [], ◌∷◌, Text, js, text_eq,
  lookup, insert, leb, if◌then◌else◌, arith, Bool-cases, inl, inr,
}

unfoldable pub latency_buckets_ms : List ℕ
latency_buckets_ms = 5 ∷ 10 ∷ 25 ∷ 50 ∷ 100 ∷ 250 ∷ 500 ∷ 1000 ∷ 2500 ∷ 5000 ∷ []

abbrev pub Counts : Type 0
Counts = List (Text × ℕ)

pub record MetricsRegistry : Type 0 where
  pub requests_by_outcome : Counts
  pub rule_hits : Counts
  pub fault_injections : ℕ
  pub script_errors : ℕ
  pub reflection_imports : Counts
  pub latency_counts : List ℕ
  pub latency_inf : ℕ
  pub latency_total_ms : ℕ
  pub latency_count : ℕ

abbrev pub or_zero : Option ℕ → ℕ
or_zero none = 0
or_zero (some n) = n

-- map.set(key, (map.get(key) ?? 0) + 1)
unfoldable pub count_up : Text → Counts → Counts
count_up key counts = insert key (or_zero (lookup key counts) + 1) counts

unfoldable pub count_all : List Text → Counts → Counts
unfolding count_up
count_all [] counts = counts
count_all (id ∷ ids) counts = count_all ids (count_up id counts)

-- The count of the first bucket that holds the time goes up, or else the count of the overflow.
unfoldable pub count_bucket : ℕ → (buckets counts : List ℕ) → (inf : ℕ) → List ℕ × ℕ
count_bucket ms [] counts inf = (counts, inf + 1)
count_bucket ms (b ∷ buckets) [] inf = ([], inf)
count_bucket ms (b ∷ buckets) (n ∷ counts) inf =
    let (rest, inf') = count_bucket ms buckets counts inf in
    if leb ms b then ((n + 1) ∷ counts, inf) else (n ∷ rest, inf')

unfoldable pub record_latency : Option ℕ → MetricsRegistry → MetricsRegistry
unfolding count_bucket latency_buckets_ms
record_latency none m = m
record_latency (some ms) m =
    let (counts, inf) = count_bucket ms latency_buckets_ms m.latency_counts m.latency_inf in
    record m {
      latency_total_ms = m.latency_total_ms + ms;
      latency_count = m.latency_count + 1;
      latency_counts = counts;
      latency_inf = inf;
    }

unfoldable pub record_request : Text → List Text → Option ℕ → MetricsRegistry → MetricsRegistry
unfolding count_up count_all record_latency
record_request outcome rule_ids ms m = record_latency ms (record m {
  requests_by_outcome = count_up outcome m.requests_by_outcome;
  rule_hits = count_all rule_ids m.rule_hits;
  fault_injections =
      if text_eq outcome (js "fault") then m.fault_injections + 1 else m.fault_injections;
})

unfoldable pub record_script_error : MetricsRegistry → MetricsRegistry
record_script_error m = record m { script_errors = m.script_errors + 1 }

unfoldable pub record_reflection_import : Text → MetricsRegistry → MetricsRegistry
unfolding count_up
record_reflection_import result m = record m {
  reflection_imports = count_up result m.reflection_imports;
}

abbrev pub empty_metrics : MetricsRegistry
empty_metrics = record {
  requests_by_outcome = [];
  rule_hits = [];
  fault_injections = 0;
  script_errors = 0;
  reflection_imports = [];
  latency_counts = 0 ∷ 0 ∷ 0 ∷ 0 ∷ 0 ∷ 0 ∷ 0 ∷ 0 ∷ 0 ∷ 0 ∷ [];
  latency_inf = 0;
  latency_total_ms = 0;
  latency_count = 0;
}

-- A call that records something.
pub data Recording : Type 0 where
  request : (outcome : Text) (rule_ids : List Text) (upstream_ms : Option ℕ) → Recording
  script_error : Recording
  reflection_import : (result : Text) → Recording

unfoldable pub recorded : List Recording → MetricsRegistry → MetricsRegistry
unfolding record_request record_script_error record_reflection_import
recorded [] m = m
recorded (request outcome rule_ids ms ∷ rs) m = recorded rs (record_request outcome rule_ids ms m)
recorded (script_error ∷ rs) m = recorded rs (record_script_error m)
recorded (reflection_import result ∷ rs) m = recorded rs (record_reflection_import result m)
