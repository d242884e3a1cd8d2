-- ===== src/Metrics/Totals.antt =====
-- The totals of the counters.
use morpheus_proxy.Prelude.{
  ℕ, suc, ◌+◌, ◌≡◌, refl, ◌∙◌, Option, none, some, List, [], ◌∷◌, Text, js, text_eq, text_eq_iff,
  lookup, lookup-insert, length, if◌then◌else◌, arith,
}
use morpheus_proxy.Metrics.{
  MetricsRegistry, Counts, Recording, request, script_error, reflection_import, or_zero, count_up,
  count_bucket, latency_buckets_ms, record_latency, record_request, record_script_error,
  record_reflection_import, recorded, empty_metrics,
}

unfoldable pub sum : List ℕ → ℕ
sum [] = 0
sum (n ∷ ns) = n + sum ns

abbrev pub Sorted : MetricsRegistry → Type 0
Sorted m =
    (sum m.latency_counts + m.latency_inf ≡ m.latency_count)
    × (length m.latency_counts ≡ length latency_buckets_ms)

count_bucket-sum :
    (ms : ℕ) (buckets counts : List ℕ) (inf : ℕ)
    → length counts ≡ length buckets
    → (sum (count_bucket ms buckets counts inf).0 + (count_bucket ms buckets counts inf).1
        ≡ suc (sum counts + inf))
      × (length (count_bucket ms buckets counts inf).0 ≡ length counts)
unfolding count_bucket sum
count_bucket-sum ms [] counts inf h = ground arith
count_bucket-sum ms (b ∷ buckets) [] inf h = absurd (omega arith)
count_bucket-sum ms (b ∷ buckets) (n ∷ counts) inf h =
    ground (arith, count_bucket-sum ms buckets counts inf (omega arith))

record_latency-Sorted :
    (ms : Option ℕ) (m : MetricsRegistry) → Sorted m → Sorted (record_latency ms m)
unfolding record_latency
record_latency-Sorted none m h = h
record_latency-Sorted (some ms) m h =
    let (p, q) = count_bucket-sum ms latency_buckets_ms m.latency_counts m.latency_inf h.1 in
    (omega (arith, p, h.0), q ∙ h.1)

count_up-lookup :
    (key other : Text) (counts : Counts)
    → or_zero (lookup other (count_up key counts))
      ≡ or_zero (lookup other counts) + (if text_eq key other then 1 else 0)
unfolding count_up
count_up-lookup key other counts =
    ground (
      arith,
      lookup-insert key other (or_zero (lookup key counts) + 1) counts,
      text_eq_iff key other,
    )

-- Every upstream latency is in one bucket, and every fault is counted among the outcomes.
abbrev pub Balanced : MetricsRegistry → Type 0
Balanced m = Sorted m × (or_zero (lookup (js "fault") m.requests_by_outcome) ≡ m.fault_injections)

record_request-faults :
    (outcome : Text) (ids : List Text) (ms : Option ℕ) (m : MetricsRegistry)
    → or_zero (lookup (js "fault") m.requests_by_outcome) ≡ m.fault_injections
    → or_zero (lookup (js "fault") (record_request outcome ids ms m).requests_by_outcome)
      ≡ (record_request outcome ids ms m).fault_injections
unfolding record_request record_latency
record_request-faults outcome ids none m h =
    ground (arith, count_up-lookup outcome (js "fault") m.requests_by_outcome)
record_request-faults outcome ids (some ms) m h =
    ground (arith, count_up-lookup outcome (js "fault") m.requests_by_outcome)

recorded-Balanced :
    (rs : List Recording) (m : MetricsRegistry) → Balanced m → Balanced (recorded rs m)
unfolding recorded record_request record_script_error record_reflection_import
recorded-Balanced [] m h = h
recorded-Balanced (request outcome rule_ids ms ∷ rs) m h =
    recorded-Balanced rs (record_request outcome rule_ids ms m)
      (record_latency-Sorted ms _ h.0, record_request-faults outcome rule_ids ms m h.1)
recorded-Balanced (script_error ∷ rs) m h = recorded-Balanced rs _ h
recorded-Balanced (reflection_import result ∷ rs) m h = recorded-Balanced rs _ h

-- After any recordings the bucket counts and the overflow count add up to the number of latencies, no
-- bucket is lost, and the fault injections are the requests whose outcome was a fault.
pub recorded-empty_metrics-Balanced : (rs : List Recording) → Balanced (recorded rs empty_metrics)
unfolding sum lookup latency_buckets_ms
recorded-empty_metrics-Balanced rs = recorded-Balanced rs empty_metrics ((refl, refl), refl)
