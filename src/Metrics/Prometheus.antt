-- ===== src/Metrics/Prometheus.antt =====
-- The printing of src/observability/metrics.ts.
use morpheus_proxy.Prelude.{ℕ, ◌+◌, List, [], ◌∷◌, ◌++◌, Text, String, js, map, to_string}
use morpheus_proxy.Prelude.{length, ◌≡◌, arith}
use morpheus_proxy.Metrics.Totals.{sum, Sorted}
use morpheus_proxy.Metrics.{MetricsRegistry, latency_buckets_ms}

-- `<name>{<label>="<key>"} <count>`
abbrev labelled : String → String → Text × ℕ → Text
labelled name label (key, count) =
    js name ++ js "{" ++ js label ++ js "=\"" ++ key ++ js "\"} " ++ to_string count

abbrev plain : String → ℕ → Text
plain name count = js name ++ js " " ++ to_string count

abbrev bucket_line : Text → ℕ → Text
bucket_line bucket count = labelled "morpheus_upstream_latency_ms_bucket" "le" (bucket, count)

-- The buckets with the counts up to each, and the sum of all. A missing count is 0.
unfoldable pub cumulative_lines : List ℕ → List ℕ → (cumulative : ℕ) → List Text × ℕ
cumulative_lines [] counts cumulative = ([], cumulative)
cumulative_lines (bucket ∷ buckets) [] cumulative =
    let (lines, sum) = cumulative_lines buckets [] cumulative in
    (bucket_line (to_string bucket) cumulative ∷ lines, sum)
cumulative_lines (bucket ∷ buckets) (count ∷ counts) cumulative =
    let (lines, sum) = cumulative_lines buckets counts (cumulative + count) in
    (bucket_line (to_string bucket) (cumulative + count) ∷ lines, sum)

abbrev join_lines : List Text → Text
join_lines [] = []
join_lines (line ∷ lines) = line ++ js "\n" ++ join_lines lines

unfoldable pub to_prometheus : ℕ → MetricsRegistry → Text
unfolding cumulative_lines
to_prometheus active_connections m =
    let (buckets, cumulative) = cumulative_lines latency_buckets_ms m.latency_counts 0 in
    join_lines (
      (js "# TYPE morpheus_requests_total counter"
        ∷ map (labelled "morpheus_requests_total" "outcome") m.requests_by_outcome)
      ++ (js "# TYPE morpheus_rule_hits_total counter"
          ∷ map (labelled "morpheus_rule_hits_total" "rule") m.rule_hits)
      ++ (js "# TYPE morpheus_fault_injections_total counter"
          ∷ plain "morpheus_fault_injections_total" m.fault_injections
          ∷ js "# TYPE morpheus_script_errors_total counter"
          ∷ plain "morpheus_script_errors_total" m.script_errors
          ∷ js "# TYPE morpheus_reflection_imports_total counter"
          ∷ map (labelled "morpheus_reflection_imports_total" "result") m.reflection_imports)
      ++ (js "# TYPE morpheus_active_connections gauge"
          ∷ plain "morpheus_active_connections" active_connections
          ∷ js "# TYPE morpheus_upstream_latency_ms histogram"
          ∷ buckets)
      ++ (bucket_line (js "+Inf") (cumulative + m.latency_inf)
          ∷ plain "morpheus_upstream_latency_ms_sum" m.latency_total_ms
          ∷ plain "morpheus_upstream_latency_ms_count" m.latency_count
          ∷ []))

cumulative_lines-sum :
    (buckets counts : List ℕ) (cumulative : ℕ)
    → length counts ≡ length buckets
    → (cumulative_lines buckets counts cumulative).1 ≡ cumulative + sum counts
unfolding cumulative_lines sum
cumulative_lines-sum [] [] cumulative h = omega arith
cumulative_lines-sum [] (n ∷ counts) cumulative h = absurd (omega (arith, h))
cumulative_lines-sum (b ∷ buckets) [] cumulative h = absurd (omega (arith, h))
cumulative_lines-sum (b ∷ buckets) (n ∷ counts) cumulative h =
    omega (arith, cumulative_lines-sum buckets counts (cumulative + n) (omega (arith, h)))

-- The last bucket that is printed has the count that is printed below it.
cumulative_lines-Sorted :
    (m : MetricsRegistry)
    → Sorted m
    → (cumulative_lines latency_buckets_ms m.latency_counts 0).1 + m.latency_inf ≡ m.latency_count
cumulative_lines-Sorted m h =
    omega (arith, h.0, cumulative_lines-sum latency_buckets_ms m.latency_counts 0 h.1)
