-- ===== src/Metrics/Tests.antt =====
-- The theorem about src/observability/metrics.ts at a concrete input.
use morpheus_proxy.Prelude.{some, List, [], ◌∷◌, js}
use morpheus_proxy.Metrics.{Recording, request, script_error, recorded, empty_metrics}
use morpheus_proxy.Metrics.Totals.{Balanced, recorded-empty_metrics-Balanced}

abbrev recordings : List Recording
recordings =
    request (js "fault") (js "a" ∷ []) (some 7)
    ∷ script_error
    ∷ request (js "mock") [] (some 9999)
    ∷ []

recorded-empty_metrics-Balanced_example : Balanced (recorded recordings empty_metrics)
recorded-empty_metrics-Balanced_example = recorded-empty_metrics-Balanced recordings
