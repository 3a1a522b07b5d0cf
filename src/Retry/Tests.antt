-- ===== src/Retry/Tests.antt =====
-- Inputs at which the hypotheses of the theorems on retry_utils.c hold.
use mbed_ce_client_for_azure.Base.{◌+◌, ◌*◌, ◌≤◌, ◌≡◌, arith, refl}
use mbed_ce_client_for_azure.Retry.{backoff_ms, jittered_secs, retry_delay_calculator}
use mbed_ce_client_for_azure.Retry.Bounds.{retry_delay_bounds}

retry_delay_bounds_example :
    (100 + 15 ≤ retry_delay_calculator 100 3 7 15 2 1000 3600 5)
    × (100 * retry_delay_calculator 100 3 7 15 2 1000 3600 5 ≤ 100 * (100 + 15) + 3600 * (100 + 5))
retry_delay_bounds_example = retry_delay_bounds 100 3 7 15 2 1000 3600 5 (omega arith) (omega arith)

-- The second retry, after 4 seconds and a jitter that is cut off.
delay_of_four : retry_delay_calculator 100 3 7 15 2 1000 3600 5 ≡ 119
unfolding retry_delay_calculator jittered_secs backoff_ms
delay_of_four = refl
