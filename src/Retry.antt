-- ===== src/Retry.antt =====
-- mbed/COMPONENT_AZIOT_OTA/iot-hub-device-update_patch/utils/retry_utils: the delay before a retry.
-- The doubles of the source are exact fractions here, and a random number `rand ()` and RAND_MAX are
-- arguments. Delays and times are not negative, and sums of seconds do not overflow a `time_t`.
pub mod Bounds
mod Tests
use mbed_ce_client_for_azure.Base.{ℕ, ◌+◌, ◌*◌, ◌/◌, ◌^◌, min}

abbrev pub time_span_fifteen_seconds_in_seconds : ℕ
time_span_fifteen_seconds_in_seconds = 15

abbrev pub time_span_five_minutes_in_seconds : ℕ
time_span_five_minutes_in_seconds = 5 * 60

abbrev pub time_span_one_hour_in_seconds : ℕ
time_span_one_hour_in_seconds = 60 * 60

abbrev pub retry_default_initial_delay_ms : ℕ
retry_default_initial_delay_ms = 1000

abbrev pub retry_default_max_jitter_percent : ℕ
retry_default_max_jitter_percent = 5

abbrev pub retry_max_retry_exponent : ℕ
retry_max_retry_exponent = 9

-- `delay`, in milliseconds
unfoldable pub backoff_ms : (retries initial_delay_unit_ms max_delay_secs : ℕ) → ℕ
backoff_ms retries initial_delay_unit_ms max_delay_secs =
    min (2 ^ min retries retry_max_retry_exponent * initial_delay_unit_ms) (max_delay_secs * 1000)

-- (unsigned long)(delay * (1 + jitterPercent)), with
-- jitterPercent = maxJitterPercent / 100 * (rand / rand_max)
unfoldable pub jittered_secs : (delay_ms max_jitter_percent rand rand_max : ℕ) → ℕ
jittered_secs delay_ms max_jitter_percent rand rand_max =
    delay_ms * (100 * rand_max + max_jitter_percent * rand) / (100000 * rand_max)

unfoldable pub retry_delay_calculator :
    (now rand rand_max additional_delay_secs retries initial_delay_unit_ms max_delay_secs
      max_jitter_percent : ℕ)
    → ℕ
retry_delay_calculator now rand rand_max additional_delay_secs retries initial_delay_unit_ms
      max_delay_secs max_jitter_percent =
    now
    + additional_delay_secs
    + jittered_secs (backoff_ms retries initial_delay_unit_ms max_delay_secs) max_jitter_percent
        rand rand_max
