-- ===== src/Messages/Strategy.antt =====
-- The retry strategy of d2c_messaging.cpp: what a status code of the hub means for the next attempt.
use mbed_ce_client_for_azure.Base.{ℕ, ◌*◌, Option, none, some, List, [], ◌∷◌}
use mbed_ce_client_for_azure.Retry.{retry_delay_calculator}

abbrev pub int_max : ℕ
int_max = 2147483647

abbrev pub default_initial_delay_ms : ℕ
default_initial_delay_ms = 1000

abbrev pub default_max_jitter_percent : ℕ
default_max_jitter_percent = 5

abbrev pub fatal_error_wait_time_sec : ℕ
fatal_error_wait_time_sec = 10

abbrev pub one_day_in_seconds : ℕ
one_day_in_seconds = 1 * 24 * 60 * 60

-- The time and the random number that a calculation reads.
pub record Clock : Type 0 where
  pub now : ℕ
  pub rand : ℕ
  pub rand_max : ℕ

-- ADUC_D2C_HttpStatus_Retry_Info. The function takes the additional delay, the retries, the initial
-- delay, the maximal delay and the maximal jitter.
pub record RetryInfo : Type 0 where
  pub http_status_min : ℕ
  pub http_status_max : ℕ
  pub additional_delay_secs : ℕ
  pub retry_timestamp_calc_func : Option (Clock → ℕ → ℕ → ℕ → ℕ → ℕ → ℕ)
  pub max_retry : ℕ

-- ADUC_D2C_RetryStrategy
pub record RetryStrategy : Type 0 where
  pub http_status_retry_info : List RetryInfo
  pub max_retries : ℕ
  pub max_delay_secs : ℕ
  pub fallback_wait_time_sec : ℕ
  pub initial_delay_unit_ms : ℕ
  pub max_jitter_percent : ℕ

unfoldable pub delay_calculator : Clock → ℕ → ℕ → ℕ → ℕ → ℕ → ℕ
delay_calculator c additional retries initial max jitter =
    retry_delay_calculator c.now c.rand c.rand_max additional retries initial max jitter

abbrev retry_info : ℕ → ℕ → ℕ → Option (Clock → ℕ → ℕ → ℕ → ℕ → ℕ → ℕ) → ℕ → RetryInfo
retry_info low high additional calc most = record {
  http_status_min = low;
  http_status_max = high;
  additional_delay_secs = additional;
  retry_timestamp_calc_func = calc;
  max_retry = most;
}

unfoldable pub default_http_status_retry_info : List RetryInfo
default_http_status_retry_info =
    retry_info 200 299 0 none 0
    ∷ retry_info 400 400 0 none 0
    ∷ retry_info 429 429 30 (some delay_calculator) int_max
    ∷ retry_info 413 413 30 (some delay_calculator) 0
    ∷ retry_info 400 499 5 (some delay_calculator) int_max
    ∷ retry_info 503 503 30 (some delay_calculator) int_max
    ∷ retry_info 500 599 30 (some delay_calculator) int_max
    ∷ retry_info 0 int_max 0 (some delay_calculator) int_max
    ∷ []

unfoldable pub default_retry_strategy : RetryStrategy
unfolding default_http_status_retry_info
default_retry_strategy = record {
  http_status_retry_info = default_http_status_retry_info;
  max_retries = int_max;
  max_delay_secs = one_day_in_seconds;
  fallback_wait_time_sec = 30;
  initial_delay_unit_ms = default_initial_delay_ms;
  max_jitter_percent = default_max_jitter_percent;
}
