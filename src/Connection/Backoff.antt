-- ===== src/Connection/Backoff.antt =====
-- When the connection manager of iothub_communication_manager.c tries to authenticate: runs of the
-- maintenance and of the status callback, with a clock that does not go back.
use mbed_ce_client_for_azure.Base.{
  ℕ, ◌+◌, ◌≤◌, ◌<◌, ◌%◌, ◌^◌, false, some, List, ◌≡◌, ◌≢◌, refl, ◌∙◌, [], arith, ok, inl, inr, ◌⊎◌,
}
use mbed_ce_client_for_azure.Retry.{
  retry_delay_calculator, time_span_one_hour_in_seconds, retry_default_initial_delay_ms,
  retry_default_max_jitter_percent,
}
use mbed_ce_client_for_azure.Retry.Bounds.{retry_delay_bounds}
use mbed_ce_client_for_azure.Connection.{
  Manager, Status, Reason, retry_expired, expired_sas_token, bad_credential, device_disabled,
  no_ping_response, no_network, communication_error, connection_ok, unhandled, Call,
  connection_status_callback, is_authenticated,
}
use mbed_ce_client_for_azure.Connection.Maintenance.{
  Environment, Decision, leave, schedule, attempt, decide, connection_maintenance, refresh,
  additional_delay,
}
use mbed_ce_client_for_azure.Connection.Maintenance.Refresh.{refresh-SameTimes}

-- One call of the maintenance, or one of the status callback, at a time not before the last one.
pub data Step (c : ℕ) (m : Manager) : ℕ → Manager → Type 0 where
  maintain :
      (env : Environment) {m' : Manager} (calls : List Call)
      → c ≤ env.now
      → connection_maintenance env m ≡ ok (m', calls)
      → Step c m env.now m'
  status :
      (now : ℕ) (s : Status) (r : Reason)
      → c ≤ now
      → Step c m now (connection_status_callback now s r m)

pub data Reached (c : ℕ) (m : Manager) : ℕ → Manager → Type 0 where
  here : Reached c m c m
  next : {d e : ℕ} {m' m'' : Manager} → Reached c m d m' → Step d m' e m'' → Reached c m e m''

-- The last attempt is not in the future, and a time that is set for the next one lies 15 seconds
-- behind it.
pub record IsSpaced (c : ℕ) (m : Manager) : Type 0 where
  pub past : m.last_authentication_attempt_time ≤ c
  pub apart :
      m.last_authentication_attempt_time < m.next_authentication_attempt_time
      → m.last_authentication_attempt_time + 15 ≤ m.next_authentication_attempt_time

decide-schedule :
    (now rand rand_max t : ℕ) (m : Manager) → decide now rand rand_max m ≡ schedule t → now + 15 ≤ t
unfolding decide additional_delay retry_delay_calculator
decide-schedule now rand rand_max t m h = ground arith

decide-attempt :
    (now rand rand_max : ℕ) (m : Manager)
    → decide now rand rand_max m ≡ attempt
    → (m.next_authentication_attempt_time ≤ now)
      × ((m.last_authentication_attempt_time ≡ 0)
          ⊎ (m.last_authentication_attempt_time < m.next_authentication_attempt_time))
unfolding decide
decide-attempt now rand rand_max m h = ground arith

attempted :
    (env : Environment) (m m' : Manager) (calls : List Call)
    → decide env.now env.rand env.rand_max m ≡ attempt
    → connection_maintenance env m ≡ ok (m', calls)
    → (m'.last_authentication_attempt_time ≡ env.now)
      × (m'.next_authentication_attempt_time ≡ m.next_authentication_attempt_time)
      × (m'.authentication_retries ≡ (m.authentication_retries + 1) % 2 ^ 32)
unfolding connection_maintenance
attempted env m m' calls chosen h =
    let started = record m {
      last_authentication_attempt_time = env.now;
      authentication_retries = (m.authentication_retries + 1) % 2 ^ 32;
    } in
    let same = refresh-SameTimes env started m' calls (ground (arith, h)) in ground (arith, same)

maintain-IsSpaced :
    (c : ℕ) (m : Manager) (env : Environment) (m' : Manager) (calls : List Call)
    → IsSpaced c m
    → c ≤ env.now
    → connection_maintenance env m ≡ ok (m', calls)
    → IsSpaced env.now m'
unfolding connection_maintenance
maintain-IsSpaced c m env m' calls spaced later h =
    elim (decision (decide env.now env.rand env.rand_max m)) [
      | inl idle ↦ ground (arith, spaced.past, spaced.apart)
      | inr (inl (t, planned)) ↦
          ground (arith, decide-schedule env.now env.rand env.rand_max t m planned)
      | inr (inr chosen) ↦
          let after = attempted env m m' calls chosen h in
          let due = decide-attempt env.now env.rand env.rand_max m chosen in
          ground (arith, after, due)
    ]
  where
    decision : (d : Decision) → (d ≡ leave) ⊎ (((t : ℕ) × (d ≡ schedule t)) ⊎ (d ≡ attempt))
    decision leave = inl refl
    decision (schedule t) = inr (inl (t, refl))
    decision attempt = inr (inr refl)

-- Each step keeps the spacing.
pub Step-IsSpaced : {c d : ℕ} {m m' : Manager} → IsSpaced c m → Step c m d m' → IsSpaced d m'
unfolding connection_status_callback
Step-IsSpaced {c} {m} spaced (maintain env {m' = m'} calls later h) =
    maintain-IsSpaced c m env m' calls spaced later h
Step-IsSpaced spaced (status now s r later) = ground (arith, spaced.past, spaced.apart)

pub Reached-IsSpaced :
    {c : ℕ} {m : Manager} {d : ℕ} {m' : Manager} → IsSpaced c m → Reached c m d m' → IsSpaced d m'
Reached-IsSpaced spaced here = spaced
Reached-IsSpaced spaced (next r s) = Step-IsSpaced (Reached-IsSpaced spaced r) s

-- From a manager whose last attempt is not in the future and has no time set for the next one
-- within 15 seconds behind it, however the maintenance and the status callback follow one another
-- while the clock does not go back: an attempt to authenticate is made only without an
-- authenticated connection, and at least 15 seconds after the attempt before it, if there is one.
pub attempts_spaced :
    {c d : ℕ} {m m' : Manager} (now rand rand_max : ℕ)
    → IsSpaced c m
    → Reached c m d m'
    → d ≤ now
    → decide now rand rand_max m' ≡ attempt
    → (is_authenticated m' ≡ false)
      × (m'.last_authentication_attempt_time ≢ 0 → m'.last_authentication_attempt_time + 15 ≤ now)
unfolding decide
attempts_spaced {m'} now rand rand_max start r later chosen =
    let spaced = Reached-IsSpaced start r in
    let due = decide-attempt now rand rand_max m' chosen in
    (ground (arith, chosen), λ before. ground (arith, due, spaced.past, spaced.apart))

delay_bounds :
    (r : Reason)
    → r ≢ connection_ok
    → (d : ℕ) × (additional_delay r ≡ some d) × (15 ≤ d) × (d ≤ 3600)
unfolding additional_delay
delay_bounds retry_expired h = (15, refl, omega arith, omega arith)
delay_bounds expired_sas_token h = (15, refl, omega arith, omega arith)
delay_bounds bad_credential h = (15, refl, omega arith, omega arith)
delay_bounds device_disabled h = (3600, refl, omega arith, omega arith)
delay_bounds no_ping_response h = (300, refl, omega arith, omega arith)
delay_bounds no_network h = (300, refl, omega arith, omega arith)
delay_bounds communication_error h = (300, refl, omega arith, omega arith)
delay_bounds connection_ok h = absurd (h refl)
delay_bounds unhandled h = (15, refl, omega arith, omega arith)

decide-scheduled :
    (now rand rand_max d : ℕ) (m : Manager)
    → is_authenticated m ≡ false
    → m.last_authentication_attempt_time ≢ 0
    → m.next_authentication_attempt_time ≤ m.last_authentication_attempt_time
    → m.last_authentication_attempt_time ≤ now
    → additional_delay m.connection_status_reason ≡ some d
    → decide now rand rand_max m
      ≡ schedule (
          retry_delay_calculator now rand rand_max d m.authentication_retries
            retry_default_initial_delay_ms time_span_one_hour_in_seconds
            retry_default_max_jitter_percent)
unfolding decide
decide-scheduled now rand rand_max d m broken tried old past is = ground arith

still :
    (m : Manager) (t : ℕ)
    → is_authenticated (record m { next_authentication_attempt_time = t }) ≡ is_authenticated m
unfolding is_authenticated
still m t = refl

decide-due :
    (now rand rand_max : ℕ) (m : Manager)
    → is_authenticated m ≡ false
    → m.last_authentication_attempt_time < m.next_authentication_attempt_time
    → m.next_authentication_attempt_time ≤ now
    → decide now rand rand_max m ≡ attempt
unfolding decide is_authenticated
decide-due now rand rand_max m broken gap h = ground (arith, broken)

maintained-schedule :
    (env : Environment) (m : Manager) (t : ℕ)
    → decide env.now env.rand env.rand_max m ≡ schedule t
    → connection_maintenance env m ≡ ok (record m { next_authentication_attempt_time = t }, [])
unfolding connection_maintenance
maintained-schedule env m t h = ground (arith, h)

maintained-attempt :
    (env : Environment) (m : Manager)
    → decide env.now env.rand env.rand_max m ≡ attempt
    → connection_maintenance env m
      ≡ refresh env (record m {
        last_authentication_attempt_time = env.now;
        authentication_retries = (m.authentication_retries + 1) % 2 ^ 32;
      })
unfolding connection_maintenance
maintained-attempt env m h = ground (arith, h)

-- After a failed attempt, which is not in the future and has no time set for the next one, while
-- the connection is not authenticated and its reason is not "OK", the next call of the maintenance
-- changes nothing but the time that is set, to one from 15 seconds to two hours and three minutes ahead, and
-- every call at that time or later, in that state, tries again: it notes the time and the retry, and
-- refreshes the connection.
pub attempt_follows :
    (env : Environment) (m : Manager)
    → is_authenticated m ≡ false
    → m.last_authentication_attempt_time ≢ 0
    → m.next_authentication_attempt_time ≤ m.last_authentication_attempt_time
    → m.last_authentication_attempt_time ≤ env.now
    → m.connection_status_reason ≢ connection_ok
    → env.rand ≤ env.rand_max
    → 0 < env.rand_max
    → (m' : Manager) × (connection_maintenance env m ≡ ok (m', []))
      × (m' ≡ record m { next_authentication_attempt_time = m'.next_authentication_attempt_time })
      × (env.now + 15 ≤ m'.next_authentication_attempt_time)
      × (m'.next_authentication_attempt_time ≤ env.now + 7380)
      × ((later : Environment)
          → m'.next_authentication_attempt_time ≤ later.now
          → connection_maintenance later m'
            ≡ refresh later (record m' {
              last_authentication_attempt_time = later.now;
              authentication_retries = (m.authentication_retries + 1) % 2 ^ 32;
            }))
attempt_follows env m broken tried old past why j pos =
    let (d, is, least, most) = delay_bounds m.connection_status_reason why in
    let t =
      retry_delay_calculator env.now env.rand env.rand_max d m.authentication_retries
        retry_default_initial_delay_ms time_span_one_hour_in_seconds
        retry_default_max_jitter_percent in
    let bounds =
      retry_delay_bounds env.now env.rand env.rand_max d m.authentication_retries
        retry_default_initial_delay_ms time_span_one_hour_in_seconds
        retry_default_max_jitter_percent j pos in
    let m' : Manager = record m { next_authentication_attempt_time = t } in
    (
      m',
      maintained-schedule env m t
          (decide-scheduled env.now env.rand env.rand_max d m broken tried old past is),
      refl,
      omega (arith, bounds),
      omega (arith, bounds),
      λ later h. maintained-attempt later m' (
          decide-due later.now later.rand later.rand_max m' (still m t ∙ broken)
            (omega (arith, bounds)) h),
    )
