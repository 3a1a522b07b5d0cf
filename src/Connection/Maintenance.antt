-- ===== src/Connection/Maintenance.antt =====
-- ADUC_Refresh_IotHub_Connection_SAS_Token, Connection_Maintenance and
-- IoTHub_CommunicationManager_DoWork of iothub_communication_manager.c.
pub mod Refresh
use mbed_ce_client_for_azure.Base.{
  ℕ, ◌+◌, ◌%◌, ◌^◌, Bool, true, ◌&&◌, not, Option, none, some, List, [], ◌∷◌, ◌++◌, ltb, leb, ◌==◌,
  if◌then◌else◌, Run, ok, fault, ◌>>=◌,
}
use mbed_ce_client_for_azure.Retry.{
  time_span_fifteen_seconds_in_seconds, time_span_five_minutes_in_seconds,
  time_span_one_hour_in_seconds, retry_default_initial_delay_ms, retry_default_max_jitter_percent,
  retry_delay_calculator,
}
use mbed_ce_client_for_azure.Connection.{
  Manager, Reason, expired_sas_token, device_disabled, bad_credential, retry_expired, no_network,
  communication_error, connection_ok, no_ping_response, unhandled, Call, notify, do_work,
  is_authenticated, device_client_destroy,
}
use mbed_ce_client_for_azure.Connection.Client.{Sdk, protocol_from_config, device_client_create}
use mbed_ce_client_for_azure.Connection.Config.{Provision, agent_config_info}

-- What the outside gives to one call: the time, a random number, the settings and the SDK's answers.
pub record Environment : Type 0 where
  pub now : ℕ
  pub rand : ℕ
  pub rand_max : ℕ
  pub provision : Provision
  pub sdk : Sdk

abbrev pub notify_changed : Manager → List Call
notify_changed m = elim m.handle_changed_callback [
  | none ↦ []
  | some _ ↦ notify m.client_handle ∷ []
]

-- The first half of the refresh: an old client is destroyed, and the callback told that there is none.
unfoldable pub drop_client : Manager → Manager × List Call
drop_client m = elim m.client_handle [
  | none ↦ (m, [])
  | some h ↦
      let m' = record m { client_handle = none } in
      (m', device_client_destroy (some h) ++ notify_changed m')
]

abbrev pub transport : Provision → Bool
transport p =
    protocol_from_config (elim p.config [ none ↦ none | some config ↦ some config.iothub_protocol ])

-- The second half: a new client.
unfoldable pub connect : Environment → Manager → Run (Manager × List Call)
connect env m = agent_config_info true env.provision >>= λ found. elim found [
  | none ↦ ok (m, [])
  | some info ↦
      let (created, out, calls) = device_client_create (transport env.provision) env.sdk info in
      let m' = record m { client_handle = out } in
      ok (if created then (m', calls ++ notify_changed m') else (m', calls))
]

unfoldable pub refresh : Environment → Manager → Run (Manager × List Call)
refresh env m =
    let (m', dropped) = drop_client m in
    if m.handle_address_set
    then (connect env m' >>= λ (m'', calls). ok (m'', dropped ++ calls))
    else ok (m, [])

-- The switch over the reason. `none` is the early return.
unfoldable pub additional_delay : Reason → Option ℕ
additional_delay retry_expired = some time_span_fifteen_seconds_in_seconds
additional_delay expired_sas_token = some time_span_fifteen_seconds_in_seconds
additional_delay bad_credential = some time_span_fifteen_seconds_in_seconds
additional_delay device_disabled = some time_span_one_hour_in_seconds
additional_delay no_ping_response = some time_span_five_minutes_in_seconds
additional_delay no_network = some time_span_five_minutes_in_seconds
additional_delay communication_error = some time_span_five_minutes_in_seconds
additional_delay connection_ok = none
additional_delay unhandled = some time_span_fifteen_seconds_in_seconds

-- What one call of the maintenance decides.
pub data Decision : Type 0 where
  leave : Decision
  schedule : ℕ → Decision
  attempt : Decision

unfoldable pub decide : (now rand rand_max : ℕ) → Manager → Decision
decide now rand rand_max m =
    if is_authenticated m
    then leave
    else if ltb now m.next_authentication_attempt_time
    then leave
    else if not (m.last_authentication_attempt_time == 0)
        && leb m.next_authentication_attempt_time m.last_authentication_attempt_time
    then elim (additional_delay m.connection_status_reason) [
      | none ↦ leave
      | some delay ↦ schedule (
          retry_delay_calculator now rand rand_max delay m.authentication_retries
            retry_default_initial_delay_ms time_span_one_hour_in_seconds
            retry_default_max_jitter_percent)
    ]
    else attempt

unfoldable pub connection_maintenance : Environment → Manager → Run (Manager × List Call)
connection_maintenance env m = elim (decide env.now env.rand env.rand_max m) [
  | leave ↦ ok (m, [])
  | schedule t ↦ ok (record m { next_authentication_attempt_time = t }, [])
  | attempt ↦ refresh env (record m {
    last_authentication_attempt_time = env.now;
    authentication_retries = (m.authentication_retries + 1) % 2 ^ 32;
  })
]

-- The client handle is read through the address, which is not tested.
unfoldable pub comm_do_work : Environment → Manager → Run (Manager × List Call)
comm_do_work env m = connection_maintenance env m >>= λ (m', calls).
    if m'.handle_address_set then ok (m', calls ++ do_work m'.client_handle ∷ []) else fault
