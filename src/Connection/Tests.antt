-- ===== src/Connection/Tests.antt =====
-- Inputs at which the hypotheses of the theorems on iothub_communication_manager.c hold.
use mbed_ce_client_for_azure.Base.{
  ℕ, ◌+◌, ◌%◌, ◌^◌, ◌≤◌, ◌≡◌, ◌≢◌, refl, true, false, ◌&&◌, is_some, none, some, [], ◌∷◌, arith,
  Bytes, codes, str_eq, ok,
}
use mbed_ce_client_for_azure.Retry.{retry_delay_calculator, jittered_secs, backoff_ms}
use mbed_ce_client_for_azure.Connection.{
  Manager, initial, unauthenticated, communication_error, is_authenticated,
  connection_status_callback, create,
}
use mbed_ce_client_for_azure.Connection.Client.{
  ConnectionInfo, Sdk, device_client_create, device_client, sas_token, settings, run_settings,
  protocol_from_config,
}
use mbed_ce_client_for_azure.Connection.Client.Create.{
  destroyed, expected_settings, set_calls, takes_every, device_client_create_lem,
  device_client_create_frees,
}
use mbed_ce_client_for_azure.Connection.Config.{
  AgentInfo, ConfigInfo, Provision, zeroed, conn_type_from_connection_string,
  info_from_connection_string, agent_config_info,
}
use mbed_ce_client_for_azure.Connection.Maintenance.{
  Environment, attempt, decide, additional_delay, drop_client, connect, refresh,
  connection_maintenance,
}
use mbed_ce_client_for_azure.Connection.Backoff.{
  IsSpaced, Reached, here, next, maintain, status, attempts_spaced, attempt_follows,
}

abbrev device_string : Bytes
device_string = codes "DeviceId=a"

abbrev agent : AgentInfo
agent = record { connection_type = codes "string"; connection_data = some device_string }

abbrev config : ConfigInfo
config = record { agent = some agent; edge_gateway_cert = none; iothub_protocol = none }

-- A connection string names what it starts with.
abbrev provision : Provision
provision = record {
  key_exists = λ s k. str_eq k (codes "DeviceId");
  config = some config;
  copies_connection_string = true;
  copies_certificate = true;
  eis_ok = true;
  eis_utils = true;
  eis_info = zeroed;
}

abbrev sdk : Sdk
sdk = record { created = some 9; takes = λ s. true }

abbrev env : ℕ → Environment
env now = record { now = now; rand = 0; rand_max = 7; provision = provision; sdk = sdk }

abbrev ready : Manager
ready = record initial { handle_address_set = true; client_initialized = true }

abbrev info : ConnectionInfo
info = record zeroed {
  conn_type = device_client;
  auth_type = sas_token;
  connection_string = some device_string;
}

device_client_create_lem_example :
    ((device_client_create true sdk info).0
      ≡ (true && (is_some sdk.created && takes_every sdk (expected_settings info))))
    × ((device_client_create true sdk info).0 ≡ true
        → ((device_client_create true sdk info).1 ≡ sdk.created)
          × ((device_client_create true sdk info).2 ≡ create ∷ set_calls (expected_settings info)))
    × ((device_client_create true sdk info).0 ≡ false
        → (device_client_create true sdk info).1 ≡ none)
device_client_create_lem_example = device_client_create_lem true sdk info

device_client_create_frees_example :
    ((device_client_create true sdk info).0 ≡ false
      → destroyed 9 (device_client_create true sdk info).2 ≡ 1)
    × ((device_client_create true sdk info).0 ≡ true
        → destroyed 9 (device_client_create true sdk info).2 ≡ 0)
device_client_create_frees_example = device_client_create_frees sdk info 9 refl

has_info : info_from_connection_string true provision (some device_string) ≡ ok (true, info)
unfolding info_from_connection_string conn_type_from_connection_string
has_info = refl

found_info : agent_config_info true provision ≡ ok (some info)
unfolding agent_config_info info_from_connection_string conn_type_from_connection_string
found_info = refl

abbrev connected : Manager
connected = record ready { client_handle = some 9 }

-- The manager after the first attempt at time 100, and after its answer.
abbrev tried : Manager
tried = record connected { last_authentication_attempt_time = 100; authentication_retries = 1 }

abbrev refused : Manager
unfolding connection_status_callback
refused = connection_status_callback 101 unauthenticated communication_error tried

abbrev waiting : Manager
waiting = record refused { next_authentication_attempt_time = 404 }

starts : IsSpaced 50 ready
starts = record { past = omega arith; apart = λ h. absurd (omega (arith, h)) }

first : Reached 50 ready 102 waiting
unfolding connection_maintenance decide is_authenticated refresh drop_client connect
    agent_config_info info_from_connection_string conn_type_from_connection_string
    device_client_create protocol_from_config run_settings settings additional_delay
    retry_delay_calculator jittered_secs backoff_ms connection_status_callback
first =
    next
      (next (next here (maintain (env 100) _ (omega arith) refl))
        (status 101 unauthenticated communication_error (omega arith)))
      (maintain (env 102) [] (omega arith) refl)

due : decide 404 0 7 waiting ≡ attempt
unfolding decide is_authenticated connection_status_callback
due = refl

attempts_spaced_example :
    (is_authenticated waiting ≡ false)
    × (waiting.last_authentication_attempt_time ≢ 0
        → waiting.last_authentication_attempt_time + 15 ≤ 404)
attempts_spaced_example = attempts_spaced 404 0 7 starts first (omega arith) due

abbrev broken : Manager
broken = record tried { connection_status_reason = communication_error }

is_broken : is_authenticated broken ≡ false
unfolding is_authenticated
is_broken = refl

abbrev environment_at : ℕ → Environment
environment_at now = record { now = now; rand = 0; rand_max = 7; provision = provision; sdk = sdk }

attempt_follows_example :
    (m : Manager) × (connection_maintenance (environment_at 102) broken ≡ ok (m, []))
    × (m ≡ record broken { next_authentication_attempt_time = m.next_authentication_attempt_time })
    × (102 + 15 ≤ m.next_authentication_attempt_time)
    × (m.next_authentication_attempt_time ≤ 102 + 7380)
    × ((later : Environment)
        → m.next_authentication_attempt_time ≤ later.now
        → connection_maintenance later m
          ≡ refresh later (record m {
            last_authentication_attempt_time = later.now;
            authentication_retries = (broken.authentication_retries + 1) % 2 ^ 32;
          }))
attempt_follows_example =
    attempt_follows (environment_at 102) broken is_broken (omega arith) (omega arith) (omega arith)
      (λ e. cc) (omega arith) (omega arith)
