-- ===== src/Connection.antt =====
-- The IoT Hub connection manager of mbed/COMPONENT_AZIOT_OTA/iot-hub-device-update_patch/
-- iothub_communication_manager/iothub_communication_manager.c. The file's static variables are one
-- record. An operation gives the new record and the calls that it makes into the SDK, in order.
pub mod Client
pub mod Config
pub mod Maintenance
pub mod Backoff
mod Tests
use mbed_ce_client_for_azure.Base.{
  ℕ, Bool, true, false, Option, none, some, List, [], ◌∷◌, ◌++◌, leb, if◌then◌else◌,
}

-- IOTHUB_CLIENT_CONNECTION_STATUS
pub data Status : Type 0 where
  authenticated unauthenticated : Status

-- IOTHUB_CLIENT_CONNECTION_STATUS_REASON, with one constructor for all that the file does not name
pub data Reason : Type 0 where
  expired_sas_token device_disabled bad_credential retry_expired no_network : Reason
  communication_error connection_ok no_ping_response unhandled : Reason

-- A client handle, a callback and a context are the numbers of what they point to.
pub record Manager : Type 0 where
  pub handle_address_set : Bool  -- g_aduc_client_handle_address != NULL
  pub client_handle : Option ℕ  -- *g_aduc_client_handle_address
  pub handle_changed_callback : Option ℕ
  pub device_twin_callback : Option ℕ
  pub client_initialized : Bool
  pub property_update_context : Option ℕ
  pub last_authenticated_time : ℕ
  pub next_authentication_attempt_time : ℕ
  pub first_unauthenticated_time : ℕ
  pub last_authentication_attempt_time : ℕ
  pub last_connection_status_callback_time : ℕ
  pub authentication_retries : ℕ  -- unsigned int
  pub connection_status : Status
  pub connection_status_reason : Reason

-- The static variables before anything has run. The caller's variable holds no client.
abbrev pub initial : Manager
initial = record {
  handle_address_set = false;
  client_handle = none;
  handle_changed_callback = none;
  device_twin_callback = none;
  client_initialized = false;
  property_update_context = none;
  last_authenticated_time = 0;
  next_authentication_attempt_time = 0;
  first_unauthenticated_time = 0;
  last_authentication_attempt_time = 0;
  last_connection_status_callback_time = 0;
  authentication_retries = 0;
  connection_status = unauthenticated;
  connection_status_reason = bad_credential;
}

-- A setting that is made on a new client, in the words of the SDK's option names.
pub data Setting : Type 0 where
  log_trace x509_cert sas_trusted_cert edge_trusted_cert openssl_engine x509_private_key : Setting
  openssl_private_key_type model_id twin_callback status_callback : Setting

-- The calls that leave the file.
pub data Call : Type 0 where
  hub_init hub_deinit create : Call
  set : Setting → Call
  destroy : ℕ → Call
  notify : Option ℕ → Call
  do_work : Option ℕ → Call

-- `hub_result` says whether `IoTHub_Init` succeeds.
unfoldable pub init :
    Bool
    → (address_set : Bool) → (twin changed context : Option ℕ) → Manager
    → Manager × Bool × List Call
init hub_result address_set twin changed context m =
    if m.client_initialized
    then (m, true, [])
    else if hub_result
    then (
      record m {
        handle_address_set = address_set;
        device_twin_callback = twin;
        property_update_context = context;
        handle_changed_callback = changed;
        client_initialized = true;
      },
      true,
      hub_init ∷ [],
    )
    else (m, false, hub_init ∷ [])

-- ADUC_DeviceClient_Destroy
unfoldable pub device_client_destroy : Option ℕ → List Call
device_client_destroy none = []
device_client_destroy (some h) = destroy h ∷ []

-- The first half of `IoTHub_CommunicationManager_Deinit`. The caller's variable keeps the handle that
-- is destroyed.
release_client : Manager → Manager × List Call
release_client m =
    if m.handle_address_set
    then elim m.client_handle [
      | none ↦ (m, [])
      | some h ↦ (record m { handle_address_set = false }, destroy h ∷ [])
    ]
    else (m, [])

unfoldable pub deinit : Manager → Manager × List Call
unfolding release_client
deinit m =
    let (m', calls) = release_client m in
    if m'.client_initialized
    then (record m' { client_initialized = false }, calls ++ hub_deinit ∷ [])
    else (m', calls)

unfoldable pub is_authenticated : Manager → Bool
is_authenticated m = elim m.connection_status [ authenticated ↦ true | unauthenticated ↦ false ]

-- The address of the caller's variable, where it is set.
unfoldable pub get_handle : Manager → Bool
get_handle m = if m.handle_address_set then true else false

-- IoTHub_CommunicationManager_ConnectionStatus_Callback
unfoldable pub connection_status_callback : (now : ℕ) → Status → Reason → Manager → Manager
connection_status_callback now status reason m =
    let seen : Manager = elim status [
      | authenticated ↦ record m { last_authenticated_time = now; authentication_retries = 0 }
      | unauthenticated ↦
          if leb m.first_unauthenticated_time m.last_authenticated_time
          then record m { first_unauthenticated_time = now }
          else m
    ] in
    record seen {
      connection_status = status;
      connection_status_reason = reason;
      last_connection_status_callback_time = now;
    }
