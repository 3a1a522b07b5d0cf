-- ===== src/Connection/Client.antt =====
-- ADUC_DeviceClient_Create and GetIotHubProtocolFromConfig of iothub_communication_manager.c. What
-- the SDK answers is an argument.
pub mod Create
use mbed_ce_client_for_azure.Base.{
  ℕ, Bool, true, false, ◌&&◌, Option, none, some, List, [], ◌∷◌, ◌++◌, Bytes, codes, str_eq,
  is_some, if◌then◌else◌,
}
use mbed_ce_client_for_azure.Connection.{
  Setting, log_trace, x509_cert, sas_trusted_cert, edge_trusted_cert, openssl_engine,
  x509_private_key, openssl_private_key_type, model_id, twin_callback, status_callback, Call,
  create, set, destroy,
}

pub data ConnType : Type 0 where
  not_set device_client module_client : ConnType

-- `unset` is the zeroed value.
pub data AuthType : Type 0 where
  unset sas_token sas_cert nested_edge_cert : AuthType

pub record ConnectionInfo : Type 0 where
  pub conn_type : ConnType
  pub auth_type : AuthType
  pub connection_string : Option Bytes
  pub certificate_string : Option Bytes
  pub openssl_engine_name : Option Bytes
  pub openssl_private_key : Option Bytes

abbrev pub is_sas_token : AuthType → Bool
is_sas_token sas_token = true
is_sas_token _ = false

abbrev pub is_sas_cert : AuthType → Bool
is_sas_cert sas_cert = true
is_sas_cert _ = false

abbrev pub is_nested_edge_cert : AuthType → Bool
is_nested_edge_cert nested_edge_cert = true
is_nested_edge_cert _ = false

-- Of the settings file: `none` if it cannot be read, then the optional 'iotHubProtocol'.
-- Only "mqtt" is built in. The result says whether there is a transport.
unfoldable pub protocol_from_config : Option (Option Bytes) → Bool
protocol_from_config none = false
protocol_from_config (some none) = true
protocol_from_config (some (some protocol)) = if str_eq protocol (codes "mqtt") then true else false

-- What the SDK answers: the new client, if one is created, and whether a setting is taken.
pub record Sdk : Type 0 where
  pub created : Option ℕ
  pub takes : Setting → Bool

-- The settings in the order of the else-if chain, each with the condition under which it is made.
unfoldable pub settings : ConnectionInfo → List (Bool × Setting)
settings info =
    (true, log_trace)
    ∷ (is_some info.certificate_string && is_sas_cert info.auth_type, x509_cert)
    ∷ (is_sas_token info.auth_type, sas_trusted_cert)
    ∷ (is_some info.certificate_string && is_nested_edge_cert info.auth_type, edge_trusted_cert)
    ∷ (is_some info.openssl_engine_name && is_sas_cert info.auth_type, openssl_engine)
    ∷ (is_some info.openssl_private_key && is_sas_cert info.auth_type, x509_private_key)
    ∷ (
      is_some info.openssl_engine_name
          && is_some info.openssl_private_key
          && is_sas_cert info.auth_type,
      openssl_private_key_type,
    )
    ∷ (true, model_id)
    ∷ (true, twin_callback)
    ∷ (true, status_callback)
    ∷ []

-- The chain from one setting on: the calls that it makes, and whether all of them succeed. The first
-- failure ends it.
unfoldable pub run_settings : Sdk → List (Bool × Setting) → Bool × List Call
run_settings sdk [] = (true, [])
run_settings sdk ((needed, s) ∷ chain) =
    let (result, calls) = run_settings sdk chain in
    if needed
    then if sdk.takes s then (result, set s ∷ calls) else (false, set s ∷ [])
    else (result, calls)

-- The result, the caller's variable `*outClientHandle`, which holds no client before, and the calls.
unfoldable pub device_client_create :
    (has_transport : Bool) → Sdk → ConnectionInfo → Bool × Option ℕ × List Call
device_client_create has_transport sdk info =
    if has_transport
    then elim sdk.created [
      | none ↦ (false, none, create ∷ [])
      | some h ↦
          let (result, calls) = run_settings sdk (settings info) in
          if result
          then (true, some h, create ∷ calls)
          else (false, none, create ∷ (calls ++ destroy h ∷ []))
    ]
    else (false, none, [])
