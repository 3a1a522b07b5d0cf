-- ===== src/Connection/Config.antt =====
-- GetConnTypeFromConnectionString, GetConnectionInfoFromConnectionString,
-- GetConnectionInfoFromIdentityService and GetAgentConfigInfo of iothub_communication_manager.c.
-- The settings file, the identity service and the connection string parser are arguments.
pub mod Agent
use mbed_ce_client_for_azure.Base.{
  ℕ, Bool, true, false, ◌&&◌, not, Option, none, some, Bytes, codes, str_eq, if◌then◌else◌, Run, ok,
  fault, ◌>>=◌,
}
use mbed_ce_client_for_azure.Strings.Files.{load_buffer_with_file_contents}
use mbed_ce_client_for_azure.Connection.Client.{
  ConnType, not_set, device_client, module_client, unset, sas_token, nested_edge_cert,
  ConnectionInfo,
}

-- `key_exists` is `ConnectionStringUtils_DoesKeyExist`.
unfoldable pub conn_type_from_connection_string : (Bytes → Bytes → Bool) → Option Bytes → ConnType
conn_type_from_connection_string key_exists none = not_set
conn_type_from_connection_string key_exists (some s) =
    if key_exists s (codes "DeviceId")
    then if key_exists s (codes "ModuleId") then module_client else device_client
    else not_set

-- The first agent of the settings file.
pub record AgentInfo : Type 0 where
  pub connection_type : Bytes
  pub connection_data : Option Bytes

-- A certificate file: its contents, if it can be opened, and what `fread` returns.
pub record CertFile : Type 0 where
  pub contents : Option Bytes
  pub num_read : ℕ

-- A settings file that can be read.
pub record ConfigInfo : Type 0 where
  pub agent : Option AgentInfo
  pub edge_gateway_cert : Option CertFile
  pub iothub_protocol : Option Bytes

-- What the environment answers. `copies` says for each of the two copies whether there is memory.
pub record Provision : Type 0 where
  pub key_exists : Bytes → Bytes → Bool
  pub config : Option ConfigInfo
  pub copies_connection_string : Bool
  pub copies_certificate : Bool
  pub eis_ok : Bool  -- err == EISErr_Ok
  pub eis_utils : Bool  -- service == EISService_Utils
  pub eis_info : ConnectionInfo

abbrev pub zeroed : ConnectionInfo
zeroed = record {
  conn_type = not_set;
  auth_type = unset;
  connection_string = none;
  certificate_string = none;
  openssl_engine_name = none;
  openssl_private_key = none;
}

abbrev pub certificate_string_size : ℕ
certificate_string_size = 8192

-- From the settings file on: the optional certificate of an edge gateway.
with_certificate : Provision → ConnectionInfo → Run (Bool × ConnectionInfo)
with_certificate p info = elim p.config [
  | none ↦ ok (true, info)
  | some config ↦ elim config.edge_gateway_cert [
    | none ↦ ok (true, info)
    | some file ↦
        load_buffer_with_file_contents true true file.contents file.num_read certificate_string_size
        >>= λ loaded. elim loaded [
          | none ↦ ok (false, info)
          | some l ↦
              if l.success && p.copies_certificate
              then ok (
                true,
                record info { certificate_string = some l.contents; auth_type = nested_edge_cert },
              )
              else ok (false, info)
        ]
  ]
]

-- An early `goto done` jumps over the initialisation of `config`, which is released behind `done`: a
-- fault.
unfoldable pub info_from_connection_string :
    (info_set : Bool) → Provision → Option Bytes → Run (Bool × ConnectionInfo)
unfolding with_certificate
info_from_connection_string info_set p none = fault
info_from_connection_string info_set p (some s) =
    if info_set && p.copies_connection_string
    then (let conn_type = conn_type_from_connection_string p.key_exists (some s) in
        let info = record zeroed { connection_string = some s; conn_type = conn_type } in
        elim conn_type [
          | not_set ↦ fault
          | _ ↦ with_certificate p (record info { auth_type = sas_token })
        ])
    else fault

unfoldable pub info_from_identity_service : (info_set : Bool) → Provision → Bool × ConnectionInfo
info_from_identity_service info_set p =
    if info_set
    then if not p.eis_ok && not p.eis_utils then (false, p.eis_info) else (true, p.eis_info)
    else (false, zeroed)

-- On failure the information is released, and there is none.
unfoldable pub agent_config_info : (info_set : Bool) → Provision → Run (Option ConnectionInfo)
agent_config_info info_set p =
    if info_set
    then elim p.config [
      | none ↦ ok none
      | some config ↦ elim config.agent [
        | none ↦ ok none
        | some agent ↦
            if str_eq agent.connection_type (codes "AIS")
            then (let (succeeded, info) = info_from_identity_service true p in
                ok (if succeeded then some info else none))
            else if str_eq agent.connection_type (codes "string")
            then (info_from_connection_string true p agent.connection_data >>= λ (succeeded, info).
                ok (if succeeded then some info else none))
            else ok none
      ]
    ]
    else ok none
