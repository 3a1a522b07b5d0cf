-- ===== src/Connection/Config/Agent.antt =====
-- What the connection information of iothub_communication_manager.c says of its connection string.
use mbed_ce_client_for_azure.Base.{
  true, false, none, some, ◌≡◌, ◌≢◌, arith, Bytes, codes, str_eq, if◌then◌else◌, ok, fault,
  Option-cases, inl, inr, ◌⊎◌,
}
use mbed_ce_client_for_azure.Connection.Client.{
  device_client, module_client, sas_token, nested_edge_cert, ConnectionInfo,
}
use mbed_ce_client_for_azure.Connection.Config.{
  conn_type_from_connection_string, AgentInfo, ConfigInfo, Provision, info_from_connection_string,
  info_from_identity_service, agent_config_info,
}

-- A connection string gives information only if it names a device. It then stands in the
-- information, the type is a module's exactly if it names a module, and the certificate of an edge
-- gateway is there exactly if the authentication uses it; otherwise a SAS token is used.
pub info_from_connection_string_ok :
    (p : Provision) (s : Bytes) (info : ConnectionInfo)
    → info_from_connection_string true p (some s) ≡ ok (true, info)
    → (p.key_exists s (codes "DeviceId") ≡ true)
      × (info.connection_string ≡ some s)
      × (info.conn_type
          ≡ (if p.key_exists s (codes "ModuleId") then module_client else device_client))
      × (((info.auth_type ≡ sas_token) × (info.certificate_string ≡ none))
          ⊎ ((info.auth_type ≡ nested_edge_cert) × (info.certificate_string ≢ none)))
unfolding info_from_connection_string conn_type_from_connection_string
info_from_connection_string_ok p s info h = ground arith

-- A connection string that does not name a device makes the function release a settings record that
-- it has not initialised.
pub info_from_connection_string_fault :
    (p : Provision) (s : Bytes)
    → p.key_exists s (codes "DeviceId") ≡ false
    → info_from_connection_string true p (some s) ≡ fault
unfolding info_from_connection_string conn_type_from_connection_string
info_from_connection_string_fault p s h = ground arith

with_config :
    (p : Provision) (config : ConfigInfo) (info : ConnectionInfo)
    → p.config ≡ some config
    → agent_config_info true p ≡ ok (some info)
    → (agent : AgentInfo) × (config.agent ≡ some agent)
      × (((str_eq agent.connection_type (codes "AIS") ≡ true)
            × (info_from_identity_service true p ≡ (true, info)))
          ⊎ ((str_eq agent.connection_type (codes "string") ≡ true)
              × (info_from_connection_string true p agent.connection_data ≡ ok (true, info))))
unfolding agent_config_info
with_config p config info e h = elim (Option-cases config.agent) [
  | inl missing ↦ ground arith
  | inr (agent, is) ↦ (agent, is, ground arith)
]

-- Information comes only from the first agent of a settings file that can be read: from the identity
-- service if its type is "AIS", and from its connection string if its type is "string".
pub agent_config_info_source :
    (p : Provision) (info : ConnectionInfo)
    → agent_config_info true p ≡ ok (some info)
    → (config : ConfigInfo) × (agent : AgentInfo) × (p.config ≡ some config)
      × (config.agent ≡ some agent)
      × (((str_eq agent.connection_type (codes "AIS") ≡ true)
            × (info_from_identity_service true p ≡ (true, info)))
          ⊎ ((str_eq agent.connection_type (codes "string") ≡ true)
              × (info_from_connection_string true p agent.connection_data ≡ ok (true, info))))
unfolding agent_config_info
agent_config_info_source p info h = elim (Option-cases p.config) [
  | inl unread ↦ ground arith
  | inr (config, e) ↦
      let (agent, is, from) = with_config p config info e h in (config, agent, e, is, from)
]
