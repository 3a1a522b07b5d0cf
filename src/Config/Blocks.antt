-- ===== src/Config/Blocks.antt =====
-- What becomes of the memory of the settings in config_utils.c.
use mbed_ce_client_for_azure.Base.{
  ℕ, ◌≡◌, refl, arith, Bool, true, false, none, some, [], ◌∷◌, codes, ok, fault, ◌&&◌, ltb,
  if◌then◌else◌,
}
use mbed_ce_client_for_azure.Config.{
  AgentSettings, Settings, Constants, Memory, no_config, agent_info_free, agents_free,
  agent_info_array_free, config_uninit, fields, set_fields, config_init, get_agent,
}

abbrev pub the_agent : Constants → AgentSettings
the_agent k = record {
  name = some k.agent_name;
  runas = some (codes "adu");
  connection_type = some (codes "string");
  connection_data = some k.device_connection_string;
  manufacturer = some k.properties_manufacturer;
  model = some k.properties_model;
}

abbrev pub the_config : Constants → Settings
the_config k = record {
  agent_count = 1;
  agents = some (the_agent k ∷ []);
  manufacturer = some k.info_manufacturer;
  model = some k.info_model;
  compat_property_names = some k.compat_property_names;
  iot_hub_protocol = some (codes "mqtt");
}

-- The settings that hold all the fields, in eleven blocks.
abbrev pub filled : Constants → Memory
filled k = record { config = the_config k; blocks = 11 }

abbrev pub released : Memory
released = record { config = no_config; blocks = 0 }

-- The calls behind the first all get memory.
abbrev pub rest_allocated : (ℕ → Bool) → Bool
rest_allocated allocates =
    allocates 1
    && allocates 2
    && allocates 3
    && allocates 4
    && allocates 5
    && allocates 6
    && allocates 7
    && allocates 8
    && allocates 9
    && allocates 10

init_lem :
    (allocates : ℕ → Bool) (k : Constants)
    → config_init allocates k ≡ (
        if allocates 0
        then if rest_allocated allocates then ok (true, filled k) else ok (false, released)
        else fault)
unfolding config_init set_fields fields config_uninit agent_info_array_free agents_free
    agent_info_free
init_lem allocates k = ground arith

-- The initialisation succeeds with all the fields set if every call gets memory. It fails and leaves
-- nothing in use if the array of agents gets memory and a later call gets none. If the array gets none, the
-- release reads through the pointer to it, which is NULL. The release of what a success made leaves nothing
-- in use, and the one agent is at index 0.
pub config_init_lem :
    (allocates : ℕ → Bool) (k : Constants)
    → (config_init allocates k ≡ (
        if allocates 0
        then if rest_allocated allocates then ok (true, filled k) else ok (false, released)
        else fault))
      × (config_uninit (filled k) ≡ ok released)
      × ((i : ℕ) → get_agent (the_config k) i ≡ (if ltb i 1 then some (the_agent k) else none))
unfolding config_uninit agent_info_array_free agents_free agent_info_free get_agent
config_init_lem allocates k = (init_lem allocates k, refl, λ i. ground arith)
