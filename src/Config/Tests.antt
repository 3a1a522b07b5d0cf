-- ===== src/Config/Tests.antt =====
-- Settings for which there is memory for three calls.
use mbed_ce_client_for_azure.Base.{
  ℕ, ◌≡◌, refl, Bool, true, false, some, none, codes, ltb, ok, fault, if◌then◌else◌,
}
use mbed_ce_client_for_azure.Config.{
  Constants, config_init, config_uninit, get_agent, set_fields, fields, agent_info_array_free,
  agents_free, agent_info_free,
}
use mbed_ce_client_for_azure.Config.Blocks.{
  the_agent, the_config, filled, released, rest_allocated, config_init_lem,
}

abbrev constants : Constants
constants = record {
  agent_name = codes "main";
  device_connection_string = codes "HostName=h;DeviceId=d";
  properties_manufacturer = codes "m";
  properties_model = codes "p";
  info_manufacturer = codes "m";
  info_model = codes "p";
  compat_property_names = codes "manufacturer,model";
}

abbrev three_calls : ℕ → Bool
three_calls n = ltb n 3

short_of_memory : config_init three_calls constants ≡ ok (false, released)
unfolding config_init set_fields fields config_uninit agent_info_array_free agents_free
    agent_info_free
short_of_memory = refl

config_init_lem_example :
    (config_init three_calls constants ≡ (
      if three_calls 0
      then if rest_allocated three_calls then ok (true, filled constants) else ok (false, released)
      else fault))
    × (config_uninit (filled constants) ≡ ok released)
    × ((i : ℕ)
        → get_agent (the_config constants) i
          ≡ (if ltb i 1 then some (the_agent constants) else none))
config_init_lem_example = config_init_lem three_calls constants
