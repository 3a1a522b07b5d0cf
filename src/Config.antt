-- ===== src/Config.antt =====
-- mbed/COMPONENT_AZIOT_OTA/iot-hub-device-update_patch/utils/config_utils/config_utils.c: the settings of
-- the agent, which this port takes from constants of the build. What is under `#if 0` there is left out.
pub mod Blocks
mod Tests
use mbed_ce_client_for_azure.Base.{
  ℕ, zero, suc, ◌+◌, ◌-◌, Bool, true, false, Option, none, some, List, [], ◌∷◌, Bytes, codes, ltb,
  get_elem?, if◌then◌else◌, Run, ok, fault, ◌>>=◌,
}

-- ADUC_AgentInfo
pub record AgentSettings : Type 0 where
  pub name : Option Bytes
  pub runas : Option Bytes
  pub connection_type : Option Bytes
  pub connection_data : Option Bytes
  pub manufacturer : Option Bytes
  pub model : Option Bytes

-- ADUC_ConfigInfo: the fields that the port uses.
pub record Settings : Type 0 where
  pub agent_count : ℕ
  pub agents : Option (List AgentSettings)
  pub manufacturer : Option Bytes
  pub model : Option Bytes
  pub compat_property_names : Option Bytes
  pub iot_hub_protocol : Option Bytes

abbrev pub no_agent : AgentSettings
no_agent = record {
  name = none;
  runas = none;
  connection_type = none;
  connection_data = none;
  manufacturer = none;
  model = none;
}

abbrev pub no_config : Settings
no_config = record {
  agent_count = 0;
  agents = none;
  manufacturer = none;
  model = none;
  compat_property_names = none;
  iot_hub_protocol = none;
}

-- The constants of the build.
pub record Constants : Type 0 where
  pub agent_name : Bytes
  pub device_connection_string : Bytes
  pub properties_manufacturer : Bytes
  pub properties_model : Bytes
  pub info_manufacturer : Bytes
  pub info_model : Bytes
  pub compat_property_names : Bytes

-- The settings, with the number of blocks of memory that are in use for them.
pub record Memory : Type 0 where
  pub config : Settings
  pub blocks : ℕ

abbrev pub release : Option Bytes → ℕ → ℕ
release none n = n
release (some s) n = n - 1

unfoldable pub agent_info_free : AgentSettings → ℕ → AgentSettings × ℕ
agent_info_free a n = (
  no_agent,
  release a.model (
      release a.manufacturer (
        release a.connection_data
          (release a.connection_type (release a.runas (release a.name n))))),
)

-- The loop over `count` agents.
unfoldable pub agents_free : (count : ℕ) → List AgentSettings → ℕ → Run ℕ
agents_free zero agents n = ok n
agents_free (suc count) [] n = fault
agents_free (suc count) (a ∷ agents) n = agents_free count agents (agent_info_free a n).1

-- ADUC_AgentInfoArray_Free: the loop reads through a pointer that is NULL if the count is not 0.
unfoldable pub agent_info_array_free : (agent_count : ℕ) → Option (List AgentSettings) → ℕ → Run ℕ
agent_info_array_free zero none n = ok n
agent_info_array_free (suc count) none n = fault
agent_info_array_free count (some agents) n = agents_free count agents n >>= λ m. ok (m - 1)

-- ADUC_ConfigInfo_UnInit
unfoldable pub config_uninit : Memory → Run Memory
config_uninit m =
    let c = m.config in
    let n =
      release c.iot_hub_protocol
        (release c.compat_property_names (release c.model (release c.manufacturer m.blocks))) in
    agent_info_array_free c.agent_count c.agents n >>= λ k.
    ok (record { config = no_config; blocks = k })

-- A field of the agent at index 0.
abbrev pub in_agent : (AgentSettings → AgentSettings) → Settings → Settings
in_agent f c = record c {
  agents = elim c.agents [
    | none ↦ none
    | some agents ↦ elim agents [ [] ↦ some [] | a ∷ rest ↦ some (f a ∷ rest) ]
  ];
}

-- The fields in the order in which they are set, each by a call of mallocAndStrcpy_s.
unfoldable pub fields : Constants → List (Settings → Settings)
fields k =
    in_agent (λ a. record a { name = some k.agent_name })
    ∷ in_agent (λ a. record a { runas = some (codes "adu") })
    ∷ in_agent (λ a. record a { connection_type = some (codes "string") })
    ∷ in_agent (λ a. record a { connection_data = some k.device_connection_string })
    ∷ in_agent (λ a. record a { manufacturer = some k.properties_manufacturer })
    ∷ in_agent (λ a. record a { model = some k.properties_model })
    ∷ (λ c. record c { manufacturer = some k.info_manufacturer })
    ∷ (λ c. record c { model = some k.info_model })
    ∷ (λ c. record c { compat_property_names = some k.compat_property_names })
    ∷ (λ c. record c { iot_hub_protocol = some (codes "mqtt") })
    ∷ []

-- The calls up to the first that gets no memory: `allocates` answers by how many have been made.
unfoldable pub set_fields :
    (allocates : ℕ → Bool) → (call : ℕ) → List (Settings → Settings) → Memory → Bool × Memory
set_fields allocates call [] m = (true, m)
set_fields allocates call (f ∷ fs) m =
    let rest =
      set_fields allocates (call + 1) fs (record { config = f m.config; blocks = m.blocks + 1 }) in
    if allocates call then rest else (false, m)

-- ADUC_ConfigInfo_Init. Call 0 is the one for the array of agents.
unfoldable pub config_init : (allocates : ℕ → Bool) → Constants → Run (Bool × Memory)
config_init allocates k =
    let agents = if allocates 0 then some (no_agent ∷ []) else none in
    let start : Memory = record {
      config = record no_config { agent_count = 1; agents = agents };
      blocks = if allocates 0 then 1 else 0;
    } in
    let (done, m) =
      if allocates 0 then set_fields allocates 1 (fields k) start else (false, start) in
    if done then ok (true, m) else (config_uninit m >>= λ m'. ok (false, m'))

-- ADUC_ConfigInfo_GetAgent, of settings that are not NULL
unfoldable pub get_agent : Settings → (index : ℕ) → Option AgentSettings
get_agent c index =
    if ltb index c.agent_count
    then elim c.agents [ none ↦ none | some agents ↦ get_elem? agents index ]
    else none
