-- ===== src/Manifest.antt =====
-- mbed/COMPONENT_AZIOT_OTA/iot-hub-device-update_patch/utils/workflow_utils/workflow_utils.c: how a
-- workflow object is made of the text of an update action, whose manifest is signed. The JSON library,
-- the hashes and the names and numbers that a header outside the repository declares are arguments.
-- What a failure frees is left out.
pub mod Authentic
mod Tests
use mbed_ce_client_for_azure.Base.{
  ℕ, zero, suc, ◌+◌, ◌-◌, ◌*◌, ◌==◌, leb, Bool, true, false, not, ◌&&◌, ◌||◌, Option, none, some,
  [], ◌∷◌, Bytes, codes, length, ℤ, pos, negsuc, if◌then◌else◌, ◌⊎◌, inl, inr,
}
use mbed_ce_client_for_azure.Strings.Number.{is_null_or_empty}
use mbed_ce_client_for_azure.Workflow.Parson.{Json}
use mbed_ce_client_for_azure.Workflow.{Workflow, null}
use mbed_ce_client_for_azure.Crypto.{Mbedtls}
use mbed_ce_client_for_azure.Jws.{
  JwsResult, success, Decoders, get_payload_from_jwt, verify_jws_with_sjwk,
}

-- The extended result codes of the failures.
pub data ParseError : Type 0 where
  no_memory bad_parameter invalid_action_file invalid_action_string invalid_action : ParseError
  validation_failed no_update_manifest bad_update_manifest unsupported_version : ParseError

pub data Parsed (J : Json) : Type 0 where
  rejected : ParseError → Parsed J
  parsed : Workflow J → Parsed J

-- What is not in this file. A text that is JSON holds an object or another value.
pub record Parser (J : Json) : Type 0 where
  pub allocates_workflow : Bool
  pub parse_value : Bytes → Option (Option J.Object)
  pub parse_file : Bytes → Option (Option J.Object)
  pub is_string : J.Object → Bytes → Bool  -- json_object_has_value_of_type
  pub is_object : J.Object → Bytes → Bool
  pub serialize : J.Object → Bytes → Option Bytes  -- json_serialize_to_string of json_object_get_value
  pub is_valid_buffer_hash : (buffer hash : Bytes) → Bool  -- ADUC_HashUtils_IsValidBufferHash
  pub zero_workflow : Workflow J  -- an object of zeros
  pub is_cancel_number : ℕ → Bool
  pub is_undefined_number : ℕ → Bool
  pub action_field : Bytes
  pub update_manifest_field : Bytes
  pub signature_field : Bytes
  pub hash_field : Bytes
  pub failure_code : ℕ  -- ADUC_Result_Failure
  pub version_min : ℕ
  pub version_max : ℕ

abbrev pub is_space : ℕ → Bool
is_space c = c == b' ' || (leb 9 c && leb c 13)

abbrev pub is_digit : ℕ → Bool
is_digit c = leb b'0' c && leb c b'9'

unfoldable pub atoi_digits : ℕ → Bytes → ℕ
atoi_digits n [] = n
atoi_digits n (c ∷ s) =
    let rest = atoi_digits (n * 10 + (c - b'0')) s in if is_digit c then rest else n

abbrev pub negated : ℕ → ℤ
negated zero = pos 0
negated (suc n) = negsuc n

unfoldable pub atoi_signed : Bytes → ℤ
atoi_signed [] = pos 0
atoi_signed (c ∷ s) =
    if c == b'-'
    then negated (atoi_digits 0 s)
    else if c == b'+'
    then pos (atoi_digits 0 s)
    else pos (atoi_digits 0 (c ∷ s))

-- The function of the C library, on numbers that an int holds.
unfoldable pub atoi : Bytes → ℤ
atoi [] = pos 0
atoi (c ∷ s) = let rest = atoi s in if is_space c then rest else atoi_signed (c ∷ s)

abbrev pub is_success : JwsResult → Bool
is_success success = true
is_success _ = false

module _ {J : Json} (M : Mbedtls) (D : Decoders J) (P : Parser J) where
  unfoldable pub copy_string : Option Bytes → Option Bytes
  copy_string none = none
  copy_string (some s) = if D.allocates (length s + 1) then some s else none

  unfoldable pub peek_update_manifest_string : Workflow J → Bytes → Option Bytes
  peek_update_manifest_string w property_name = elim w.update_manifest [
    | none ↦ none
    | some o ↦ J.get_string o property_name
  ]

  -- -1 without a version
  unfoldable pub get_update_manifest_version : Workflow J → ℤ
  get_update_manifest_version w =
      elim (copy_string (peek_update_manifest_string w (codes "manifestVersion"))) [
        | none ↦ negsuc 0
        | some s ↦ if length s == 0 then negsuc 0 else atoi s
      ]

  abbrev pub is_supported : ℤ → Bool
  is_supported (pos n) = leb P.version_min n && leb n P.version_max
  is_supported (negsuc n) = false

  -- The number of the action, where there is one.
  unfoldable pub action_number : J.Object → Option ℕ
  action_number o =
      if J.dothas_value o P.action_field then some (J.dotget_number o P.action_field) else none

  abbrev pub is_cancel : J.Object → Bool
  is_cancel o = elim (action_number o) [ none ↦ false | some n ↦ P.is_cancel_number n ]

  abbrev pub is_undefined : J.Object → Bool
  is_undefined o = elim (action_number o) [ none ↦ true | some n ↦ P.is_undefined_number n ]

  -- _Json_ValidateManifestHash
  unfoldable pub validate_manifest_hash : J.Object → Bool
  validate_manifest_hash o = elim (J.get_string o P.update_manifest_field) [
    | none ↦ false
    | some manifest ↦ elim (J.get_string o P.signature_field) [
      | none ↦ false
      | some signature ↦ elim (get_payload_from_jwt M D (some signature)) [
        | none ↦ false
        | some payload ↦ elim (D.parse_object payload) [
          | none ↦ false
          | some claims ↦ elim (J.get_string claims P.hash_field) [
            | none ↦ false
            | some hash ↦ P.is_valid_buffer_hash manifest hash
          ]
        ]
      ]
    ]
  ]

  -- The signature and the hash of the manifest.
  unfoldable pub validate_signature : J.Object → Bool
  validate_signature o = elim (J.get_string o P.signature_field) [
    | none ↦ false
    | some signature ↦
        is_success (verify_jws_with_sjwk M D (some signature)).0 && validate_manifest_hash o
  ]

  -- The object of the manifest, which is a text or an object itself.
  unfoldable pub read_manifest : J.Object → ParseError ⊎ Option J.Object
  read_manifest o =
      if P.is_string o P.update_manifest_field
      then elim (J.get_string o P.update_manifest_field) [
        | none ↦ inl no_update_manifest
        | some manifest ↦ inr (D.parse_object manifest)
      ]
      else if P.is_object o P.update_manifest_field
      then inr
          (elim (P.serialize o P.update_manifest_field) [ none ↦ none | some s ↦ D.parse_object s ])
      else inr none

  -- A manifest that is in a file of its own is not supported.
  unfoldable pub check_manifest : (validate_manifest : Bool) → J.Object → Workflow J → Parsed J
  check_manifest validate_manifest manifest w =
      let w' = record w { update_manifest = some manifest } in
      if is_null_or_empty (J.get_string manifest (codes "detachedManifestFileId"))
      then if validate_manifest && not (is_supported (get_update_manifest_version w'))
        then rejected unsupported_version
        else parsed w'
      else rejected bad_update_manifest

  unfoldable pub parse_manifest : (validate_manifest : Bool) → J.Object → Workflow J → Parsed J
  parse_manifest validate_manifest o w = elim (read_manifest o) [
    | inl e ↦ rejected e
    | inr m ↦ elim m [
      | none ↦ rejected bad_update_manifest
      | some manifest ↦ check_manifest validate_manifest manifest w
    ]
  ]

  -- The object of the update action. The signature is checked where there is an action to do.
  unfoldable pub parse_action : (validate_manifest : Bool) → J.Object → Parsed J
  parse_action validate_manifest o =
      let w = record P.zero_workflow { update_action = some o } in
      if is_cancel o
      then parsed w
      else if validate_manifest && not (is_undefined o) && not (validate_signature o)
      then rejected validation_failed
      else parse_manifest validate_manifest o w

  -- _workflow_parse
  unfoldable pub workflow_parse : (is_file : Bool) → Bytes → (validate_manifest : Bool) → Parsed J
  workflow_parse is_file source validate_manifest =
      if P.allocates_workflow
      then elim (if is_file then P.parse_file source else P.parse_value source) [
        | none ↦ rejected (if is_file then invalid_action_file else invalid_action_string)
        | some root ↦ elim root [
          | none ↦ rejected invalid_action
          | some o ↦ parse_action validate_manifest o
        ]
      ]
      else rejected no_memory

  -- _workflow_init_helper
  unfoldable pub init_helper : Workflow J → Parsed J
  init_helper w = elim J.init_object [
    | none ↦ rejected no_memory
    | some empty ↦ parsed (record w {
      parent = null;
      child_count = 0;
      children_max = 0;
      properties = some empty;
      results = some empty;
      result_details = some [];
      installed_update_id = some [];
      result = record { result_code = P.failure_code; extended_result_code = 0 };
      result_success_erc = 0;
      update_file_inodes = none;
    })
  ]

  unfoldable pub then_init : Parsed J → Parsed J
  then_init (rejected e) = rejected e
  then_init (parsed w) = init_helper w

  unfoldable pub workflow_init : Option Bytes → (validate_manifest : Bool) → Parsed J
  workflow_init none validate_manifest = rejected bad_parameter
  workflow_init (some update_manifest_json) validate_manifest =
      then_init (workflow_parse false update_manifest_json validate_manifest)

  unfoldable pub workflow_init_from_file : Option Bytes → (validate_manifest : Bool) → Parsed J
  workflow_init_from_file none validate_manifest = rejected bad_parameter
  workflow_init_from_file (some update_manifest_file) validate_manifest =
      then_init (workflow_parse true update_manifest_file validate_manifest)
