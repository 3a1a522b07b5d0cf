-- ===== src/Manifest/Tests.antt =====
-- A toy library, at which the theorem on workflow_init is applied.
use mbed_ce_client_for_azure.Base.{
  ℕ, ◌==◌, true, false, ◌≡◌, refl, some, none, [], Bytes, codes, str_eq, if◌then◌else◌, ◌⊎◌, pos,
}
use mbed_ce_client_for_azure.Strings.Number.{is_null_or_empty}
use mbed_ce_client_for_azure.Strings.UpdateType.{strchr}
use mbed_ce_client_for_azure.Workflow.Parson.{Json}
use mbed_ce_client_for_azure.Workflow.{
  Workflow, null, vacant, none_state, undefined, no_cancellation,
}
use mbed_ce_client_for_azure.Crypto.{
  Mbedtls, digest_of, is_valid_signature, verify_rs256_signature, algorithm_id_from_string,
  get_root_key_for_key_id, rsa_key_obj_from_b64_strings, rsa_key_obj_from_bytes, key_from_numbers,
}
use mbed_ce_client_for_azure.Jws.{
  extract_jws_sections, extract_jws_header, find_char_in_string, Decoders, verify_jws_with_key,
  get_payload_from_jwt, verify_jws_with_sjwk, verify_sjwk, verify_with_sjwk, use_key, header_field,
  verify_sections, get_string_value_from_json, get_key_from_base64_encoded_jwk,
}
use mbed_ce_client_for_azure.Manifest.{
  parsed, Parser, is_cancel, is_undefined, action_number, validate_manifest_hash,
  validate_signature, read_manifest, check_manifest, parse_manifest, parse_action, workflow_parse,
  init_helper, then_init, workflow_init, get_update_manifest_version, peek_update_manifest_string,
  copy_string, atoi, atoi_signed, atoi_digits,
}
use mbed_ce_client_for_azure.Manifest.Authentic.{IsTyped, IsAuthentic, workflow_init_lem}

abbrev string_of : Bytes → Bytes
string_of k =
    if str_eq k (codes "alg")
    then codes "RS256"
    else if str_eq k (codes "detachedManifestFileId")
    then []
    else if str_eq k (codes "manifestVersion")
    then codes "5"
    else codes "h.p.s"

abbrev json : Json
json = record {
  Object = Bytes;
  init_object = some [];
  has_value = λ o k. true;
  get_string = λ o k. some (string_of k);
  get_boolean = λ o k. none;
  set_string = λ o k v. none;
  set_null = λ o k. none;
  set_boolean = λ o k b. none;
  dothas_value = λ o k. true;
  dotget_string = λ o k. none;
  dotget_number = λ o k. 3;
}

abbrev mbedtls : Mbedtls
mbedtls = record {
  Mpi = Bytes;
  Key = ℕ;
  md_setup = true;
  md_starts = true;
  md_update = λ b. true;
  md_finish = λ b. some b;
  rsa_len = λ k. 1;
  pkcs1_verify = λ k d s. true;
  rsa_allocated = true;
  read_binary = λ b. some b;
  read_hex = λ b. some b;
  import_key = λ n e. some 7;
  complete = λ k. some k;
  decode = λ b. some b;
  key_for_kid = λ b. some 5;
}

abbrev decoders : Decoders json
decoders = record {
  allocates = λ n. true;
  decode_to_string = λ b. some b;
  decode_bytes = λ b. some b;
  parse_object = λ b. some b;
}

abbrev zeros : Workflow json
zeros = record {
  parent = null;
  level = pos 0;
  step_index = pos 0;
  children = λ i. vacant;
  child_count = 0;
  children_max = 0;
  update_action = none;
  update_manifest = none;
  properties = none;
  results = none;
  workflow_state = none_state;
  current_workflow_step = undefined;
  operation_in_progress = false;
  operation_cancelled = false;
  cancellation_type = no_cancellation;
  deferred_replacement = null;
  force_update = false;
  result = record { result_code = 0; extended_result_code = 0 };
  result_success_erc = 0;
  result_details = none;
  installed_update_id = none;
  update_file_inodes = none;
}

abbrev parser : Parser json
parser = record {
  allocates_workflow = true;
  parse_value = λ b. some (some b);
  parse_file = λ b. none;
  is_string = λ o k. true;
  is_object = λ o k. false;
  serialize = λ o k. none;
  is_valid_buffer_hash = λ b h. true;
  zero_workflow = zeros;
  is_cancel_number = λ n. n == 255;
  is_undefined_number = λ n. false;
  action_field = codes "workflow.action";
  update_manifest_field = codes "updateManifest";
  signature_field = codes "updateManifestSignature";
  hash_field = codes "sha256";
  failure_code = 0;
  version_min = 4;
  version_max = 5;
}

-- The value of a name is always a string.
typed : IsTyped mbedtls decoders parser
unfolding IsTyped
typed o k v h = refl

abbrev made : Workflow json
made = record zeros {
  update_action = some (codes "{}");
  update_manifest = some (codes "h.p.s");
  properties = some [];
  results = some [];
  result_details = some [];
  installed_update_id = some [];
}

is_made : workflow_init mbedtls decoders parser (some (codes "{}")) true ≡ parsed made
unfolding workflow_init workflow_parse then_init init_helper parse_action action_number
    parse_manifest read_manifest check_manifest get_update_manifest_version
    peek_update_manifest_string copy_string atoi atoi_signed atoi_digits validate_signature
    validate_manifest_hash get_payload_from_jwt is_null_or_empty verify_jws_with_sjwk
    extract_jws_header find_char_in_string strchr header_field get_string_value_from_json
    verify_with_sjwk verify_sjwk get_root_key_for_key_id use_key verify_jws_with_key
    extract_jws_sections verify_sections is_valid_signature algorithm_id_from_string
    verify_rs256_signature digest_of get_key_from_base64_encoded_jwk rsa_key_obj_from_b64_strings
    rsa_key_obj_from_bytes key_from_numbers
is_made = refl

workflow_init_lem_example :
    (o : Bytes) × (some (some (codes "{}")) ≡ some (some o))
    × (some (codes "{}") ≡ some o)
    × ((is_cancel mbedtls decoders parser o ≡ true)
        ⊎ (is_undefined mbedtls decoders parser o ≡ true)
        ⊎ IsAuthentic mbedtls decoders parser o made)
workflow_init_lem_example =
    workflow_init_lem mbedtls decoders parser (codes "{}") made typed is_made
