-- ===== src/Jws/Tests.antt =====
-- A toy library and a toy token, at which the theorems of jws_utils.c are applied.
use mbed_ce_client_for_azure.Base.{
  ◌↔◌, ℕ, true, false, ◌≡◌, refl, some, none, Bytes, codes, str_eq, if◌then◌else◌,
}
use mbed_ce_client_for_azure.Workflow.Parson.{Json}
use mbed_ce_client_for_azure.Crypto.{
  Mbedtls, digest_of, is_valid_signature, verify_rs256_signature, algorithm_id_from_string,
  get_root_key_for_key_id, rsa_key_obj_from_b64_strings, rsa_key_obj_from_bytes, key_from_numbers,
}
use mbed_ce_client_for_azure.Crypto.Keys.{makes, frees}
use mbed_ce_client_for_azure.Strings.UpdateType.{strchr}
use mbed_ce_client_for_azure.Jws.{
  Sections, extract_jws_sections, extract_jws_header, find_char_in_string, Decoders, success,
  verify_jws_with_key, verify_jws_with_sjwk, verify_sjwk, verify_with_sjwk, use_key, header_field,
  verify_sections, get_string_value_from_json, get_key_from_base64_encoded_jwk,
}
use mbed_ce_client_for_azure.Jws.Split.{Splits, extract_jws_sections-Splits}
use mbed_ce_client_for_azure.Jws.Verify.{IsSigned, verify_jws_with_key-IsSigned}
use mbed_ce_client_for_azure.Jws.Trust.{IsTrusted, verify_jws_with_sjwk_lem}
use mbed_ce_client_for_azure.Jws.Released.{verify_jws_with_sjwk-frees}

abbrev json : Json
json = record {
  Object = Bytes;
  init_object = none;
  has_value = λ o k. true;
  get_string = λ o k. some (if str_eq k (codes "alg") then codes "RS256" else codes "h.p.s");
  get_boolean = λ o k. none;
  set_string = λ o k v. none;
  set_null = λ o k. none;
  set_boolean = λ o k b. none;
  dothas_value = λ o k. false;
  dotget_string = λ o k. none;
  dotget_number = λ o k. 0;
}

abbrev mbedtls : Mbedtls
mbedtls = record {
  Mpi = Bytes;
  Key = ℕ;
  md_setup = true;
  md_starts = true;
  md_update = λ b. true;
  md_finish = λ b. some b;
  rsa_len = λ k. 1;
  pkcs1_verify = λ k d s. true;
  rsa_allocated = true;
  read_binary = λ b. some b;
  read_hex = λ b. some b;
  import_key = λ n e. some 7;
  complete = λ k. some k;
  decode = λ b. some b;
  key_for_kid = λ b. some 5;
}

abbrev decoders : Decoders json
decoders = record {
  allocates = λ n. true;
  decode_to_string = λ b. some b;
  decode_bytes = λ b. some b;
  parse_object = λ b. some b;
}

abbrev token : Bytes
token = codes "a.b.c"

abbrev parts : Sections
parts = record { header = codes "a"; payload = codes "b"; signature = codes "c" }

extract_jws_sections-Splits_example :
    (extract_jws_sections (λ n. true) (some token) ≡ some parts) ↔ Splits token parts
extract_jws_sections-Splits_example =
    extract_jws_sections-Splits (λ n. true) token parts (λ n. refl)

verify_jws_with_key-IsSigned_example :
    (verify_jws_with_key mbedtls decoders (some token) 5 ≡ success)
    ↔ ((x : Sections) × Splits token x × IsSigned mbedtls decoders x 5)
verify_jws_with_key-IsSigned_example =
    verify_jws_with_key-IsSigned mbedtls decoders token 5 (λ n. refl)

is_accepted : (verify_jws_with_sjwk mbedtls decoders (some token)).0 ≡ success
unfolding verify_jws_with_sjwk extract_jws_header find_char_in_string strchr header_field
    get_string_value_from_json verify_with_sjwk verify_sjwk get_root_key_for_key_id use_key
    verify_jws_with_key extract_jws_sections verify_sections is_valid_signature
    algorithm_id_from_string verify_rs256_signature digest_of get_key_from_base64_encoded_jwk
    rsa_key_obj_from_b64_strings rsa_key_obj_from_bytes key_from_numbers
is_accepted = refl

verify_jws_with_sjwk_lem_example : IsTrusted mbedtls decoders token
verify_jws_with_sjwk_lem_example = verify_jws_with_sjwk_lem mbedtls decoders token is_accepted

verify_jws_with_sjwk-frees_example :
    makes (verify_jws_with_sjwk mbedtls decoders (some token)).1
    ≡ frees (verify_jws_with_sjwk mbedtls decoders (some token)).1
verify_jws_with_sjwk-frees_example = verify_jws_with_sjwk-frees mbedtls decoders (some token)
