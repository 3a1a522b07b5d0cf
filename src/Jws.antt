-- ===== src/Jws.antt =====
-- mbed/COMPONENT_AZIOT_OTA/iot-hub-device-update_patch/utils/jws_utils/jws_utils.c: the JSON web
-- signatures of an update. The decoders and the JSON library are not part of the repository. The
-- temporary strings are freed on every path and are left out; the keys are not.
pub mod Split
pub mod Verify
pub mod Trust
pub mod Released
mod Tests
use mbed_ce_client_for_azure.Base.{
  ℕ, suc, ◌+◌, ◌-◌, Bool, ◌&&◌, ◌||◌, Option, none, some, List, [], ◌∷◌, ◌++◌, Bytes, codes, leb,
  ◌==◌, if◌then◌else◌, length, take, drop,
}
use mbed_ce_client_for_azure.Strings.UpdateType.{strchr}
use mbed_ce_client_for_azure.Workflow.Parson.{Json}
use mbed_ce_client_for_azure.Crypto.{
  Mbedtls, KeyEvent, is_valid_signature, rsa_key_obj_from_b64_strings, free_crypto_key_handle,
  get_root_key_for_key_id,
}

-- The size up to the first `c` and its position, or 0 and NULL.
unfoldable pub find_char_in_string : Bytes → ℕ → ℕ × Option ℕ
find_char_in_string s c = elim (strchr s c) [ none ↦ (0, none) | some i ↦ (i, some i) ]

pub record Sections : Type 0 where
  pub header : Bytes
  pub payload : Bytes
  pub signature : Bytes

-- `allocates` says whether malloc gives so many bytes.
unfoldable pub extract_jws_sections : (allocates : ℕ → Bool) → Option Bytes → Option Sections
extract_jws_sections allocates none = none
extract_jws_sections allocates (some jws) =
    let (header_len, header_end) = find_char_in_string jws b'.' in
    let after = drop (suc header_len) jws in
    let (payload_len, payload_end) = find_char_in_string after b'.' in
    let sig_len = length jws - payload_len - header_len - 2 in
    if length jws == 0
    then none
    else if header_len == 0 || leb (length jws) (header_len + 1)
    then none
    else if payload_len == 0 || leb (length jws) (header_len + payload_len + 2)
    then none
    else if allocates (header_len + 1) && allocates (payload_len + 1) && allocates (sig_len + 1)
    then some (record {
      header = take header_len jws;
      payload = take payload_len after;
      signature = take sig_len (drop (suc payload_len) after);
    })
    else none

unfoldable pub extract_jws_header : (allocates : ℕ → Bool) → Option Bytes → Option Bytes
extract_jws_header allocates none = none
extract_jws_header allocates (some jws) =
    let (header_len, header_end) = find_char_in_string jws b'.' in
    if length jws == 0
    then none
    else if header_len == 0 || leb (length jws) (header_len + 1)
    then none
    else if allocates (header_len + 1)
    then some (take header_len jws)
    else none

-- JWSResult
pub data JwsResult : Type 0 where
  success failed bad_structure invalid_signature invalid_kid : JwsResult

-- What is not in this file: memory, Base64URLDecodeToString, Base64URLDecode with `none` for NULL, and
-- the parser of the JSON library, which gives the object that a text holds.
pub record Decoders (J : Json) : Type 0 where
  pub allocates : ℕ → Bool
  pub decode_to_string : Bytes → Option Bytes
  pub decode_bytes : Bytes → Option Bytes
  pub parse_object : Bytes → Option J.Object

module _ {J : Json} (D : Decoders J) where
  unfoldable pub get_string_value_from_json : (text field_name : Bytes) → Option Bytes
  get_string_value_from_json text field_name = elim (D.parse_object text) [
    | none ↦ none
    | some o ↦ elim (J.get_string o field_name) [
      | none ↦ none
      | some v ↦ if D.allocates (length v + 1) then some v else none
    ]
  ]

  -- The string field of the decoded header.
  unfoldable pub header_field : (field_name header : Bytes) → Option (Option Bytes)
  unfolding get_string_value_from_json
  header_field field_name header = elim (D.decode_to_string header) [
    | none ↦ none
    | some json ↦ some (get_string_value_from_json json field_name)
  ]

module _ {J : Json} (M : Mbedtls) (D : Decoders J) where
  -- The structure, the header, the algorithm, and the signature of header and payload.
  unfoldable pub verify_sections : Sections → M.Key → JwsResult
  unfolding get_string_value_from_json
  verify_sections x key = elim (D.decode_to_string x.header) [
    | none ↦ failed
    | some header_json ↦ elim (get_string_value_from_json D header_json (codes "alg")) [
      | none ↦ bad_structure
      | some alg ↦
          if D.allocates (length x.header + length x.payload + 2)
          then (if is_valid_signature M (some alg) (D.decode_bytes x.signature)
                (some (x.header ++ b'.' ∷ x.payload)) key
              then success
              else invalid_signature)
          else failed
    ]
  ]

  unfoldable pub verify_jws_with_key : Option Bytes → M.Key → JwsResult
  unfolding verify_sections
  verify_jws_with_key blob key = elim (extract_jws_sections D.allocates blob) [
    | none ↦ bad_structure
    | some x ↦ verify_sections x key
  ]

  unfoldable pub get_payload_from_jwt : Option Bytes → Option Bytes
  get_payload_from_jwt blob = elim (extract_jws_sections D.allocates blob) [
    | none ↦ none
    | some x ↦ D.decode_to_string x.payload
  ]

  unfoldable pub get_key_from_base64_encoded_jwk : Option Bytes → Option M.Key × List KeyEvent
  unfolding get_string_value_from_json
  get_key_from_base64_encoded_jwk blob = elim (extract_jws_sections D.allocates blob) [
    | none ↦ (none, [])
    | some x ↦ elim (D.decode_to_string x.payload) [
      | none ↦ (none, [])
      | some json ↦ elim (get_string_value_from_json D json (codes "n")) [
        | none ↦ (none, [])
        | some n ↦ elim (get_string_value_from_json D json (codes "e")) [
          | none ↦ (none, [])
          | some e ↦ rsa_key_obj_from_b64_strings M n e
        ]
      ]
    ]
  ]

  -- The use of a key, which is freed at the end.
  unfoldable pub use_key : Option Bytes → Option M.Key → JwsResult → JwsResult × List KeyEvent
  use_key jws none missing = (missing, [])
  use_key jws (some key) missing =
      (verify_jws_with_key jws key, free_crypto_key_handle M (some key))

  unfoldable pub verify_sjwk : Option Bytes → JwsResult × List KeyEvent
  unfolding use_key header_field
  verify_sjwk sjwk = elim (extract_jws_header D.allocates sjwk) [
    | none ↦ (bad_structure, [])
    | some header ↦ elim (header_field D (codes "kid") header) [
      | none ↦ (failed, [])
      | some kid ↦ elim kid [
        | none ↦ (failed, [])
        | some kid' ↦
            let (key, events) = get_root_key_for_key_id M kid' in
            let (result, events') = use_key sjwk key invalid_kid in (result, events ++ events')
      ]
    ]
  ]

  -- The part of VerifyJWSWithSJWK behind the signed key.
  unfoldable pub verify_with_sjwk : Option Bytes → (sjwk : Bytes) → JwsResult × List KeyEvent
  unfolding use_key
  verify_with_sjwk jws sjwk =
      let (result, events) = verify_sjwk (some sjwk) in
      let (key, events') = get_key_from_base64_encoded_jwk (some sjwk) in
      let (result', events'') = use_key jws key bad_structure in
      elim result [ success ↦ (result', events ++ events' ++ events'') | other ↦ (other, events) ]

  unfoldable pub verify_jws_with_sjwk : Option Bytes → JwsResult × List KeyEvent
  unfolding verify_with_sjwk header_field
  verify_jws_with_sjwk jws = elim (extract_jws_header D.allocates jws) [
    | none ↦ (bad_structure, [])
    | some header ↦ elim (header_field D (codes "sjwk") header) [
      | none ↦ (failed, [])
      | some sjwk ↦ elim sjwk [
        | none ↦ (bad_structure, [])
        | some sjwk' ↦ if length sjwk' == 0 then (bad_structure, []) else verify_with_sjwk jws sjwk'
      ]
    ]
  ]
