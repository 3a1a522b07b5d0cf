-- ===== src/Crypto.antt =====
-- mbed/COMPONENT_AZIOT_OTA/iot-hub-device-update_patch/utils/crypto_utils/crypto_lib.c over mbedtls,
-- which is not part of the repository and an argument here.
pub mod Keys
mod Tests
use mbed_ce_client_for_azure.Base.{
  ℕ, ◌+◌, Bool, true, false, ◌&&◌, ◌||◌, Option, none, some, List, [], ◌∷◌, Bytes, codes, leb, ◌==◌,
  if◌then◌else◌, length,
}

-- Each call gives its value, or `none` where mbedtls reports an error. A key is an RSA context that is
-- complete, and `decode` is Azure_Base64_Decode.
pub record Mbedtls : Type 1 where
  pub Mpi : Type 0
  pub Key : Type 0
  pub md_setup : Bool
  pub md_starts : Bool
  pub md_update : Bytes → Bool
  pub md_finish : Bytes → Option Bytes
  pub rsa_len : Key → ℕ
  pub pkcs1_verify : Key → (digest signature : Bytes) → Bool
  pub rsa_allocated : Bool
  pub read_binary : Bytes → Option Mpi
  pub read_hex : Bytes → Option Mpi
  pub import_key : Mpi → Mpi → Option Key
  pub complete : Key → Option Key
  pub decode : Bytes → Option Bytes
  pub key_for_kid : Bytes → Option Key

-- The RSA contexts that are made, and those that are freed.
pub data KeyEvent : Type 0 where
  made freed : KeyEvent

-- Algorithm_Id
pub data AlgorithmId : Type 0 where
  not_supported rsa256 : AlgorithmId

-- `tolower` in the C locale
abbrev pub to_lower : ℕ → ℕ
to_lower c = if leb b'A' c && leb c b'Z' then c + 32 else c

-- `strcasecmp (s, t) == 0`
abbrev pub str_case_eq : Bytes → Bytes → Bool
str_case_eq [] [] = true
str_case_eq [] (_ ∷ _) = false
str_case_eq (_ ∷ _) [] = false
str_case_eq (a ∷ s) (b ∷ t) = to_lower a == to_lower b && str_case_eq s t

unfoldable pub algorithm_id_from_string : Bytes → AlgorithmId
algorithm_id_from_string alg = if str_case_eq alg (codes "rs256") then rsa256 else not_supported

module _ (M : Mbedtls) where
  -- The hash of a blob, as far as the library computes it.
  unfoldable pub digest_of : Bytes → Option Bytes
  digest_of blob = if M.md_setup && M.md_starts && M.md_update blob then M.md_finish blob else none

  unfoldable pub verify_rs256_signature : (signature blob : Bytes) → M.Key → Bool
  unfolding digest_of
  verify_rs256_signature signature blob key = elim (digest_of blob) [
    | none ↦ false
    | some digest ↦ length signature == M.rsa_len key && M.pkcs1_verify key digest signature
  ]

  -- A pointer with its length is a list of bytes, or `none` for NULL.
  unfoldable pub is_valid_signature :
      (alg : Option Bytes) (signature blob : Option Bytes) → M.Key → Bool
  is_valid_signature (some alg) (some signature) (some blob) key =
      if length signature == 0 || length blob == 0
      then false
      else elim (algorithm_id_from_string alg) [
        | rsa256 ↦ verify_rs256_signature signature blob key
        | not_supported ↦ false
      ]
  is_valid_signature _ _ _ key = false

  -- The import and the completion, with the context that is freed where one of them fails.
  unfoldable pub key_from_numbers : Option M.Mpi → Option M.Mpi → Option M.Key × List KeyEvent
  key_from_numbers n e = elim n [
    | none ↦ (none, made ∷ freed ∷ [])
    | some n' ↦ elim e [
      | none ↦ (none, made ∷ freed ∷ [])
      | some e' ↦ elim (M.import_key n' e') [
        | none ↦ (none, made ∷ freed ∷ [])
        | some k ↦ elim (M.complete k) [
          | none ↦ (none, made ∷ freed ∷ [])
          | some k' ↦ (some k', made ∷ [])
        ]
      ]
    ]
  ]

  unfoldable pub rsa_key_obj_from_bytes : (n e : Bytes) → Option M.Key × List KeyEvent
  unfolding key_from_numbers
  rsa_key_obj_from_bytes n e =
      if M.rsa_allocated then key_from_numbers (M.read_binary n) (M.read_binary e) else (none, [])

  unfoldable pub rsa_key_obj_from_strings : (n e : Bytes) → Option M.Key × List KeyEvent
  unfolding key_from_numbers
  rsa_key_obj_from_strings n e =
      if M.rsa_allocated then key_from_numbers (M.read_hex n) (M.read_hex e) else (none, [])

  unfoldable pub rsa_key_obj_from_b64_strings : (n e : Bytes) → Option M.Key × List KeyEvent
  unfolding rsa_key_obj_from_bytes
  rsa_key_obj_from_b64_strings n e = elim (M.decode n) [
    | none ↦ (none, [])
    | some n' ↦ elim (M.decode e) [ none ↦ (none, []) | some e' ↦ rsa_key_obj_from_bytes n' e' ]
  ]

  unfoldable pub free_crypto_key_handle : Option M.Key → List KeyEvent
  free_crypto_key_handle none = []
  free_crypto_key_handle (some k) = freed ∷ []

  -- The root key store makes the key that it gives.
  unfoldable pub get_root_key_for_key_id : Bytes → Option M.Key × List KeyEvent
  get_root_key_for_key_id kid = elim (M.key_for_kid kid) [
    | none ↦ (none, [])
    | some k ↦ (some k, made ∷ [])
  ]
