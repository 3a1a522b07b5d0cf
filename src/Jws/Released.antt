-- ===== src/Jws/Released.antt =====
-- The keys that jws_utils.c makes are freed.
use mbed_ce_client_for_azure.Base.{
  ◌≡◌, refl, Bytes, codes, Option, none, some, ◌++◌, arith, Option-cases, inl, inr,
}
use mbed_ce_client_for_azure.Workflow.Parson.{Json}
use mbed_ce_client_for_azure.Crypto.{Mbedtls, free_crypto_key_handle, get_root_key_for_key_id}
use mbed_ce_client_for_azure.Crypto.Keys.{
  makes, frees, makes-append, frees-append, count, Owes, root_key_owed, rsa_keys_owed,
}
use mbed_ce_client_for_azure.Jws.{
  JwsResult, bad_structure, invalid_kid, Decoders, extract_jws_sections, get_string_value_from_json,
  extract_jws_header, header_field, use_key, verify_sjwk, verify_with_sjwk, verify_jws_with_sjwk,
  get_key_from_base64_encoded_jwk,
}

module _ {J : Json} (M : Mbedtls) (D : Decoders J) where
  jwk_owed : (blob : Option Bytes) → Owes (get_key_from_base64_encoded_jwk M D blob)
  unfolding get_key_from_base64_encoded_jwk makes frees
  jwk_owed blob = elim (Option-cases (extract_jws_sections D.allocates blob)) [
    | inl e ↦ ground (arith, e)
    | inr (x, e) ↦ elim (Option-cases (D.decode_to_string x.payload)) [
      | inl e' ↦ ground (arith, e, e')
      | inr (json, e') ↦ elim (Option-cases (get_string_value_from_json D json (codes "n"))) [
        | inl e'' ↦ ground (arith, e, e', e'')
        | inr (n, e'') ↦ elim (Option-cases (get_string_value_from_json D json (codes "e"))) [
          | inl e3 ↦ ground (arith, e, e', e'', e3)
          | inr (x', e3) ↦
              let owed = (rsa_keys_owed M n x').2 in ground (arith, e, e', e'', e3, owed)
        ]
      ]
    ]
  ]

  use_key-frees :
      (jws : Option Bytes) (k : Option M.Key) (missing : JwsResult)
      → (makes (use_key M D jws k missing).1 ≡ 0) × (frees (use_key M D jws k missing).1 ≡ count k)
  unfolding use_key free_crypto_key_handle makes frees
  use_key-frees jws none missing = (refl, refl)
  use_key-frees jws (some key) missing = (refl, omega arith)

  sjwk_balanced : (sjwk : Option Bytes) → let es = (verify_sjwk M D sjwk).1 in makes es ≡ frees es
  unfolding verify_sjwk makes frees
  sjwk_balanced sjwk = elim (Option-cases (extract_jws_header D.allocates sjwk)) [
    | inl e ↦ ground (arith, e)
    | inr (header, e) ↦ elim (Option-cases (header_field D (codes "kid") header)) [
      | inl e' ↦ ground (arith, e, e')
      | inr (none, e') ↦ ground (arith, e, e')
      | inr (some kid, e') ↦
          let made = get_root_key_for_key_id M kid in
          let owed = root_key_owed M kid in
          let used = use_key-frees sjwk made.0 invalid_kid in
          let es = (use_key M D sjwk made.0 invalid_kid).1 in
          ground (arith, e, e', owed, used, makes-append made.1 es, frees-append made.1 es)
    ]
  ]

  with_sjwk_balanced :
      (jws : Option Bytes) (sjwk : Bytes)
      → let es = (verify_with_sjwk M D jws sjwk).1 in makes es ≡ frees es
  unfolding verify_with_sjwk
  with_sjwk_balanced jws sjwk =
      let a = (verify_sjwk M D (some sjwk)).1 in
      let first = sjwk_balanced (some sjwk) in
      let k = get_key_from_base64_encoded_jwk M D (some sjwk) in
      let owed = jwk_owed (some sjwk) in
      let c = (use_key M D jws k.0 bad_structure).1 in
      let used = use_key-frees jws k.0 bad_structure in
      ground (
        arith,
        first,
        owed,
        used,
        makes-append (a ++ k.1) c,
        frees-append (a ++ k.1) c,
        makes-append a k.1,
        frees-append a k.1,
      )

  -- On every path each key that the verification makes is freed.
  pub verify_jws_with_sjwk-frees :
      (jws : Option Bytes) → let es = (verify_jws_with_sjwk M D jws).1 in makes es ≡ frees es
  unfolding verify_jws_with_sjwk makes frees
  verify_jws_with_sjwk-frees jws = elim (Option-cases (extract_jws_header D.allocates jws)) [
    | inl e ↦ ground (arith, e)
    | inr (header, e) ↦ elim (Option-cases (header_field D (codes "sjwk") header)) [
      | inl e' ↦ ground (arith, e, e')
      | inr (none, e') ↦ ground (arith, e, e')
      | inr (some sjwk, e') ↦ ground (arith, e, e', with_sjwk_balanced jws sjwk)
    ]
  ]
