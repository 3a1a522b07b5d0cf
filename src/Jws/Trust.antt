-- ===== src/Jws/Trust.antt =====
-- The chain of keys behind a signature that VerifyJWSWithSJWK of jws_utils.c accepts.
use mbed_ce_client_for_azure.Base.{
  ◌≡◌, refl, Option, none, some, Bytes, codes, arith, Option-cases, inl, inr, ◌≢◌,
}
use mbed_ce_client_for_azure.Workflow.Parson.{Json}
use mbed_ce_client_for_azure.Crypto.{Mbedtls, get_root_key_for_key_id}
use mbed_ce_client_for_azure.Jws.{
  Sections, extract_jws_header, JwsResult, success, bad_structure, invalid_kid, Decoders,
  header_field, verify_jws_with_key, verify_sjwk, verify_with_sjwk, verify_jws_with_sjwk, use_key,
  get_key_from_base64_encoded_jwk,
}
use mbed_ce_client_for_azure.Jws.Split.{Splits}
use mbed_ce_client_for_azure.Jws.Verify.{IsSigned, verify_jws_with_key_lem}

module _ {J : Json} (M : Mbedtls) (D : Decoders J) where
  -- A text splits into sections that are signed by the key.
  pub record IsSignedBy (jws : Bytes) (key : M.Key) : Type 0 where
    pub sections : Sections
    pub splits : Splits jws sections
    pub signed : IsSigned M D sections key

  -- A key that is signed by a root key, which its header names.
  pub record IsRooted (sjwk : Bytes) : Type 0 where
    pub header : Bytes
    pub kid : Bytes
    pub root_key : M.Key
    pub has_header : extract_jws_header D.allocates (some sjwk) ≡ some header
    pub has_kid : header_field D (codes "kid") header ≡ some (some kid)
    pub has_root : M.key_for_kid kid ≡ some root_key
    pub signed : IsSignedBy sjwk root_key

  -- The text carries a signed key in its header, and that key signs the text.
  pub record IsTrusted (jws : Bytes) : Type 0 where
    pub header : Bytes
    pub sjwk : Bytes
    pub key : M.Key
    pub has_header : extract_jws_header D.allocates (some jws) ≡ some header
    pub has_sjwk : header_field D (codes "sjwk") header ≡ some (some sjwk)
    pub rooted : IsRooted sjwk
    pub has_key : (get_key_from_base64_encoded_jwk M D (some sjwk)).0 ≡ some key
    pub signed : IsSignedBy jws key

  accepted :
      (jws : Bytes) (key : M.Key)
      → verify_jws_with_key M D (some jws) key ≡ success
      → IsSignedBy jws key
  accepted jws key h =
      let (x, splits, signed) = (verify_jws_with_key_lem M D jws key).0 h in
      record { sections = x; splits = splits; signed = signed }

  used :
      (jws : Bytes) (k : Option M.Key) (missing : JwsResult)
      → missing ≢ success
      → (use_key M D (some jws) k missing).0 ≡ success
      → (key : M.Key) × (k ≡ some key) × IsSignedBy jws key
  unfolding use_key
  used jws none missing other h = absurd (other h)
  used jws (some key) missing other h = (key, refl, accepted jws key h)

  rooted : (sjwk : Bytes) → (verify_sjwk M D (some sjwk)).0 ≡ success → IsRooted sjwk
  unfolding verify_sjwk get_root_key_for_key_id
  rooted sjwk h = elim (Option-cases (extract_jws_header D.allocates (some sjwk))) [
    | inl e ↦ absurd (ground (arith, e, h))
    | inr (header, e) ↦ elim (Option-cases (header_field D (codes "kid") header)) [
      | inl e' ↦ absurd (ground (arith, e, e', h))
      | inr (none, e') ↦ absurd (ground (arith, e, e', h))
      | inr (some kid, e') ↦
          let k = (get_root_key_for_key_id M kid).0 in
          let done : (use_key M D (some sjwk) k invalid_kid).0 ≡ success =
            ground (arith, e, e', h) in
          let (key, found, signed) = used sjwk k invalid_kid (λ q. cc) done in
          record {
            header = header;
            kid = kid;
            root_key = key;
            has_header = e;
            has_kid = e';
            has_root = ground (arith, found);
            signed = signed;
          }
    ]
  ]

  -- A text is accepted only with a chain of keys: its header decodes to a JSON text with a signed key,
  -- whose own header names a root key that the root key store has and that signs it, and the key in
  -- the payload of this signed key signs the text.
  pub verify_jws_with_sjwk_lem :
      (jws : Bytes) → (verify_jws_with_sjwk M D (some jws)).0 ≡ success → IsTrusted jws
  unfolding verify_jws_with_sjwk verify_with_sjwk
  verify_jws_with_sjwk_lem jws h = elim (Option-cases (extract_jws_header D.allocates (some jws))) [
    | inl e ↦ absurd (ground (arith, e, h))
    | inr (header, e) ↦ elim (Option-cases (header_field D (codes "sjwk") header)) [
      | inl e' ↦ absurd (ground (arith, e, e', h))
      | inr (none, e') ↦ absurd (ground (arith, e, e', h))
      | inr (some sjwk, e') ↦
          let k = (get_key_from_base64_encoded_jwk M D (some sjwk)).0 in
          let first : (verify_sjwk M D (some sjwk)).0 ≡ success = ground (arith, e, e', h) in
          let second : (use_key M D (some jws) k bad_structure).0 ≡ success =
            ground (arith, e, e', h) in
          let (key, found, signed) = used jws k bad_structure (λ q. cc) second in
          record {
            header = header;
            sjwk = sjwk;
            key = key;
            has_header = e;
            has_sjwk = e';
            rooted = rooted sjwk first;
            has_key = found;
            signed = signed;
          }
    ]
  ]
