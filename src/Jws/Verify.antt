-- ===== src/Jws/Verify.antt =====
-- What a signature that jws_utils.c accepts has passed.
use mbed_ce_client_for_azure.Base.{
  ◌↔◌, ℕ, ◌<◌, ◌+◌, ◌≡◌, refl, true, false, Option, none, some, ◌∷◌, ◌++◌, Bytes, codes, length,
  ◌==◌, ==_iff, arith, Option-cases, inl, inr, length-append,
}
use mbed_ce_client_for_azure.Workflow.Parson.{Json}
use mbed_ce_client_for_azure.Crypto.{
  Mbedtls, str_case_eq, digest_of, is_valid_signature, verify_rs256_signature,
  algorithm_id_from_string,
}
use mbed_ce_client_for_azure.Jws.{
  Sections, extract_jws_sections, success, Decoders, get_string_value_from_json, verify_sections,
  verify_jws_with_key,
}
use mbed_ce_client_for_azure.Jws.Split.{Splits, extract_jws_sections_lem}

module _ {J : Json} (M : Mbedtls) (D : Decoders J) where
  -- The signature is one of RS256 over the header and the payload, by the key, and the header says
  -- that it is.
  pub record IsSigned (x : Sections) (key : M.Key) : Type 0 where
    pub header_json : Bytes
    pub algorithm : Bytes
    pub bytes : Bytes
    pub digest : Bytes
    pub decoded : D.decode_to_string x.header ≡ some header_json
    pub named : get_string_value_from_json D header_json (codes "alg") ≡ some algorithm
    pub is_rs256 : str_case_eq algorithm (codes "rs256") ≡ true
    pub signature_decoded : D.decode_bytes x.signature ≡ some bytes
    pub not_empty : 0 < length bytes
    pub hashed : digest_of M (x.header ++ b'.' ∷ x.payload) ≡ some digest
    pub key_size : length bytes ≡ M.rsa_len key
    pub verified : M.pkcs1_verify key digest bytes ≡ true

  valid_inv :
      (alg : Bytes) (signature : Option Bytes) (blob : Bytes) (key : M.Key)
      → is_valid_signature M (some alg) signature (some blob) key ≡ true
      → (bytes : Bytes) × (digest : Bytes) × (str_case_eq alg (codes "rs256") ≡ true)
        × (signature ≡ some bytes)
        × (0 < length bytes)
        × (digest_of M blob ≡ some digest)
        × (length bytes ≡ M.rsa_len key)
        × (M.pkcs1_verify key digest bytes ≡ true)
  unfolding is_valid_signature verify_rs256_signature algorithm_id_from_string
  valid_inv alg none blob key h = cc
  valid_inv alg (some bytes) blob key h = elim (Option-cases (digest_of M blob)) [
    | inl e ↦ absurd (ground (arith, e, h))
    | inr (digest, e) ↦ (
      bytes,
      digest,
      ground (arith, e, h),
      refl,
      ground (arith, e, h),
      e,
      ground (arith, e, h),
      ground (arith, e, h),
    )
  ]

  sections_inv : (x : Sections) (key : M.Key) → verify_sections M D x key ≡ success → IsSigned x key
  unfolding verify_sections
  sections_inv x key h = elim (Option-cases (D.decode_to_string x.header)) [
    | inl e ↦ absurd (ground (arith, e, h))
    | inr (json, e) ↦ elim (Option-cases (get_string_value_from_json D json (codes "alg"))) [
      | inl e' ↦ absurd (ground (arith, e, e', h))
      | inr (alg, e') ↦
          let blob = x.header ++ b'.' ∷ x.payload in
          let valid : is_valid_signature M (some alg) (D.decode_bytes x.signature) (some blob) key
              ≡ true =
            ground (arith, e, e', h) in
          let (bytes, digest, a, b, c, d, f, g) =
            valid_inv alg (D.decode_bytes x.signature) blob key valid in
          record {
            header_json = json;
            algorithm = alg;
            bytes = bytes;
            digest = digest;
            decoded = e;
            named = e';
            is_rs256 = a;
            signature_decoded = b;
            not_empty = c;
            hashed = d;
            key_size = f;
            verified = g;
          }
    ]
  ]

  valid_of :
      (alg bytes blob digest : Bytes) (key : M.Key)
      → str_case_eq alg (codes "rs256") ≡ true
      → 0 < length bytes
      → 0 < length blob
      → digest_of M blob ≡ some digest
      → length bytes ≡ M.rsa_len key
      → M.pkcs1_verify key digest bytes ≡ true
      → is_valid_signature M (some alg) (some bytes) (some blob) key ≡ true
  unfolding is_valid_signature verify_rs256_signature algorithm_id_from_string
  valid_of alg bytes blob digest key a b c d e f =
      let sized : (length bytes == 0) ≡ false = ground arith in
      let sized' : (length blob == 0) ≡ false = ground arith in
      let same : (length bytes == M.rsa_len key) ≡ true =
        (==_iff (length bytes) (M.rsa_len key)).1 e in
      rw (sized, sized', a, d, verify_rs256_signature, same, f) refl

  sections_of :
      (x : Sections) (key : M.Key)
      → ((n : ℕ) → D.allocates n ≡ true)
      → IsSigned x key
      → verify_sections M D x key ≡ success
  unfolding verify_sections
  sections_of x key memory s =
      let blob : 0 < length (x.header ++ b'.' ∷ x.payload) =
        omega (arith, length-append x.header (b'.' ∷ x.payload)) in
      let valid =
        valid_of s.algorithm s.bytes (x.header ++ b'.' ∷ x.payload) s.digest key s.is_rs256
          s.not_empty blob s.hashed s.key_size s.verified in
      rw
        (
          s.decoded,
          verify_sections,
          s.named,
          memory (length x.header + length x.payload + 2),
          s.signature_decoded,
          valid,
        )
        refl

  -- Where a text is accepted with a key, it splits into a header, a payload and a signature, of which
  -- the header decodes to a JSON text that names RS256, in any case, and the signature to bytes that
  -- are as long as the key and that mbedtls verifies by the key against the hash of the header, a '.'
  -- and the payload. With memory, each such text is accepted.
  pub verify_jws_with_key_lem :
      (jws : Bytes) (key : M.Key)
      → (verify_jws_with_key M D (some jws) key ≡ success
          → (x : Sections) × Splits jws x × IsSigned x key)
        × (((n : ℕ) → D.allocates n ≡ true)
            → (x : Sections) → Splits jws x
            → IsSigned x key
            → verify_jws_with_key M D (some jws) key ≡ success)
  unfolding verify_jws_with_key
  verify_jws_with_key_lem jws key = (
    accepted,
    λ memory x splits s.
        rw ((extract_jws_sections_lem D.allocates jws x).1 memory splits, verify_jws_with_key)
          (sections_of x key memory s),
  )
    where
      accepted :
          verify_jws_with_key M D (some jws) key ≡ success
          → (x : Sections) × Splits jws x × IsSigned x key
      accepted h = elim (Option-cases (extract_jws_sections D.allocates (some jws))) [
        | inl e ↦ absurd (ground (arith, e, h))
        | inr (x, e) ↦ (
          x,
          (extract_jws_sections_lem D.allocates jws x).0 e,
          sections_inv x key (ground (arith, e, h)),
        )
      ]

  -- With memory, a text is accepted with a key exactly if it splits into a header, a payload and a signature,
  -- of which the header decodes to a JSON text that names RS256, in any case, and the signature to bytes
  -- that are as long as the key and that mbedtls verifies by the key against the hash of the header, a '.'
  -- and the payload.
  pub verify_jws_with_key-IsSigned :
      (jws : Bytes) (key : M.Key)
      → ((n : ℕ) → D.allocates n ≡ true)
      → (verify_jws_with_key M D (some jws) key ≡ success)
        ↔ ((x : Sections) × Splits jws x × IsSigned x key)
  verify_jws_with_key-IsSigned jws key memory =
      let l = verify_jws_with_key_lem jws key in
      (l.0, λ (x, splits, signed). l.1 memory x splits signed)
