-- ===== src/Manifest/Authentic.antt =====
-- Which workflow objects workflow_init of workflow_utils.c makes.
use mbed_ce_client_for_azure.Base.{
  ◌≡◌, refl, ap, sym, ◌∙◌, arith, Bool, true, not, ◌&&◌, Option, none, some, Bytes, codes,
  Bool-cases, Option-cases, ◌⊎◌, inl, inr,
}
use mbed_ce_client_for_azure.Strings.Number.{is_null_or_empty}
use mbed_ce_client_for_azure.Workflow.Parson.{Json}
use mbed_ce_client_for_azure.Workflow.{Workflow}
use mbed_ce_client_for_azure.Crypto.{Mbedtls}
use mbed_ce_client_for_azure.Jws.{
  JwsResult, success, Decoders, get_payload_from_jwt, verify_jws_with_sjwk,
}
use mbed_ce_client_for_azure.Jws.Trust.{IsTrusted, verify_jws_with_sjwk_lem}
use mbed_ce_client_for_azure.Manifest.{
  ParseError, Parsed, rejected, parsed, Parser, is_supported, is_cancel, is_undefined,
  validate_manifest_hash, is_success, validate_signature, read_manifest, check_manifest,
  parse_manifest, parse_action, workflow_parse, init_helper, then_init, workflow_init,
  get_update_manifest_version,
}

module _ {J : Json} (M : Mbedtls) (D : Decoders J) (P : Parser J) where
  -- A value that json_object_get_string gives is a string.
  unfoldable pub IsTyped : Type 0
  IsTyped = (o : J.Object) (k v : Bytes) → J.get_string o k ≡ some v → P.is_string o k ≡ true

  -- The payload of the signature holds a hash that the text of the manifest has.
  pub record IsHashed (signature manifest : Bytes) : Type 0 where
    pub payload : Bytes
    pub claims : J.Object
    pub hash : Bytes
    pub has_payload : get_payload_from_jwt M D (some signature) ≡ some payload
    pub has_claims : D.parse_object payload ≡ some claims
    pub has_hash : J.get_string claims P.hash_field ≡ some hash
    pub matches : P.is_valid_buffer_hash manifest hash ≡ true

  -- The manifest of the object is the one that the trusted signature of the update action covers.
  pub record IsAuthentic (o : J.Object) (w : Workflow J) : Type 0 where
    pub signature : Bytes
    pub manifest : Bytes
    pub has_signature : J.get_string o P.signature_field ≡ some signature
    pub trusted : IsTrusted M D signature
    pub has_manifest : J.get_string o P.update_manifest_field ≡ some manifest
    pub hashed : IsHashed signature manifest
    pub taken : w.update_manifest ≡ D.parse_object manifest

  hash_lem :
      (o : J.Object) (signature : Bytes)
      → J.get_string o P.signature_field ≡ some signature
      → validate_manifest_hash M D P o ≡ true
      → (manifest : Bytes) × (J.get_string o P.update_manifest_field ≡ some manifest)
        × IsHashed signature manifest
  unfolding validate_manifest_hash
  hash_lem o signature s h = elim (Option-cases (J.get_string o P.update_manifest_field)) [
    | inl e ↦ absurd (ground (arith, e, h))
    | inr (manifest, e) ↦ elim (Option-cases (get_payload_from_jwt M D (some signature))) [
      | inl e' ↦ absurd (ground (arith, e, s, e', h))
      | inr (payload, e') ↦ elim (Option-cases (D.parse_object payload)) [
        | inl e'' ↦ absurd (ground (arith, e, s, e', e'', h))
        | inr (claims, e'') ↦ elim (Option-cases (J.get_string claims P.hash_field)) [
          | inl e''' ↦ absurd (ground (arith, e, s, e', e'', e''', h))
          | inr (hash, e''') ↦ (
            manifest,
            e,
            record {
              payload = payload;
              claims = claims;
              hash = hash;
              has_payload = e';
              has_claims = e'';
              has_hash = e''';
              matches = ground (arith, e, s, e', e'', e''', h);
            },
          )
        ]
      ]
    ]
  ]

  success_lem : (r : JwsResult) → is_success r ≡ true → r ≡ success
  success_lem r h = ground (arith, h)

  parsed_inj : (w w' : Workflow J) → parsed w ≡ parsed w' → w ≡ w'
  parsed_inj w w' h = cc

  inr_inj :
      (r : ParseError ⊎ Option J.Object) (m m' : Option J.Object) → r ≡ inr m → r ≡ inr m' → m ≡ m'
  inr_inj r m m' h h' = cc

  -- A manifest that is a text.
  read_manifest-text :
      (o : J.Object) (manifest : Bytes)
      → IsTyped
      → J.get_string o P.update_manifest_field ≡ some manifest
      → read_manifest M D P o ≡ inr (D.parse_object manifest)
  unfolding read_manifest IsTyped
  read_manifest-text o manifest typed is = rw (typed o P.update_manifest_field manifest is, is) refl

  -- A signature and a hash that are checked.
  signed_lem :
      (o : J.Object) (w : Workflow J)
      → IsTyped
      → validate_signature M D P o ≡ true
      → (m : J.Object) → read_manifest M D P o ≡ inr (some m)
      → w.update_manifest ≡ some m
      → IsAuthentic o w
  unfolding validate_signature
  signed_lem o w typed h m read taken = elim (Option-cases (J.get_string o P.signature_field)) [
    | inl e ↦ absurd (ground (arith, e, h))
    | inr (signature, e) ↦
        let first : is_success (verify_jws_with_sjwk M D (some signature)).0 ≡ true =
          ground (arith, e, h) in
        let second : validate_manifest_hash M D P o ≡ true = ground (arith, e, h) in
        let (manifest, is, hashed) = hash_lem o signature e second in
        record {
          signature = signature;
          manifest = manifest;
          has_signature = e;
          trusted = verify_jws_with_sjwk_lem M D signature (success_lem _ first);
          has_manifest = is;
          hashed = hashed;
          taken = taken ∙ sym (inr_inj _ _ _ (read_manifest-text o manifest typed is) read);
        }
  ]

  check_manifest_lem :
      (b : Bool) (m : J.Object) (w w' : Workflow J)
      → check_manifest M D P b m w ≡ parsed w'
      → w' ≡ record w { update_manifest = some m }
  unfolding check_manifest
  check_manifest_lem b m w w' h =
      let whole = record w { update_manifest = some m } in
      elim (Bool-cases (is_null_or_empty (J.get_string m (codes "detachedManifestFileId")))) [
        | inr detached ↦ absurd (ground (arith, detached, h))
        | inl embedded ↦
            elim (Bool-cases
              (b && not (is_supported M D P (get_update_manifest_version M D P whole)))) [
                | inl old ↦ absurd (ground (arith, embedded, old, h))
                | inr known ↦ parsed_inj w' whole (sym h ∙ rw (embedded, known) refl)
              ]
      ]

  read_cases :
      (r : ParseError ⊎ Option J.Object)
      → ((e : ParseError) × (r ≡ inl e)) ⊎ ((m : Option J.Object) × (r ≡ inr m))
  read_cases (inl e) = inl (e, refl)
  read_cases (inr m) = inr (m, refl)

  parse_manifest_lem :
      (b : Bool) (o : J.Object) (w w' : Workflow J)
      → parse_manifest M D P b o w ≡ parsed w'
      → (m : J.Object) × (read_manifest M D P o ≡ inr (some m))
        × (w' ≡ record w { update_manifest = some m })
  unfolding parse_manifest
  parse_manifest_lem b o w w' h = elim (read_cases (read_manifest M D P o)) [
    | inl (e, is) ↦ absurd (ground (arith, is, h))
    | inr (none, is) ↦ absurd (ground (arith, is, h))
    | inr (some m, is) ↦ (m, is, check_manifest_lem b m w w' (rw (is, parse_manifest) at h))
  ]

  init_helper_lem :
      (w w' : Workflow J)
      → init_helper M D P w ≡ parsed w'
      → (w'.update_action ≡ w.update_action) × (w'.update_manifest ≡ w.update_manifest)
  unfolding init_helper
  init_helper_lem w w' h = elim (Option-cases J.init_object) [
    | inl e ↦ absurd (ground (arith, e, h))
    | inr (empty, e) ↦ (ground (arith, e, h), ground (arith, e, h))
  ]

  -- The object of an update action that is not a cancel action and has one.
  parse_action_lem :
      (o : J.Object) (w : Workflow J)
      → IsTyped
      → parse_action M D P true o ≡ parsed w
      → (w.update_action ≡ some o)
        × ((is_cancel M D P o ≡ true) ⊎ (is_undefined M D P o ≡ true) ⊎ IsAuthentic o w)
  unfolding parse_action
  parse_action_lem o w typed h =
      let start = record P.zero_workflow { update_action = some o } in
      elim (Bool-cases (is_cancel M D P o)) [
        | inl cancel ↦ (
          ap (λ (x : Workflow J). x.update_action) (parsed_inj w start (sym h ∙ rw cancel refl)),
          inl cancel,
        )
        | inr work ↦ elim (Bool-cases (is_undefined M D P o)) [
          | inl open_end ↦
              let (m, read, e) = parse_manifest_lem true o start w (rw (work, open_end) at h) in
              (ap (λ (x : Workflow J). x.update_action) e, inr (inl open_end))
          | inr action ↦ elim (Bool-cases (validate_signature M D P o)) [
            | inr wrong ↦ absurd (ground (arith, work, action, wrong, h))
            | inl good ↦
                let (m, read, e) =
                  parse_manifest_lem true o start w (rw (work, action, good) at h) in
                (
                  ap (λ (x : Workflow J). x.update_action) e,
                  inr (
                      inr (
                        signed_lem o w typed good m read
                          (ap (λ (x : Workflow J). x.update_manifest) e))),
                )
          ]
        ]
      ]

  then_init_lem :
      (r : Parsed J) (w : Workflow J)
      → then_init M D P r ≡ parsed w
      → (v : Workflow J) × (r ≡ parsed v)
        × (w.update_action ≡ v.update_action)
        × (w.update_manifest ≡ v.update_manifest)
  unfolding then_init
  then_init_lem (rejected e) w h = absurd (cc)
  then_init_lem (parsed v) w h = let (a, m) = init_helper_lem v w h in (v, refl, a, m)

  same_manifest :
      (o : J.Object) (v w : Workflow J)
      → w.update_manifest ≡ v.update_manifest
      → (is_cancel M D P o ≡ true) ⊎ (is_undefined M D P o ≡ true) ⊎ IsAuthentic o v
      → (is_cancel M D P o ≡ true) ⊎ (is_undefined M D P o ≡ true) ⊎ IsAuthentic o w
  same_manifest o v w e (inl cancel) = inl cancel
  same_manifest o v w e (inr (inl open_end)) = inr (inl open_end)
  same_manifest o v w e (inr (inr a)) = inr (
      inr (record {
        signature = a.signature;
        manifest = a.manifest;
        has_signature = a.has_signature;
        trusted = a.trusted;
        has_manifest = a.has_manifest;
        hashed = a.hashed;
        taken = e ∙ a.taken;
      }))

  -- An object that workflow_init makes with validation, where strings are told from other values, holds an
  -- update action that cancels, or that has no action, or whose manifest is authentic: the action has a
  -- signature with a chain of keys up to a root key, the payload of the signature holds a hash, the text of
  -- the manifest has that hash, and the object holds the manifest that this text is.
  pub workflow_init_lem :
      (text : Bytes) (w : Workflow J)
      → IsTyped
      → workflow_init M D P (some text) true ≡ parsed w
      → (o : J.Object) × (P.parse_value text ≡ some (some o))
        × (w.update_action ≡ some o)
        × ((is_cancel M D P o ≡ true) ⊎ (is_undefined M D P o ≡ true) ⊎ IsAuthentic o w)
  unfolding workflow_init workflow_parse then_init
  workflow_init_lem text w typed h = elim (Bool-cases P.allocates_workflow) [
    | inr full ↦ absurd (ground (arith, full, h))
    | inl memory ↦ elim (Option-cases (P.parse_value text)) [
      | inl e ↦ absurd (ground (arith, memory, e, h))
      | inr (none, e) ↦ absurd (ground (arith, memory, e, h))
      | inr (some o, e) ↦
          let (v, done, action, manifest) =
            then_init_lem (parse_action M D P true o) w (rw (memory, e, then_init) at h) in
          let (kept, why) = parse_action_lem o v typed done in
          (o, e, action ∙ kept, same_manifest o v w manifest why)
    ]
  ]
