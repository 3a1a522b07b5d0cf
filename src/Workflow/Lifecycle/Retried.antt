-- ===== src/Workflow/Lifecycle/Retried.antt =====
-- What the retry of a deployment in workflow_utils.c keeps and resets.
use mbed_ce_client_for_azure.Base.{
  ◌≡◌, ◌≢◌, refl, arith, true, some, Bytes, ok, Option-cases, inl, inr,
}
use mbed_ce_client_for_azure.Workflow.Parson.{Json, IsJson}
use mbed_ce_client_for_azure.Workflow.{Ptr, null, retry, Workflow, Store, load, write}
use mbed_ce_client_for_azure.Workflow.Fields.{reset_state}
use mbed_ce_client_for_azure.Workflow.Properties.{property_retry_timestamp}
use mbed_ce_client_for_azure.Workflow.Properties.Ids.{
  get_properties_retry_timestamp, peek_retry_timestamp, set_retry_timestamp,
}
use mbed_ce_client_for_azure.Workflow.Lifecycle.{update_retry_deployment, update_for_retry}

module _ {J : Json} where
  timestamp_of :
      (p : Ptr) (s : Store J) (w : Workflow J) (o : J.Object) (token : Bytes)
      → p ≢ null
      → s p ≡ some w
      → w.properties ≡ some o
      → J.has_value o property_retry_timestamp ≡ true
      → J.get_string o property_retry_timestamp ≡ some token
      → peek_retry_timestamp p s ≡ ok (some token)
  unfolding peek_retry_timestamp get_properties_retry_timestamp load
  timestamp_of p s w o token d e has there is = ground arith

  retried :
      (p : Ptr) (token : Bytes) (s s' : Store J)
      → update_retry_deployment p token s ≡ ok (true, s')
      → (w : Workflow J) × (o o' : J.Object) × (p ≢ null)
        × (J.set_string o property_retry_timestamp token ≡ some o')
        × (s' p ≡ some (record w { cancellation_type = retry; properties = some o' }))
  unfolding update_retry_deployment set_retry_timestamp load
  retried p token s s' run = elim (Option-cases (s p)) [
    | inl dangling ↦ ground arith
    | inr (w, e) ↦ elim (Option-cases w.properties) [
      | inl lost ↦ ground arith
      | inr (o, has) ↦ elim (Option-cases (J.set_string o property_retry_timestamp token)) [
        | inl bad ↦ ground arith
        | inr (o', good) ↦ (w, o, o', ground arith, good, ground arith)
      ]
    ]
  ]

  -- With a JSON library that reads back what it sets: after a retry has been asked for with success,
  -- the object has the new retry timestamp and waits for the retry. When the retry is processed then,
  -- the timestamp stays, and the object starts to process the deployment with no operation in progress
  -- and no cancellation.
  pub retry_lem :
      (p : Ptr) (token : Bytes) (s s' : Store J)
      → IsJson J
      → update_retry_deployment p token s ≡ ok (true, s')
      → (w : Workflow J) × (s'' : Store J) × (s' p ≡ some w)
        × (w.cancellation_type ≡ retry)
        × (peek_retry_timestamp p s' ≡ ok (some token))
        × (update_for_retry p s' ≡ ok s'')
        × (s'' p ≡ some (reset_state w))
        × (peek_retry_timestamp p s'' ≡ ok (some token))
  unfolding update_for_retry load
  retry_lem p token s s' laws run =
      let (w, o, o', d, good, at) = retried p token s s' run in
      let w' : Workflow J = record w { cancellation_type = retry; properties = some o' } in
      let (there, is) = laws.set_string-get o o' property_retry_timestamp token good in
      let s'' = write s' p (reset_state w') in
      let after : s'' p ≡ some (reset_state w') = ground arith in
      (
        w',
        s'',
        at,
        refl,
        timestamp_of p s' w' o' token d at refl there is,
        ground (arith, at),
        after,
        timestamp_of p s'' (reset_state w') o' token d after refl there is,
      )
