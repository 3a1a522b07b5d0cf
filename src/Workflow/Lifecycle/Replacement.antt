-- ===== src/Workflow/Lifecycle/Replacement.antt =====
-- What the replacement of a deployment in workflow_utils.c leaves in the current object and in the
-- deferred one.
use mbed_ce_client_for_azure.Base.{ℕ, Bool, true, some, ok, ◌≡◌, ◌≢◌, refl, arith}
use mbed_ce_client_for_azure.Workflow.Parson.{Json}
use mbed_ce_client_for_azure.Workflow.{Ptr, null, replacement, Workflow, Store, load, write}
use mbed_ce_client_for_azure.Workflow.Fields.{reset_state}
use mbed_ce_client_for_azure.Workflow.Lifecycle.{
  Printing, transfer_data, update_replacement_deployment, update_for_replacement,
}
use mbed_ce_client_for_azure.Workflow.Lifecycle.Transfer.{taken, emptied, transfer_data-ok}

module _ {J : Json} where
  update_for_replacement_run :
      (pr : Printing) (t : Ptr) (s s' : Store J) (w w' : Workflow J) (done : Bool)
      → t ≢ null
      → s t ≡ some w
      → transfer_data pr t w.deferred_replacement
          (write s t (record w { deferred_replacement = null }))
        ≡ ok (done, s')
      → s' t ≡ some w'
      → update_for_replacement pr t s ≡ ok (write s' t (reset_state w'))
  unfolding update_for_replacement load
  update_for_replacement_run pr t s s' w w' done d e moved_it e' = ground (arith, moved_it)

  -- With an operation in progress, a new deployment, another object with an update action, is
  -- deferred: the operation is asked to stop. When the replacement is processed then, the current
  -- object has the action, the manifest and the properties of the deferred one, and starts to
  -- process the deployment with no operation in progress and no cancellation; the deferred object
  -- has none of the three, and every other object stays as it is.
  pub replacement_lem :
      (pr : Printing) (t p : Ptr) (s : Store J) (a b : Workflow J) (action : J.Object)
      → t ≢ null
      → p ≢ null
      → t ≢ p
      → s t ≡ some a
      → s p ≡ some b
      → a.operation_in_progress ≡ true
      → b.update_action ≡ some action
      → (s1 s2 : Store J) × (a1 : Workflow J) × (update_replacement_deployment t p s
          ≡ ok (true, s1))
        × (s1 t ≡ some a1)
        × (a1.operation_cancelled ≡ true)
        × (a1.cancellation_type ≡ replacement)
        × (update_for_replacement pr t s1 ≡ ok s2)
        × (s2 t ≡ some (reset_state (taken (record a { deferred_replacement = null }) b)))
        × (s2 p ≡ some (emptied b))
        × ((q : ℕ) → q ≢ t → q ≢ p → s2 q ≡ s q)
  unfolding update_replacement_deployment load
  replacement_lem pr t p s a b action h h' d e e' busy held =
      let a1 : Workflow J = record a {
        cancellation_type = replacement;
        operation_cancelled = true;
        deferred_replacement = p;
      } in
      let a2 : Workflow J = record a1 { deferred_replacement = null } in
      let s1 = write s t a1 in
      let s1' = write s1 t a2 in
      let at : s1' t ≡ some a2 = ground arith in
      let there : s1' p ≡ some b = ground arith in
      let (s', ran, at', from, others) =
        transfer_data-ok pr t p s1' a2 b action h h' d at there held in
      (
        s1,
        write s' t (reset_state (taken a2 b)),
        a1,
        ground arith,
        ground arith,
        refl,
        refl,
        update_for_replacement_run pr t s1 s' a1 (taken a2 b) true h (ground arith) ran at',
        ground arith,
        ground (arith, from),
        λ q n n'. ground (arith, others q n n'),
      )
