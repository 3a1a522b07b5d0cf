-- ===== src/Workflow/Properties/Root.antt =====
-- The requests for a restart in workflow_utils.c, which are kept at the root of a tree.
use mbed_ce_client_for_azure.Base.{
  ℕ, zero, suc, ◌<◌, ◌≡◌, ◌≢◌, refl, arith, ◌==◌, true, false, some, Bytes, str_eq, ok, Bool-cases,
  inl, inr,
}
use mbed_ce_client_for_azure.Workflow.Parson.{Json, IsJson}
use mbed_ce_client_for_azure.Workflow.{Ptr, null, Workflow, Store, load, write}
use mbed_ce_client_for_azure.Workflow.Properties.{
  boolean_of, stored, set_boolean_property, get_boolean_property, root_loop, get_root, is_requested,
  request,
}

module _ {J : Json} where
  -- `n` steps up from `p` lead to the root `r`.
  pub data IsUnder (s : Store J) : ℕ → Ptr → Ptr → Type 0 where
    top : {r : Ptr} (w : Workflow J) → r ≢ null → s r ≡ some w → w.parent ≡ null → IsUnder s 0 r r
    step :
        {n : ℕ} {p r : Ptr} (w : Workflow J)
        → p ≢ null
        → s p ≡ some w
        → w.parent ≢ null
        → IsUnder s n w.parent r
        → IsUnder s (suc n) p r

  root_loop-IsUnder :
      (fuel n : ℕ) (p r : Ptr) (s : Store J)
      → n < fuel
      → IsUnder s n p r
      → root_loop fuel p s ≡ ok r
  unfolding root_loop load
  root_loop-IsUnder zero n p r s h u = absurd (omega arith)
  root_loop-IsUnder (suc fuel) n p r s h (top w d e is) = ground arith
  root_loop-IsUnder (suc fuel) n p r s h (step {n = m} w d e up u) =
      ground (arith, root_loop-IsUnder fuel m w.parent r s (omega arith) u)

  get_root-IsUnder :
      (fuel n : ℕ) (p r : Ptr) (s : Store J) → n < fuel → IsUnder s n p r → get_root fuel p s ≡ ok r
  unfolding get_root
  get_root-IsUnder fuel n p r s h (top w d e is) =
      ground (arith, root_loop-IsUnder fuel n p r s h (top w d e is))
  get_root-IsUnder fuel n p r s h (step w d e up u) =
      ground (arith, root_loop-IsUnder fuel n p r s h (step w d e up u))

  IsUnder-write :
      (s : Store J) (q : Ptr) (v v' : Workflow J)
      → s q ≡ some v
      → v'.parent ≡ v.parent
      → {n : ℕ} {p r : Ptr} → IsUnder s n p r
      → IsUnder (write s q v') n p r
  IsUnder-write s q v v' held same {r = r} (top w d e is) = elim (Bool-cases (r == q)) [
    | inl here ↦ top v' d (ground arith) (ground arith)
    | inr other ↦ top w d (ground arith) is
  ]
  IsUnder-write s q v v' held same {p = p} {r = r} (step {n = n} w d e up u) =
      elim (Bool-cases (p == q)) [
        | inl here ↦
            let to : w.parent ≡ v'.parent = ground arith in
            step v' d (ground arith) (ground arith) (rw to at (IsUnder-write s q v v' held same u))
        | inr other ↦ step w d (ground arith) up (IsUnder-write s q v v' held same u)
      ]

  requested :
      (r : Ptr) (k : Bytes) (s : Store J) (w : Workflow J) (o o' : J.Object)
      → r ≢ null
      → s r ≡ some w
      → w.properties ≡ some o
      → J.set_boolean o k true ≡ some o'
      → set_boolean_property r k true s ≡ ok (true, write s r (record w { properties = some o' }))
  unfolding set_boolean_property stored load
  requested r k s w o o' d e has good = ground arith

  get_boolean_property-some :
      (r : Ptr) (k : Bytes) (s : Store J) (w : Workflow J)
      → r ≢ null
      → s r ≡ some w
      → get_boolean_property r k s ≡ ok (boolean_of w k)
  unfolding get_boolean_property load
  get_boolean_property-some r k s w d e = ground arith

  -- With a JSON library that reads back what it sets: a restart that is requested at any object of
  -- a tree is seen from every object of the tree, and what is seen of the other requests stays.
  -- This needs fuel for the depth of the two objects, and that the root has properties and can
  -- store the request.
  pub request_lem :
      (fuel n m : ℕ) (a b r : Ptr) (k : Bytes) (s : Store J) (w : Workflow J) (o o' : J.Object)
      → IsJson J
      → n < fuel
      → m < fuel
      → IsUnder s n a r
      → IsUnder s m b r
      → r ≢ null
      → s r ≡ some w
      → w.properties ≡ some o
      → J.set_boolean o k true ≡ some o'
      → (s' : Store J) × (request fuel k a s ≡ ok (true, s'))
        × (is_requested fuel k b s' ≡ ok true)
        × ((j : Bytes) → str_eq j k ≡ false → is_requested fuel j b s' ≡ is_requested fuel j b s)
  unfolding request is_requested
  request_lem fuel n m a b r k s w o o' laws less less' under under' d e has good =
      let w' : Workflow J = record w { properties = some o' } in
      let s' = write s r w' in
      let at : s' r ≡ some w' = ground arith in
      let from_a = get_root-IsUnder fuel n a r s less under in
      let from_b = get_root-IsUnder fuel m b r s less' under' in
      let from_b' = get_root-IsUnder fuel m b r s' less' (IsUnder-write s r w w' e refl under') in
      let read = laws.set_boolean-get o o' k true good in
      (
        s',
        ground (arith, from_a, requested r k s w o o' d e has good),
        ground (arith, from_b', get_boolean_property-some r k s' w' d at, read),
        λ j other.
            let kept = laws.set_boolean-other o o' k j true good other in
            ground (
              arith,
              from_b,
              from_b',
              get_boolean_property-some r j s' w' d at,
              get_boolean_property-some r j s w d e,
              kept,
            ),
      )
