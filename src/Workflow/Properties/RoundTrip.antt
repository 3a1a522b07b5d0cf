-- ===== src/Workflow/Properties/RoundTrip.antt =====
-- Setting and comparing the ids of workflow_utils.c.
use mbed_ce_client_for_azure.Base.{
  ◌≡◌, refl, arith, true, some, [], ◌∷◌, Bytes, str_eq, str_eq_refl, ok, pos, ◌↔◌, Option-cases,
  inl, inr,
}
use mbed_ce_client_for_azure.Workflow.Parson.{Json, IsJson}
use mbed_ce_client_for_azure.Workflow.{Ptr, Store, load}
use mbed_ce_client_for_azure.Workflow.Properties.{property_id}
use mbed_ce_client_for_azure.Workflow.Properties.Ids.{
  get_properties_id, peek_id, set_id, strcmp, id_compare, isequal_id,
}

strcmp-str_eq : (s t : Bytes) → (str_eq s t ≡ true) ↔ (strcmp s t ≡ pos 0)
unfolding strcmp
strcmp-str_eq [] [] = (λ h. refl, λ h. refl)
strcmp-str_eq [] (b ∷ t) = (λ h. cc, λ h. cc)
strcmp-str_eq (a ∷ s) [] = (λ h. cc, λ h. cc)
strcmp-str_eq (a ∷ s) (b ∷ t) =
    let (there, back) = strcmp-str_eq s t in (λ h. ground (arith, there), λ h. ground (arith, back))

module _ {J : Json} where
  set_id-read :
      (p : Ptr) (id : Bytes) (s s' : Store J)
      → IsJson J
      → set_id p id s ≡ ok (true, s')
      → peek_id p s' ≡ ok (some id)
  unfolding set_id peek_id get_properties_id load
  set_id-read p id s s' laws h = elim (Option-cases (s p)) [
    | inl dangling ↦ ground arith
    | inr (w, e) ↦ elim (Option-cases w.properties) [
      | inl lost ↦ ground arith
      | inr (o, has) ↦ elim (Option-cases (J.set_string o property_id id)) [
        | inl bad ↦ ground arith
        | inr (o', good) ↦
            let read = laws.set_string-get o o' property_id id good in ground (arith, read)
      ]
    ]
  ]

  -- With a JSON library that reads back what it sets, an id that is set with success is the id
  -- that is peeked and compared with afterwards.
  pub set_id_lem :
      (p : Ptr) (id : Bytes) (s s' : Store J)
      → IsJson J
      → set_id p id s ≡ ok (true, s')
      → (peek_id p s' ≡ ok (some id)) × (isequal_id p (some id) s' ≡ ok true)
  unfolding isequal_id
  set_id_lem p id s s' laws h =
      let has = set_id-read p id s s' laws h in (has, ground (arith, has, str_eq_refl id))

  -- Two objects with ids compare equal exactly if the one is equal to the id of the other.
  pub id_compare-isequal_id :
      (p q : Ptr) (i j : Bytes) (s : Store J)
      → peek_id p s ≡ ok (some i)
      → peek_id q s ≡ ok (some j)
      → (id_compare p q s ≡ ok (pos 0)) ↔ (isequal_id p (some j) s ≡ ok true)
  unfolding id_compare isequal_id
  id_compare-isequal_id p q i j s e e' =
      let (there, back) = strcmp-str_eq i j in
      (λ h. ground (arith, e, e', back), λ h. ground (arith, e, e', there))
