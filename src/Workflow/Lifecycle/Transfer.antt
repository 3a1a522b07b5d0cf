-- ===== src/Workflow/Lifecycle/Transfer.antt =====
-- What `workflow_transfer_data` of workflow_utils.c leaves in the two objects.
use mbed_ce_client_for_azure.Base.{
  ℕ, Bool, true, false, Option, none, some, Bytes, ok, ◌≡◌, ◌≢◌, refl, arith, ◌∙◌, sym, take,
  Option-cases, inl, inr,
}
use mbed_ce_client_for_azure.Workflow.Parson.{Json}
use mbed_ce_client_for_azure.Workflow.{Ptr, null, Workflow, Store, load, write}
use mbed_ce_client_for_azure.Workflow.Properties.{
  properties_or_new, property_id, property_workflow_dot_id, stored, set_string_property,
  set_workfolder, property_work_folder,
}
use mbed_ce_client_for_azure.Workflow.Properties.Ids.{
  properties_string, action_string, get_properties_id, peek_workflow_dot_id, peek_id,
}
use mbed_ce_client_for_azure.Workflow.Lifecycle.{
  Printing, folder_of, move_action, move_manifest, move_properties, transfer_data,
}

module _ {J : Json} where
  abbrev id_of : Workflow J → Option Bytes
  id_of w = elim (properties_string w property_id) [
    | none ↦ action_string w property_workflow_dot_id
    | some i ↦ some i
  ]

  peek_id-id_of :
      (p : Ptr) (s : Store J) (w : Workflow J)
      → p ≢ null
      → s p ≡ some w
      → peek_id p s ≡ ok (id_of w)
  unfolding peek_id get_properties_id peek_workflow_dot_id load
  peek_id-id_of p s w h e = ground arith

  set_workfolder-ok :
      (p : Ptr) (text : Bytes) (s : Store J) (w : Workflow J)
      → p ≢ null
      → s p ≡ some w
      → (b : Bool) × (s' : Store J) × (o : Option J.Object) × (set_workfolder p (some (some text)) s
          ≡ ok (b, s'))
        × (s' p ≡ some (record w { properties = o }))
        × ((q : ℕ) → q ≢ p → s' q ≡ s q)
  unfolding set_workfolder set_string_property stored load
  set_workfolder-ok p text s w h e = elim (Option-cases (properties_or_new w)) [
    | inl lost ↦ (false, s, w.properties, ground arith, ground arith, λ q n. refl)
    | inr (o, found) ↦ elim (Option-cases (J.set_string o property_work_folder (take 1023 text))) [
      | inl bad ↦ (
        false,
        write s p (record w { properties = some o }),
        some o,
        ground arith,
        ground arith,
        λ q n. ground arith,
      )
      | inr (o', good) ↦ (
        true,
        write s p (record w { properties = some o' }),
        some o',
        ground arith,
        ground arith,
        λ q n. ground arith,
      )
    ]
  ]

  abbrev pair : Store J → (t p : Ptr) (a b : Workflow J) → Store J
  pair s t p a b = write (write s t a) p b

  pair-target : (s : Store J) (t p : Ptr) (a b : Workflow J) → t ≢ p → pair s t p a b t ≡ some a
  pair-target s t p a b d = ground arith

  pair-source : (s : Store J) (t p : Ptr) (a b : Workflow J) → pair s t p a b p ≡ some b
  pair-source s t p a b = ground arith

  pair-other :
      (s : Store J) (t p q : Ptr) (a b : Workflow J) → q ≢ t → q ≢ p → pair s t p a b q ≡ s q
  pair-other s t p q a b h h' = ground arith

  module _ (t p : Ptr) (s : Store J) (a b : Workflow J) (h : t ≢ null) (h' : p ≢ null) (d : t ≢ p)
      (e : s t ≡ some a) (e' : s p ≡ some b) where
    move_action_lem :
        move_action t p s
        ≡ ok (
            pair s t p
              (record a { update_action = b.update_action })
              (record b { update_action = none }))
    unfolding move_action load
    move_action_lem = ground arith

    move_manifest_lem :
        move_manifest t p s
        ≡ ok (
            pair s t p
              (record a { update_manifest = b.update_manifest })
              (record b { update_manifest = none }))
    unfolding move_manifest load
    move_manifest_lem = ground arith

    move_properties_lem :
        move_properties t p s
        ≡ ok (pair s t p (record a { properties = b.properties }) (record b { properties = none }))
    unfolding move_properties load
    move_properties_lem = ground arith

  abbrev pub taken : Workflow J → Workflow J → Workflow J
  taken a b = record a {
    update_action = b.update_action;
    update_manifest = b.update_manifest;
    properties = b.properties;
  }

  abbrev pub emptied : Workflow J → Workflow J
  emptied b = record b { update_action = none; update_manifest = none; properties = none }

  moved_all :
      (t p : Ptr) (s : Store J) (a b : Workflow J)
      → t ≢ null
      → p ≢ null
      → t ≢ p
      → s t ≡ some a
      → s p ≡ some b
      → (s1 s2 s' : Store J) × (move_action t p s ≡ ok s1)
        × (move_manifest t p s1 ≡ ok s2)
        × (move_properties t p s2 ≡ ok s')
        × (s' t ≡ some (taken a b))
        × (s' p ≡ some (emptied b))
        × ((q : ℕ) → q ≢ t → q ≢ p → s' q ≡ s q)
  moved_all t p s a b h h' d e e' =
      let a1 : Workflow J = record a { update_action = b.update_action } in
      let b1 : Workflow J = record b { update_action = none } in
      let a2 : Workflow J = record a1 { update_manifest = b.update_manifest } in
      let b2 : Workflow J = record b1 { update_manifest = none } in
      let s1 = pair s t p a1 b1 in
      let s2 = pair s1 t p a2 b2 in
      let s3 = pair s2 t p (taken a b) (emptied b) in
      (
        s1,
        s2,
        s3,
        move_action_lem t p s a b h h' d e e',
        move_manifest_lem t p s1 a1 b1 h h' d (pair-target s t p a1 b1 d) (pair-source s t p a1 b1),
        move_properties_lem t p s2 a2 b2 h h' d (pair-target s1 t p a2 b2 d)
            (pair-source s1 t p a2 b2),
        pair-target s2 t p _ _ d,
        pair-source s2 t p _ _,
        λ q n n'.
            pair-other s2 t p q _ _ n n'
            ∙ pair-other s1 t p q _ _ n n'
            ∙ pair-other s t p q _ _ n n',
      )

  transfer_data_run :
      (pr : Printing) (t p : Ptr) (s s0 s1 s2 s3 : Store J) (b : Workflow J) (action : J.Object)
      (id : Option Bytes) (done : Bool)
      → p ≢ null
      → s p ≡ some b
      → b.update_action ≡ some action
      → peek_id p s ≡ ok id
      → set_workfolder t (some (some (folder_of pr id))) s ≡ ok (done, s0)
      → move_action t p s0 ≡ ok s1
      → move_manifest t p s1 ≡ ok s2
      → move_properties t p s2 ≡ ok s3
      → transfer_data pr t p s ≡ ok (true, s3)
  unfolding transfer_data load
  transfer_data_run pr t p s s0 s1 s2 s3 b action id done d e held named stored_folder m1 m2 m3 =
      ground (arith, held, named, stored_folder, m1, m2, m3)

  -- A transfer from another object with an update action succeeds and gives the target the action,
  -- the manifest and the properties, and the source none of them; every other object stays as it
  -- is. The folder that is stored before does not stay.
  pub transfer_data-ok :
      (pr : Printing) (t p : Ptr) (s : Store J) (a b : Workflow J) (action : J.Object)
      → t ≢ null
      → p ≢ null
      → t ≢ p
      → s t ≡ some a
      → s p ≡ some b
      → b.update_action ≡ some action
      → (s' : Store J) × (transfer_data pr t p s ≡ ok (true, s'))
        × (s' t ≡ some (taken a b))
        × (s' p ≡ some (emptied b))
        × ((q : ℕ) → q ≢ t → q ≢ p → s' q ≡ s q)
  transfer_data-ok pr t p s a b action h h' d e e' held =
      let id = peek_id-id_of p s b h' e' in
      let (done, s0, o, stored_folder, at, others) =
        set_workfolder-ok t (folder_of pr (id_of b)) s a h e in
      let there : s0 p ≡ some b = others p (λ x. d (sym x)) ∙ e' in
      let (s1, s2, s3, m1, m2, m3, at', from, others') =
        moved_all t p s0 (record a { properties = o }) b h h' d at there in
      (
        s3,
        transfer_data_run pr t p s s0 s1 s2 s3 b action (id_of b) done h' e' held id stored_folder
            m1 m2 m3,
        at',
        from,
        λ q n n'. others' q n n' ∙ others q n,
      )
