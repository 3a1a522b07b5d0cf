-- ===== src/Workflow/Properties/Ids.antt =====
-- The ids and the retry timestamps of workflow_utils.c.
use mbed_ce_client_for_azure.Base.{
  ◌==◌, Bool, true, false, Option, none, some, [], ◌∷◌, Bytes, str_eq, if◌then◌else◌, Run, ok,
  ◌>>=◌, ltb, ℤ, pos, negsuc,
}
use mbed_ce_client_for_azure.Workflow.Parson.{Json}
use mbed_ce_client_for_azure.Workflow.{Ptr, null, Workflow, Store, load, write, peek}
use mbed_ce_client_for_azure.Workflow.Properties.{
  property_id, property_retry_timestamp, property_workflow_dot_id,
  property_workflow_dot_retry_timestamp,
}

module _ {J : Json} where
  -- A string of the properties, where it is there.
  abbrev pub properties_string : Workflow J → Bytes → Option Bytes
  properties_string w name = elim w.properties [
    | none ↦ none
    | some o ↦ if J.has_value o name then J.get_string o name else none
  ]

  -- A string of the update action, where it is there.
  abbrev pub action_string : Workflow J → Bytes → Option Bytes
  action_string w name = elim w.update_action [
    | none ↦ none
    | some o ↦ if J.dothas_value o name then J.dotget_string o name else none
  ]

  unfoldable pub get_properties_id : Ptr → Store J → Run (Option Bytes)
  get_properties_id handle = peek handle none (λ w. properties_string w property_id)

  unfoldable pub get_properties_retry_timestamp : Ptr → Store J → Run (Option Bytes)
  get_properties_retry_timestamp handle =
      peek handle none (λ w. properties_string w property_retry_timestamp)

  unfoldable pub peek_workflow_dot_id : Ptr → Store J → Run (Option Bytes)
  peek_workflow_dot_id handle = peek handle none (λ w. action_string w property_workflow_dot_id)

  unfoldable pub peek_workflow_dot_retry_timestamp : Ptr → Store J → Run (Option Bytes)
  peek_workflow_dot_retry_timestamp handle =
      peek handle none (λ w. action_string w property_workflow_dot_retry_timestamp)

  unfoldable pub peek_id : Ptr → Store J → Run (Option Bytes)
  unfolding get_properties_id peek_workflow_dot_id
  peek_id handle s =
      if handle == null
      then ok none
      else (get_properties_id handle s >>= λ id. elim id [
        | none ↦ peek_workflow_dot_id handle s
        | some i ↦ ok (some i)
      ])

  unfoldable pub peek_retry_timestamp : Ptr → Store J → Run (Option Bytes)
  unfolding get_properties_retry_timestamp peek_workflow_dot_retry_timestamp
  peek_retry_timestamp handle s =
      if handle == null
      then ok none
      else (get_properties_retry_timestamp handle s >>= λ t. elim t [
        | none ↦ peek_workflow_dot_retry_timestamp handle s
        | some i ↦ ok (some i)
      ])

  -- `json_object_set_string` fails on a null object.
  abbrev set_property_string : Ptr → Bytes → Bytes → Store J → Run (Bool × Store J)
  set_property_string handle name value s =
      if handle == null
      then ok (false, s)
      else (load handle s >>= λ w. elim w.properties [
        | none ↦ ok (false, s)
        | some o ↦ elim (J.set_string o name value) [
          | none ↦ ok (false, s)
          | some o' ↦ ok (true, write s handle (record w { properties = some o' }))
        ]
      ])

  unfoldable pub set_id : Ptr → Bytes → Store J → Run (Bool × Store J)
  set_id handle = set_property_string handle property_id

  unfoldable pub set_retry_timestamp : Ptr → Bytes → Store J → Run (Bool × Store J)
  set_retry_timestamp handle = set_property_string handle property_retry_timestamp

-- The sign of `strcmp`.
unfoldable pub strcmp : Bytes → Bytes → ℤ
strcmp [] [] = pos 0
strcmp [] (_ ∷ _) = negsuc 0
strcmp (_ ∷ _) [] = pos 1
strcmp (a ∷ s) (b ∷ t) =
    let rest = strcmp s t in if ltb a b then negsuc 0 else if ltb b a then pos 1 else rest

module _ {J : Json} where
  unfoldable pub id_compare : Ptr → Ptr → Store J → Run ℤ
  id_compare handle0 handle1 s = peek_id handle0 s >>= λ id0. peek_id handle1 s >>= λ id1.
      elim id0 [
        | none ↦ ok (negsuc 0)
        | some i ↦ elim id1 [ none ↦ ok (negsuc 0) | some j ↦ ok (strcmp i j) ]
      ]

  unfoldable pub isequal_id : Ptr → Option Bytes → Store J → Run Bool
  isequal_id handle workflow_id s = peek_id handle s >>= λ id. elim id [
    | none ↦ ok false
    | some i ↦ ok (elim workflow_id [ none ↦ false | some j ↦ str_eq i j ])
  ]
