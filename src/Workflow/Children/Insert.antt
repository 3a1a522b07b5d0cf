-- ===== src/Workflow/Children/Insert.antt =====
-- What `workflow_insert_child` of workflow_utils.c does to the parent, to the child and to the other
-- objects.
use mbed_ce_client_for_azure.Base.{
  ℕ, ◌+◌, ◌≤◌, ◌<◌, ◌≡◌, ◌≢◌, ap, ◌∙◌, arith, ◌==◌, true, false, some, ltb, if◌then◌else◌, ok, ℤ,
  suc_ℤ, Bool-cases, inl, inr,
}
use mbed_ce_client_for_azure.Workflow.Parson.{Json}
use mbed_ce_client_for_azure.Workflow.{
  null, Cell, vacant, child, Workflow, Store, load, write, get_level,
}
use mbed_ce_client_for_azure.Workflow.Properties.{
  property_cancel_requested, boolean_of, get_boolean_property, is_cancel_requested,
}
use mbed_ce_client_for_azure.Workflow.Children.{set_parent, expand, make_room, insert_child}
use mbed_ce_client_for_azure.Workflow.Children.Cells.{
  insert_at, cell_list-eq, place, child_list, make_room_lem,
}
use mbed_ce_client_for_azure.Workflow.Stores.{load_at}

module _ {J : Json} where
  set_parent_link :
      (fuel handle parent : ℕ) (s : Store J) (c w : Workflow J)
      → handle ≢ null
      → parent ≢ null
      → parent ≢ handle
      → s handle ≡ some c
      → s parent ≡ some w
      → boolean_of w property_cancel_requested ≡ false
      → set_parent fuel handle parent s
        ≡ ok (
            write
              (write s handle (record c { parent = parent }))
              handle
              (record c { parent = parent; level = suc_ℤ w.level }))
  unfolding set_parent get_level is_cancel_requested get_boolean_property load
  set_parent_link fuel handle parent s c w h p d hs ps quiet = ground arith

  expanded : Workflow J → Workflow J
  expanded w =
      if w.child_count == w.children_max
      then record w {
        children = λ i. if ltb i w.children_max then w.children i else vacant;
        children_max = w.children_max + 10;
      }
      else w

  expand_lem : (w : Workflow J) → expand true w ≡ ok (expanded w)
  unfolding expand expanded
  expand_lem w = ground arith

  child_list-expanded : (w : Workflow J) → child_list (expanded w) ≡ child_list w
  unfolding expanded
  child_list-expanded w = elim (Bool-cases (w.child_count == w.children_max)) [
    | inl full ↦ rw full (
        cell_list-eq (λ i. if ltb i w.children_max then w.children i else vacant) w.children
          w.child_count λ i h. ground arith)
    | inr room ↦ rw room
  ]

  -- What `expand` leaves alone, and the room that there is afterwards.
  record IsRoomy (w w' : Workflow J) : Type 0 where
    count : w'.child_count ≡ w.child_count
    room : w'.child_count < w'.children_max
    level : w'.level ≡ w.level
    parent : w'.parent ≡ w.parent
    properties : w'.properties ≡ w.properties

  expanded-IsRoomy : (w : Workflow J) → w.child_count ≤ w.children_max → IsRoomy w (expanded w)
  unfolding expanded
  expanded-IsRoomy w h = ground arith

  insert_child_run :
      (fuel handle : ℕ) (index : ℤ) (ch : ℕ) (s : Store J) (w w' c : Workflow J) (i : ℕ)
      (cells : ℕ → Cell)
      → handle ≢ null
      → ch ≢ null
      → handle ≢ ch
      → s handle ≡ some w
      → s ch ≡ some c
      → expand true w ≡ ok w'
      → make_room index w' ≡ ok (i, cells)
      → boolean_of w' property_cancel_requested ≡ false
      → let w2 = record w' {
        children = λ j. if j == i then child ch else cells j;
        child_count = w'.child_count + 1;
      } in
        insert_child fuel true handle index ch s
        ≡ ok (
          true,
          write
              (write (write s handle w2) ch (record c { parent = handle }))
              ch
              (record c { parent = handle; level = suc_ℤ w'.level }),
        )
  unfolding insert_child
  insert_child_run fuel handle index ch s w w' c i cells h p d hs cs grown made quiet =
      let w2 = record w' {
        children = λ j. if j == i then child ch else cells j;
        child_count = w'.child_count + 1;
      } in
      let here : write s handle w2 handle ≡ some w2 = ground arith in
      let there : write s handle w2 ch ≡ some c = ground arith in
      let link = set_parent_link fuel ch handle (write s handle w2) c w2 p h d there here quiet in
      rw (load_at handle s w h hs, grown, made, link)

  -- With memory for a larger array, inserting a child object into another object, which has no
  -- more children than room and no cancellation requested, succeeds. The child is put into the
  -- list of children at the index, or at its end if the index is out of range; the array has room
  -- for all of them; the child's parent is the object and its level is one more; every other
  -- object stays as it is.
  pub insert_child_lem :
      (fuel handle : ℕ) (index : ℤ) (ch : ℕ) (s : Store J) (w c : Workflow J)
      → handle ≢ null
      → ch ≢ null
      → handle ≢ ch
      → s handle ≡ some w
      → s ch ≡ some c
      → w.child_count ≤ w.children_max
      → boolean_of w property_cancel_requested ≡ false
      → (s' : Store J) × (w' : Workflow J) × (insert_child fuel true handle index ch s
          ≡ ok (true, s'))
        × (s' handle ≡ some w')
        × (child_list w' ≡ insert_at (place index w.child_count) (child ch) (child_list w))
        × (w'.children (place index w.child_count) ≡ child ch)
        × (w'.child_count ≡ w.child_count + 1)
        × (w'.child_count ≤ w'.children_max)
        × (s' ch ≡ some (record c { parent = handle; level = suc_ℤ w.level }))
        × ((q : ℕ) → q ≢ handle → q ≢ ch → s' q ≡ s q)
  insert_child_lem fuel handle index ch s w c h p d hs cs fits quiet =
      let w1 = expanded w in
      let roomy = expanded-IsRoomy w fits in
      let (cells, made, list) = make_room_lem index w1 (child ch) roomy.room in
      let i = place index w1.child_count in
      let w2 = record w1 {
        children = λ j. if j == i then child ch else cells j;
        child_count = w1.child_count + 1;
      } in
      let quiet' : boolean_of w1 property_cancel_requested ≡ false = rw roomy.properties quiet in
      let same : place index w1.child_count ≡ place index w.child_count =
        ap (λ n. place index n) roomy.count in
      (
        _,
        w2,
        insert_child_run fuel handle index ch s w w1 c i cells h p d hs cs (expand_lem w) made
            quiet',
        ground arith,
        list ∙ rw (child_list-expanded w, ← same),
        rw (← same) (ground arith),
        omega (arith, roomy.count),
        omega (arith, roomy.room),
        ground (arith, roomy.level),
        λ q a b. ground arith,
      )
