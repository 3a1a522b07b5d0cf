-- ===== src/Workflow/Children.antt =====
-- The children of a workflow object of workflow_utils.c: a growing array of pointers, and the links
-- back to the parent.
pub mod Cells
pub mod Insert
pub mod Remove
use mbed_ce_client_for_azure.Base.{
  ℕ, zero, suc, ◌+◌, ◌-◌, ◌*◌, ◌/◌, ◌%◌, ◌==◌, Bool, true, false, not, ◌&&◌, Option, none, some,
  ltb, leb, if◌then◌else◌, Run, ok, fault, out_of_fuel, ◌>>=◌, ℤ, pos, negsuc, suc_ℤ,
}
use mbed_ce_client_for_azure.Workflow.Parson.{Json}
use mbed_ce_client_for_azure.Workflow.{
  Ptr, null, Cell, vacant, child, torn, Workflow, Store, load, write, get_level, get_children_count,
}
use mbed_ce_client_for_azure.Workflow.Properties.{
  property_cancel_requested, set_boolean_property, is_cancel_requested,
}

abbrev pub children_block_size : ℕ
children_block_size = 10

-- sizeof(ADUC_Workflow*) on the 32-bit targets
abbrev pub pointer_size : ℕ
pointer_size = 4

-- The words after `memmove (cells + dst, cells + src, bytes)`. A word that the last bytes overwrite in
-- part is torn.
unfoldable pub moved : (dst src bytes : ℕ) → (ℕ → Cell) → ℕ → Cell
moved dst src bytes cells i =
    if ltb i dst
    then cells i
    else if ltb i (dst + bytes / pointer_size)
    then cells (i - dst + src)
    else if i == dst + bytes / pointer_size && not (bytes % pointer_size == 0)
    then torn
    else cells i

-- In an array of `max` words. Bytes outside are not read or written.
unfoldable pub memmove : (dst src bytes max : ℕ) → (ℕ → Cell) → Run (ℕ → Cell)
memmove dst src bytes max cells =
    if leb (src * pointer_size + bytes) (max * pointer_size)
      && leb (dst * pointer_size + bytes) (max * pointer_size)
    then ok (moved dst src bytes cells)
    else fault

-- An index in range, or `none`.
abbrev pub in_range : ℤ → ℕ → Option ℕ
in_range (negsuc n) count = none
in_range (pos i) count = if ltb i count then some i else none

-- An index of which -1 stands for the last child.
abbrev pub or_last : ℤ → ℕ → Option ℕ
or_last (negsuc zero) zero = none
or_last (negsuc zero) (suc n) = some n
or_last (negsuc (suc n)) count = none
or_last (pos i) count = if ltb i count then some i else none

-- A child that is read from the array.
abbrev pub pointer : Cell → Run Ptr
pointer vacant = fault
pointer (child p) = ok p
pointer torn = fault

-- What `workflow_remove_child` moves: `sizeof(ADUC_Workflow*) * wf->ChildCount - (index + 1)`.
abbrev pub bytes_to_move : (count index : ℕ) → ℕ
bytes_to_move count index = pointer_size * count - (index + 1)

module _ {J : Json} where
  unfoldable pub get_child : Ptr → ℤ → Store J → Run Ptr
  get_child handle index s =
      if handle == null
      then ok null
      else (load handle s >>= λ w. elim (or_last index w.child_count) [
        | none ↦ ok null
        | some i ↦ pointer (w.children i)
      ])

  -- The loop of `workflow_request_cancel` over the children from index `i` on.
  unfoldable pub cancel_children :
      (Ptr → Store J → Run (Bool × Store J))
      → Ptr
      → (rounds i : ℕ) → Bool
      → Store J
      → Run (Bool × Store J)
  cancel_children cancel handle zero i success s = ok (success, s)
  cancel_children cancel handle (suc n) i success s =
      let stop = cancel_children cancel handle n (i + 1) false s in
      if success
      then (get_child handle (pos i) s >>= λ c.
          cancel c s >>= λ (done, s'). cancel_children cancel handle n (i + 1) done s')
      else stop

  -- The recursion goes down the tree, on fuel.
  unfoldable pub request_cancel : ℕ → Ptr → Store J → Run (Bool × Store J)
  request_cancel zero handle s = out_of_fuel
  request_cancel (suc fuel) handle s =
      if handle == null
      then ok (false, s)
      else (set_boolean_property handle property_cancel_requested true s >>= λ (success, s').
          get_children_count handle s' >>= λ count.
          cancel_children (request_cancel fuel) handle count 0 success s')

  unfoldable pub set_parent : ℕ → Ptr → Ptr → Store J → Run (Store J)
  set_parent fuel handle parent s =
      if handle == null
      then ok s
      else (load handle s >>= λ w.
          let s' = write s handle (record w { parent = parent }) in
          get_level parent s' >>= λ level.
          let s'' = write s' handle (record w { parent = parent; level = suc_ℤ level }) in
          if parent == null
          then ok s''
          else (is_cancel_requested parent s'' >>= λ cancelled.
              if cancelled
              then (request_cancel fuel handle s'' >>= λ (done, s'''). ok s''')
              else ok s''))

  -- The array with room for one more child. `malloc` gives memory if `allocated`; a null array is
  -- written to otherwise.
  unfoldable pub expand : Bool → Workflow J → Run (Workflow J)
  expand allocated w =
      if w.child_count == w.children_max
      then if allocated
        then ok (record w {
          children = λ i. if ltb i w.children_max then w.children i else vacant;
          children_max = w.children_max + children_block_size;
        })
        else fault
      else ok w

  -- Room for the new child at `index`, and its index.
  unfoldable pub make_room : ℤ → Workflow J → Run (ℕ × (ℕ → Cell))
  make_room index w = elim (in_range index w.child_count) [
    | none ↦ ok (w.child_count, w.children)
    | some i ↦
        memmove (i + 1) i ((w.child_count - i) * pointer_size) w.children_max w.children
        >>= λ cells. ok (i, cells)
  ]

  unfoldable pub insert_child : ℕ → Bool → Ptr → ℤ → Ptr → Store J → Run (Bool × Store J)
  insert_child fuel allocated handle index child_handle s = load handle s >>= λ w.
      expand allocated w >>= λ w'. make_room index w' >>= λ (i, cells).
      let s' = write s handle (record w' {
        children = λ j. if j == i then child child_handle else cells j;
        child_count = w'.child_count + 1;
      }) in
      set_parent fuel child_handle handle s' >>= λ s''. ok (true, s'')

  unfoldable pub close_gap : ℕ → Workflow J → Run (ℕ → Cell)
  close_gap i w =
      if ltb i (w.child_count - 1)
      then memmove i (i + 1) (bytes_to_move w.child_count i) w.children_max w.children
      else ok w.children

  unfoldable pub remove_child : ℕ → Ptr → ℤ → Store J → Run (Ptr × Store J)
  remove_child fuel handle index s = load handle s >>= λ w. elim (or_last index w.child_count) [
    | none ↦ ok (null, s)
    | some i ↦ pointer (w.children i) >>= λ c. close_gap i w >>= λ cells.
        let s' = write s handle (record w { children = cells; child_count = w.child_count - 1 }) in
        set_parent fuel c null s' >>= λ s''. ok (c, s'')
  ]
