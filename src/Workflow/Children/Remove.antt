-- ===== src/Workflow/Children/Remove.antt =====
-- What `workflow_remove_child` of workflow_utils.c does to the parent, to the child and to the other
-- objects.
use mbed_ce_client_for_azure.Base.{
  ℕ, zero, suc, ◌+◌, ◌-◌, ◌*◌, ◌≤◌, ◌<◌, ◌≡◌, ◌≢◌, arith, none, some, ok, fault, ℤ, pos, negsuc,
}
use mbed_ce_client_for_azure.Workflow.Parson.{Json}
use mbed_ce_client_for_azure.Workflow.{null, Cell, child, Workflow, Store, load, write, get_level}
use mbed_ce_client_for_azure.Workflow.Children.{
  pointer_size, set_parent, close_gap, or_last, remove_child,
}
use mbed_ce_client_for_azure.Workflow.Children.Cells.{
  remove_at, child_list, close_gap_lem, close_gap_fault,
}
use mbed_ce_client_for_azure.Workflow.Stores.{load_at}

or_last-lt : (index : ℤ) (count i : ℕ) → or_last index count ≡ some i → i < count
or_last-lt (pos k) count i h = ground arith
or_last-lt (negsuc zero) zero i h = cc
or_last-lt (negsuc zero) (suc n) i h = ground arith
or_last-lt (negsuc (suc k)) count i h = ground arith

module _ {J : Json} where
  set_parent_unlink :
      (fuel handle : ℕ) (s : Store J) (c : Workflow J)
      → handle ≢ null
      → s handle ≡ some c
      → set_parent fuel handle null s
        ≡ ok (
            write
              (write s handle (record c { parent = null }))
              handle
              (record c { parent = null; level = pos 0 }))
  unfolding set_parent get_level load
  set_parent_unlink fuel handle s c h hs = ground arith

  remove_child_run :
      (fuel handle : ℕ) (index : ℤ) (i ch : ℕ) (s s' : Store J) (w : Workflow J) (cells : ℕ → Cell)
      → handle ≢ null
      → s handle ≡ some w
      → or_last index w.child_count ≡ some i
      → w.children i ≡ child ch
      → close_gap i w ≡ ok cells
      → set_parent fuel ch null
          (write s handle (record w { children = cells; child_count = w.child_count - 1 }))
        ≡ ok s'
      → remove_child fuel handle index s ≡ ok (ch, s')
  unfolding remove_child
  remove_child_run fuel handle index i ch s s' w cells h hs is at closed link =
      ground (arith, load_at handle s w h hs, link)

  -- Removing a child that is there, another object than the one itself, gives that child and takes
  -- it out of the list. The child has no parent and the level 0 then; every other object stays as
  -- it is. This needs, unless the child is the last one, that the bytes that are moved lie in the
  -- array: see `remove_child_fault`.
  pub remove_child_lem :
      (fuel handle : ℕ) (index : ℤ) (i n ch : ℕ) (s : Store J) (w c : Workflow J)
      → handle ≢ null
      → ch ≢ null
      → handle ≢ ch
      → s handle ≡ some w
      → s ch ≡ some c
      → w.child_count ≡ suc n
      → or_last index w.child_count ≡ some i
      → w.children i ≡ child ch
      → (i < n → pointer_size * w.child_count + 3 * (i + 1) ≤ pointer_size * w.children_max)
      → (s' : Store J) × (w' : Workflow J) × (remove_child fuel handle index s ≡ ok (ch, s'))
        × (s' handle ≡ some w')
        × (child_list w' ≡ remove_at i (child_list w))
        × (w'.child_count ≡ n)
        × (s' ch ≡ some (record c { parent = null; level = pos 0 }))
        × ((q : ℕ) → q ≢ handle → q ≢ ch → s' q ≡ s q)
  remove_child_lem fuel handle index i n ch s w c h p d hs cs count is at fits =
      let below = or_last-lt index w.child_count i is in
      let (cells, closed, list) = close_gap_lem i n w count (omega arith) fits in
      let w2 = record w { children = cells; child_count = w.child_count - 1 } in
      let less : w.child_count - 1 ≡ n = omega arith in
      let here : write s handle w2 handle ≡ some w2 = ground arith in
      let there : write s handle w2 ch ≡ some c = ground arith in
      let link = set_parent_unlink fuel ch (write s handle w2) c p there in
      (
        write (write (write s handle w2) ch (record c { parent = null })) ch
            (record c { parent = null; level = pos 0 }),
        w2,
        remove_child_run fuel handle index i ch s _ w cells h hs is at closed link,
        ground arith,
        rw less list,
        less,
        ground arith,
        λ q a b. ground arith,
      )

  -- An index out of range gives NULL and changes nothing.
  pub remove_child-none :
      (fuel handle : ℕ) (index : ℤ) (s : Store J) (w : Workflow J)
      → handle ≢ null
      → s handle ≡ some w
      → or_last index w.child_count ≡ none
      → remove_child fuel handle index s ≡ ok (null, s)
  unfolding remove_child load
  remove_child-none fuel handle index s w h hs out = ground arith

  -- The number of bytes that are moved is not the number of the words behind the child times their
  -- size. In an array that is nearly full, removing a child that is not the last one reads behind
  -- its end.
  pub remove_child_fault :
      (fuel handle i ch : ℕ) (s : Store J) (w : Workflow J)
      → handle ≢ null
      → s handle ≡ some w
      → i + 1 < w.child_count
      → w.children i ≡ child ch
      → pointer_size * w.children_max < pointer_size * w.child_count + 3 * (i + 1)
      → remove_child fuel handle (pos i) s ≡ fault
  unfolding remove_child
  remove_child_fault fuel handle i ch s w h hs inner at over =
      ground (arith, load_at handle s w h hs, close_gap_fault i w inner over)
