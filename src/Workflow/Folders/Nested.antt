-- ===== src/Workflow/Folders/Nested.antt =====
-- The folders of a tree of workflows in workflow_utils.c lie in one another.
use mbed_ce_client_for_azure.Base.{
  ℕ, zero, suc, ◌≤◌, ◌<◌, ◌≡◌, ◌≢◌, arith, none, some, List, [], ◌∷◌, ◌++◌, Bytes, length,
  length-append, ok, fault,
}
use mbed_ce_client_for_azure.Workflow.Parson.{Json}
use mbed_ce_client_for_azure.Workflow.{Ptr, null, Store, get_parent}
use mbed_ce_client_for_azure.Workflow.Properties.{property_work_folder, get_string_property}
use mbed_ce_client_for_azure.Workflow.Properties.Ids.{peek_id}
use mbed_ce_client_for_azure.Workflow.Lifecycle.{Printing}
use mbed_ce_client_for_azure.Workflow.Folders.{dir_size, print_dir, get_workfolder}

-- The folder for the ids of an object, of its parent and so on.
unfoldable pub nested : Printing → List Bytes → Bytes
nested p [] = p.default_sandbox_root_path
nested p (id ∷ ids) = nested p ids ++ b'/' ∷ id

print_dir-fits :
    (folder id : Bytes)
    → length (folder ++ b'/' ∷ id) < dir_size
    → print_dir folder id ≡ ok (some (folder ++ b'/' ∷ id))
unfolding print_dir
print_dir-fits [] id h = ground arith
print_dir-fits (c ∷ s) id h = ground arith

print_dir-over :
    (folder id : Bytes) → dir_size ≤ length (folder ++ b'/' ∷ id) → print_dir folder id ≡ fault
unfolding print_dir
print_dir-over folder id h = ground arith

module _ {J : Json} where
  -- The ids from an object up to its root, where none of them has a folder of its own.
  pub data HasIds (s : Store J) : Ptr → List Bytes → Type 0 where
    root :
        {r : Ptr} (id : Bytes)
        → peek_id r s ≡ ok (some id)
        → get_string_property r property_work_folder s ≡ ok none
        → get_parent r s ≡ ok null
        → HasIds s r (id ∷ [])
    inner :
        {h p : Ptr} {ids : List Bytes} (id : Bytes)
        → peek_id h s ≡ ok (some id)
        → get_string_property h property_work_folder s ≡ ok none
        → get_parent h s ≡ ok p
        → p ≢ null
        → HasIds s p ids
        → HasIds s h (id ∷ ids)

  -- An object without a folder of its own, and with none on the way up to the root, has the folder of
  -- its parent with its id behind it, the root that in the default folder. This needs fuel for the
  -- depth and that the whole path is shorter than 1024 bytes.
  pub get_workfolder-nested :
      (p : Printing) (fuel : ℕ) (handle : Ptr) (s : Store J) (ids : List Bytes)
      → HasIds s handle ids
      → length ids ≤ fuel
      → length (nested p ids) < dir_size
      → get_workfolder p fuel handle s ≡ ok (some (nested p ids))
  unfolding get_workfolder nested
  get_workfolder-nested p zero handle s ids (root id named bare up) enough fits =
      absurd (omega arith)
  get_workfolder-nested p zero handle s ids (inner id named bare up d above) enough fits =
      absurd (omega arith)
  get_workfolder-nested p (suc fuel) handle s ids (root id named bare up) enough fits =
      ground (arith, named, bare, up, print_dir-fits p.default_sandbox_root_path id fits)
  get_workfolder-nested p (suc fuel) handle s ids
        (inner {p = q} {ids = rest} id named bare up d above) enough fits =
      let size = length-append (nested p rest) (b'/' ∷ id) in
      let rec =
        get_workfolder-nested p fuel q s rest above (omega arith) (omega (arith, size, fits)) in
      ground (arith, named, bare, up, rec, print_dir-fits (nested p rest) id fits)

  -- If the path of such an object below a parent is 1024 bytes or longer, and that of the parent is
  -- not, the printing overflows the buffer.
  pub get_workfolder_overflow :
      (p : Printing) (fuel : ℕ) (handle parent : Ptr) (s : Store J) (id : Bytes) (ids : List Bytes)
      → peek_id handle s ≡ ok (some id)
      → get_string_property handle property_work_folder s ≡ ok none
      → get_parent handle s ≡ ok parent
      → parent ≢ null
      → HasIds s parent ids
      → length ids < fuel
      → length (nested p ids) < dir_size
      → dir_size ≤ length (nested p (id ∷ ids))
      → get_workfolder p fuel handle s ≡ fault
  unfolding get_workfolder nested
  get_workfolder_overflow p zero handle parent s id ids named bare up d above enough fits over =
      absurd (omega arith)
  get_workfolder_overflow p (suc fuel) handle parent s id ids named bare up d above enough fits
        over =
      let rec = get_workfolder-nested p fuel parent s ids above (omega arith) fits in
      ground (arith, named, bare, up, rec, print_dir-over (nested p ids) id over)
