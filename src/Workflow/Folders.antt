-- ===== src/Workflow/Folders.antt =====
-- The folder of a workflow in workflow_utils.c.
pub mod Nested
use mbed_ce_client_for_azure.Base.{
  ℕ, zero, suc, ◌==◌, not, Option, none, some, [], ◌∷◌, ◌++◌, Bytes, leb, length, if◌then◌else◌,
  Run, ok, fault, out_of_fuel, ◌>>=◌,
}
use mbed_ce_client_for_azure.Workflow.Parson.{Json}
use mbed_ce_client_for_azure.Workflow.{Ptr, null, Store, get_parent}
use mbed_ce_client_for_azure.Workflow.Properties.{property_work_folder, get_string_property}
use mbed_ce_client_for_azure.Workflow.Properties.Ids.{peek_id}
use mbed_ce_client_for_azure.Workflow.Lifecycle.{Printing}

-- The size of `dir`
abbrev pub dir_size : ℕ
dir_size = 1024

abbrev pub printed : Printing → Option Bytes → Bytes
printed p none = p.null_text
printed p (some s) = s

-- `sprintf (dir, "%s/%s", folder, id)`, and the copy of what is in `dir` then.
unfoldable pub print_dir : Bytes → Bytes → Run (Option Bytes)
print_dir folder id =
    let dir = folder ++ b'/' ∷ id in
    if leb dir_size (length dir)
    then fault
    else elim dir [ [] ↦ ok none | c ∷ s ↦ ok (some (c ∷ s)) ]

module _ {J : Json} where
  -- The recursion goes up the tree, on fuel.
  unfoldable pub get_workfolder : Printing → ℕ → Ptr → Store J → Run (Option Bytes)
  get_workfolder p zero handle s = out_of_fuel
  get_workfolder p (suc fuel) handle s = peek_id handle s >>= λ id.
      get_string_property handle property_work_folder s >>= λ wf. elim wf [
        | some folder ↦ ok (some folder)
        | none ↦ get_parent handle s >>= λ parent.
            let above =
              get_workfolder p fuel parent s >>= λ pwf. print_dir (printed p pwf) (printed p id) in
            if not (parent == null)
            then above
            else print_dir p.default_sandbox_root_path (printed p id)
      ]
