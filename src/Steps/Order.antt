-- ===== src/Steps/Order.antt =====
-- The order in which steps_handler.cpp calls the methods of the handlers of its steps.
use mbed_ce_client_for_azure.Base.{
  ℕ, Bool, true, false, not, ◌&&◌, ◌||◌, Option, List, [], ◌∷◌, Bytes, ◌==◌, ==_refl, ◌≡◌, refl,
  arith, Bool-cases, inl, inr, if◌then◌else◌,
}
use mbed_ce_client_for_azure.Steps.{
  Extended, Result, is_failure, is_installed_code, plain, Method, is_installed, download, backup,
  install, apply, restore, StepCall, method, Task, Extensions, act, install_skipped_installed,
  set_step_result,
}
use mbed_ce_client_for_azure.Steps.Actions.{
  is_skip, with_component, enter_child, enter, do_v1_download_work, instance_done, apply_instance,
  install_instance, run_instance,
}

-- The last call is the method of this step.
abbrev pub last_is_installed : ℕ → List StepCall → Bool
last_is_installed i (method is_installed j ∷ h) = i == j
last_is_installed i _ = false

abbrev pub last_backup : ℕ → List StepCall → Bool
last_backup i (method backup j ∷ h) = i == j
last_backup i _ = false

abbrev pub last_install : ℕ → List StepCall → Bool
last_install i (method install j ∷ h) = i == j
last_install i _ = false

abbrev pub last_apply : ℕ → List StepCall → Bool
last_apply i (method apply j ∷ h) = i == j
last_apply i _ = false

module _ (X : Extensions) where
  abbrev pub has_failed : List StepCall → Bool
  has_failed h = is_failure (X.method_answer h).code

  -- A download and a backup follow the answer that the step is not installed, an installation follows a
  -- backup that succeeds, an application an installation that succeeds and skips nothing, and a restore
  -- an installation or an application that fails; all of the same step.
  abbrev pub allowed : StepCall → List StepCall → Bool
  allowed (method download i) h =
      last_is_installed i h && not (is_installed_code (X.method_answer h).code)
  allowed (method backup i) h =
      last_is_installed i h && not (is_installed_code (X.method_answer h).code)
  allowed (method install i) h = last_backup i h && not (has_failed h)
  allowed (method apply i) h =
      last_install i h && not (has_failed h) && not (is_skip (X.method_answer h).code)
  allowed (method restore i) h = (last_install i h || last_apply i h) && has_failed h
  allowed _ h = true

  unfoldable pub ordered : List StepCall → Bool
  ordered [] = true
  ordered (c ∷ h) = allowed c h && ordered h

  pub act_ordered :
      (m : Method) (i : ℕ) (t : Task)
      → ordered t.history ≡ true
      → allowed (method m i) t.history ≡ true
      → ordered (act X m i t).1.history ≡ true
  unfolding act ordered
  act_ordered m i t o a = rw (a, o) refl

  instance_done_ordered :
      (i : ℕ) (r : Result) (t : Task)
      → ordered t.history ≡ true
      → ordered (instance_done X i r t).2.history ≡ true
  unfolding instance_done ordered
  instance_done_ordered i r t o = ground (arith, o)

  apply_instance_ordered :
      (i : ℕ) (t : Task)
      → ordered t.history ≡ true
      → last_install i t.history ≡ true
      → has_failed t.history ≡ false
      → is_skip (X.method_answer t.history).code ≡ false
      → ordered (apply_instance X i t).2.history ≡ true
  unfolding apply_instance act
  apply_instance_ordered i t o last good whole =
      let a = act X apply i t in
      let first : ordered a.1.history ≡ true =
        act_ordered apply i t o (rw (last, good, whole) refl) in
      let restored : ordered (if is_failure a.0.code then (act X restore i a.1).1 else a.1).history
          ≡ true =
        elim (Bool-cases (is_failure a.0.code)) [
          | inl bad ↦ rw bad (act_ordered restore i a.1 first (rw (==_refl i, bad) refl))
          | inr fine ↦ rw fine first
        ] in
      instance_done_ordered i a.0 (if is_failure a.0.code then (act X restore i a.1).1 else a.1)
        restored

  install_instance_ordered :
      (i : ℕ) (t : Task)
      → ordered t.history ≡ true
      → last_backup i t.history ≡ true
      → has_failed t.history ≡ false
      → ordered (install_instance X i t).2.history ≡ true
  unfolding install_instance act
  install_instance_ordered i t o last good =
      let a = act X install i t in
      let first : ordered a.1.history ≡ true = act_ordered install i t o (rw (last, good) refl) in
      let done = instance_done_ordered i a.0 a.1 first in
      elim (Bool-cases (is_failure a.0.code)) [
        | inl bad ↦
            let restored = act_ordered restore i a.1 first (rw (==_refl i, bad) refl) in
            ground (arith, bad, done, restored)
        | inr fine ↦ elim (Bool-cases (is_skip a.0.code)) [
          | inl skip ↦ ground (arith, fine, skip, done)
          | inr whole ↦
              let applied = apply_instance_ordered i a.1 first (==_refl i) fine whole in
              ground (arith, fine, whole, done, applied)
        ]
      ]

  pub run_instance_ordered :
      (i : ℕ) (t : Task) → ordered t.history ≡ true → ordered (run_instance X i t).2.history ≡ true
  unfolding run_instance act
  run_instance_ordered i t o =
      let a = act X is_installed i t in
      let b = act X backup i a.1 in
      let first : ordered a.1.history ≡ true = act_ordered is_installed i t o refl in
      elim (Bool-cases (is_installed_code a.0.code)) [
        | inl there ↦
            let skipped = plain install_skipped_installed in
            rw there (instance_done_ordered i skipped (set_step_result i skipped a.1) first)
        | inr absent ↦
            let second : ordered b.1.history ≡ true =
              act_ordered backup i a.1 first (rw (==_refl i, absent) refl) in
            elim (Bool-cases (is_failure b.0.code)) [
              | inl bad ↦ rw (absent, bad) second
              | inr fine ↦
                  rw (absent, fine) (install_instance_ordered i b.1 second (==_refl i) fine)
            ]
      ]

  pub do_v1_ordered :
      (i : ℕ) (t : Task)
      → ordered t.history ≡ true
      → ordered (do_v1_download_work X i t).1.history ≡ true
  unfolding do_v1_download_work act
  do_v1_ordered i t o =
      let a = act X is_installed i t in
      let first : ordered a.1.history ≡ true = act_ordered is_installed i t o refl in
      elim (Bool-cases (is_installed_code a.0.code)) [
        | inl there ↦ rw there first
        | inr absent ↦ rw absent (act_ordered download i a.1 first (rw (==_refl i, absent) refl))
      ]

  pub enter_ordered :
      (stores : Bool) (missing : Extended) (component : Option Bytes) (i : ℕ) (r : Result)
      (t : Task)
      → ordered t.history ≡ true
      → ordered (enter X stores missing component i r t).2.history ≡ true
  unfolding enter enter_child with_component ordered
  enter_ordered stores missing component i r t o = ground (arith, o)
