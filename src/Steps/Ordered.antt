-- ===== src/Steps/Ordered.antt =====
-- steps_handler.cpp: the order of the calls, over a whole download, installation or check.
use mbed_ce_client_for_azure.Base.{
  ℕ, zero, suc, ◌+◌, true, false, Option, none, [], Bytes, length, ◌≡◌, refl, arith,
}
use mbed_ce_client_for_azure.Steps.{
  Code, install_skipped_no_components, download_skipped_no_components, missing_child_in_download,
  missing_child_in_install, missing_child_in_is_installed, Result, plain, is_installed, Task,
  Extensions,
}
use mbed_ce_client_for_azure.Steps.Prepare.{prepare, create_steps, create_step, join_step}
use mbed_ce_client_for_azure.Steps.Actions.{
  enter, download_step, install_step, check_step, Targets, targets, optional, download_all,
  install_all, check_all, steps_download, steps_install, steps_is_installed, finish,
}
use mbed_ce_client_for_azure.Steps.Loops.{Keeps, each_component_keeps}
use mbed_ce_client_for_azure.Steps.Order.{
  ordered, act_ordered, do_v1_ordered, run_instance_ordered, enter_ordered,
}

module _ (X : Extensions) where
  abbrev IsKept : Task → Type 0
  IsKept t = ordered X t.history ≡ true

  download_step-Keeps : (component : Option Bytes) → Keeps IsKept (download_step X component)
  unfolding download_step
  download_step-Keeps component i r t o =
      let e = enter X true missing_child_in_download component i r t in
      let entered = enter_ordered X true missing_child_in_download component i r t o in
      let done = do_v1_ordered X i e.2 entered in ground (arith, entered, done)

  install_step-Keeps : (component : Option Bytes) → Keeps IsKept (install_step X component)
  unfolding install_step
  install_step-Keeps component i r t o =
      let e = enter X true missing_child_in_install component i r t in
      let entered = enter_ordered X true missing_child_in_install component i r t o in
      let done = run_instance_ordered X i e.2 entered in ground (arith, entered, done)

  check_step-Keeps : (component : Option Bytes) → Keeps IsKept (check_step X component)
  unfolding check_step
  check_step-Keeps component i r t o =
      let e = enter X false missing_child_in_is_installed component i r t in
      let entered = enter_ordered X false missing_child_in_is_installed component i r t o in
      let done = act_ordered X is_installed i e.2 entered refl in ground (arith, entered, done)

  create_step_keeps : (i : ℕ) (t : Task) → IsKept t → IsKept (create_step X i t).1
  unfolding create_step join_step ordered
  create_step_keeps i t o = ground (arith, o)

  create_steps_keeps : (n i : ℕ) (t : Task) → IsKept t → IsKept (create_steps X n i t).1
  unfolding create_steps
  create_steps_keeps zero i t o = o
  create_steps_keeps (suc n) i t o =
      let one = create_step_keeps i t o in
      let rest = create_steps_keeps n (i + 1) (create_step X i t).1 one in ground (arith, one, rest)

  prepare_keeps : (t : Task) → IsKept t → IsKept (prepare X t).1
  unfolding prepare
  prepare_keeps t o =
      let created = create_steps_keeps t.step_count 0 (record t { children = [] }) o in
      ground (arith, created, o)

  optional_keeps : (c : Code) (found : Targets) (t : Task) → IsKept t → IsKept (optional c found t)
  unfolding optional
  optional_keeps c found t o = ground (arith, o)

  download_all_keeps : (t : Task) → IsKept t → IsKept (download_all X t).1
  unfolding download_all
  download_all_keeps t o =
      let found = targets X t in
      let t' = optional download_skipped_no_components found t in
      let all =
        each_component_keeps IsKept (download_step X) download_step-Keeps none (length t'.children)
          found.count 0 found.found t' (optional_keeps download_skipped_no_components found t o) in
      ground (arith, o, all)

  install_all_keeps : (t : Task) → IsKept t → IsKept (install_all X t).1
  unfolding install_all
  install_all_keeps t o =
      let found = targets X t in
      let t' = optional install_skipped_no_components found t in
      let all = λ (r : Result).
        each_component_keeps IsKept (install_step X) install_step-Keeps found.components
          (length t'.children) found.count 0 r t'
          (optional_keeps install_skipped_no_components found t o) in
      ground (arith, o, all found.found, all (plain install_skipped_no_components))

  check_all_keeps : (t : Task) → IsKept t → IsKept (check_all X t).1
  unfolding check_all
  check_all_keeps t o =
      let found = targets X t in
      let all =
        each_component_keeps IsKept (check_step X) check_step-Keeps found.components
          (length t.children) found.count 0 found.found t o in
      ground (arith, o, all)

  -- Whatever the handlers and the other parts answer, a download, an installation and a check call the
  -- methods of the handlers in order: a download and a backup follow the answer that the step is not
  -- installed, an installation follows a backup that succeeds, an application an installation that
  -- succeeds and does not skip, and a restore an installation or an application that fails, each
  -- directly and of the same step.
  pub methods_ordered :
      (t : Task)
      → ordered X t.history ≡ true
      → (ordered X (steps_download X t).1.history ≡ true)
        × (ordered X (steps_install X t).1.history ≡ true)
        × (ordered X (steps_is_installed X t).1.history ≡ true)
  unfolding steps_download steps_install steps_is_installed finish
  methods_ordered t o =
      let prepared = prepare_keeps t o in
      let t' = (prepare X t).1 in
      let d = download_all_keeps t' prepared in
      let i = install_all_keeps t' prepared in
      let c = check_all_keeps t' prepared in
      (
        ground (arith, o, prepared, d),
        ground (arith, o, prepared, i),
        ground (arith, o, prepared, c),
      )
