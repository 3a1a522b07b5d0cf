-- ===== src/Steps/Complete.antt =====
-- steps_handler.cpp: an installation that succeeds has gone through every step.
use mbed_ce_client_for_azure.Base.{
  ℕ, zero, suc, ◌<◌, Bool, true, false, not, ◌&&◌, ◌||◌, Option, some, List, [], ◌∷◌, Bytes, length,
  get_elem?, ◌==◌, ==_refl, ◌≡◌, refl, arith, Bool-cases, inl, inr, is_some, ◌⊎◌, if◌then◌else◌,
}
use mbed_ce_client_for_azure.Steps.{
  Extended, missing_child_in_install, Result, is_failure, is_installed_code, plain, StepRequest,
  immediate_reboot, immediate_agent_restart, reboot, agent_restart, Method, is_installed, backup,
  install, apply, restore, StepCall, method, load, Task, Extensions, act, set_step_result,
  install_skipped_installed,
}
use mbed_ce_client_for_azure.Steps.Actions.{
  Flow, goes_on, leaves, ends, is_skip, with_component, enter_child, enter, instance_done,
  apply_instance, install_instance, run_instance, install_step,
}

abbrev pub is_apply : Method → Bool
is_apply apply = true
is_apply _ = false

abbrev pub continues : Flow → Bool
continues goes_on = true
continues leaves = false
continues ends = false

module _ (X : Extensions) where
  -- The step is installed: its handler has said so, or has skipped the installation, or has applied it.
  abbrev pub settles_last : ℕ → StepCall → List StepCall → Bool
  settles_last i (method is_installed j) h = i == j && is_installed_code (X.method_answer h).code
  settles_last i (method install j) h = i == j && is_skip (X.method_answer h).code
  settles_last i (method apply j) h = i == j && not (is_failure (X.method_answer h).code)
  settles_last i _ h = false

  unfoldable pub settles : ℕ → List StepCall → Bool
  settles i [] = false
  settles i (c ∷ h) = settles_last i c (c ∷ h) || settles i h

  -- No handler asks for a reboot or for a restart of the agent.
  unfoldable pub NeverRequested : Type 0
  NeverRequested = (q : StepRequest) (h : List StepCall) → X.requested q h ≡ false

  pub settles_more :
      (i : ℕ) (c : StepCall) (h : List StepCall) → settles i h ≡ true → settles i (c ∷ h) ≡ true
  unfolding settles
  settles_more i c h s = ground (arith, s)

  -- How a body of the loop ends: with a failure, or with the step settled and the next one.
  abbrev pub StepOutcome : ℕ → Flow × Result × Task → Type 0
  StepOutcome i x =
      ((is_failure x.1.code ≡ true) × (continues x.0 ≡ false))
      ⊎ ((x.0 ≡ goes_on) × (is_failure x.1.code ≡ false) × (settles i x.2.history ≡ true))

  pub present {ℓ} :
      {A : Type ℓ} (xs : List A) (i : ℕ) → i < length xs → (x : A) × (get_elem? xs i ≡ some x)
  present [] i h = absurd (omega (arith, h))
  present (x ∷ xs) zero h = (x, refl)
  present (x ∷ xs) (suc i) h = present xs i (omega (arith, h))

  enter_child_outcome :
      (component : Option Bytes) (i : ℕ) (t : Task)
      → let e = enter_child X true component i t in
        (e.0 ≡ true) ⊎ ((e.0 ≡ false) × (is_failure e.1.code ≡ true))
  unfolding enter_child with_component
  enter_child_outcome component i t =
      let selects = is_some component && t.is_inline i in
      elim (Bool-cases (selects && not (X.sets_components t.history))) [
        | inl stop ↦ rw stop (inr (refl, refl))
        | inr on ↦ elim (Bool-cases (is_failure (X.load_result (load i ∷ t.history)).code)) [
          | inl bad ↦ rw (on, bad) (inr (refl, bad))
          | inr fine ↦ rw (on, fine) (inl refl)
        ]
      ]

  enter_outcome :
      (missing : Extended) (component : Option Bytes) (i : ℕ) (r : Result) (t : Task)
      → i < length t.children
      → let e = enter X true missing component i r t in
        (e.0 ≡ true) ⊎ ((e.0 ≡ false) × (is_failure e.1.code ≡ true))
  unfolding enter
  enter_outcome missing component i r t h =
      let (step, e) = present t.children i h in rw (e, enter) (enter_child_outcome component i t)

  module _ (never : NeverRequested) where
    instance_done_flow :
        (i : ℕ) (r : Result) (t : Task)
        → instance_done X i r t
          ≡ (if is_failure r.code then leaves else goes_on, r, set_step_result i r t)
    unfolding instance_done NeverRequested
    instance_done_flow i r t =
        rw
          (
            never immediate_reboot t.history,
            never immediate_agent_restart t.history,
            never reboot t.history,
            never agent_restart t.history,
          )
          refl

    done_outcome :
        (i : ℕ) (r : Result) (t : Task)
        → (is_failure r.code ≡ false → settles i t.history ≡ true)
        → StepOutcome i (instance_done X i r t)
    done_outcome i r t s = rw (instance_done_flow i r t) (elim (Bool-cases (is_failure r.code)) [
      | inl bad ↦ inl (bad, rw bad refl)
      | inr fine ↦ inr (rw fine refl, fine, s fine)
    ])

    apply_outcome : (i : ℕ) (t : Task) → StepOutcome i (apply_instance X i t)
    unfolding apply_instance act settles
    apply_outcome i t =
        let a = act X apply i t in
        let after = if is_failure a.0.code then (act X restore i a.1).1 else a.1 in
        done_outcome i a.0 after (λ fine. rw (fine, ==_refl i, fine) refl)

    install_outcome : (i : ℕ) (t : Task) → StepOutcome i (install_instance X i t)
    unfolding install_instance act settles NeverRequested
    install_outcome i t =
        let a = act X install i t in
        elim (Bool-cases (is_skip a.0.code)) [
          | inl skip ↦
              rw
                (
                  never immediate_reboot a.1.history,
                  never immediate_agent_restart a.1.history,
                  skip,
                )
                (done_outcome i a.0 a.1 (λ fine. rw (==_refl i, skip) refl))
          | inr whole ↦ elim (Bool-cases (is_failure a.0.code)) [
            | inl bad ↦
                rw
                  (
                    never immediate_reboot a.1.history,
                    never immediate_agent_restart a.1.history,
                    whole,
                    bad,
                  )
                  (inl (bad, refl))
            | inr fine ↦
                rw
                  (
                    never immediate_reboot a.1.history,
                    never immediate_agent_restart a.1.history,
                    whole,
                    fine,
                  )
                  (apply_outcome i a.1)
          ]
        ]

    run_outcome : (i : ℕ) (t : Task) → StepOutcome i (run_instance X i t)
    unfolding run_instance act settles
    run_outcome i t =
        let a = act X is_installed i t in
        let b = act X backup i a.1 in
        let skipped = plain install_skipped_installed in
        elim (Bool-cases (is_installed_code a.0.code)) [
          | inl there ↦ rw there (
              done_outcome i skipped (set_step_result i skipped a.1)
                (λ fine. rw (==_refl i, there) refl))
          | inr absent ↦ elim (Bool-cases (is_failure b.0.code)) [
            | inl bad ↦ rw (absent, bad) (inl (bad, refl))
            | inr fine ↦ rw (absent, fine) (install_outcome i b.1)
          ]
        ]

    pub step_outcome :
        (component : Option Bytes) (i : ℕ) (r : Result) (t : Task)
        → i < length t.children
        → StepOutcome i (install_step X component i r t)
    unfolding install_step
    step_outcome component i r t h =
        elim (enter_outcome missing_child_in_install component i r t h) [
          | inl entered ↦
              rw entered (run_outcome i (enter X true missing_child_in_install component i r t).2)
          | inr (stopped, bad) ↦ rw stopped (inl (bad, refl))
        ]
