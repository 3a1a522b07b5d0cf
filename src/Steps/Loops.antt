-- ===== src/Steps/Loops.antt =====
-- The loops of steps_handler.cpp keep what their bodies keep.
use mbed_ce_client_for_azure.Base.{
  ℕ, zero, suc, ◌+◌, Bool, Option, List, Bytes, inl, inr, Bool-cases,
}
use mbed_ce_client_for_azure.Steps.{Result, is_failure, Task}
use mbed_ce_client_for_azure.Steps.Actions.{
  Flow, goes_on, leaves, ends, proceed, each_step, each_component, component_string,
}

module _ (P : Task → Type 0) where
  -- A body of the loop over the steps keeps `P`.
  abbrev pub Keeps : (ℕ → Result → Task → Flow × Result × Task) → Type 0
  Keeps body = (i : ℕ) (r : Result) (t : Task) → P t → P (body i r t).2

  step_rest :
      (flow : Flow) (r : Result) (t : Task) (rest : Bool × Result × Task)
      → P t
      → P rest.2
      → P (proceed flow r t rest).2
  unfolding proceed
  step_rest goes_on r t rest one more = more
  step_rest leaves r t rest one more = one
  step_rest ends r t rest one more = one

  pub each_step_keeps :
      (body : ℕ → Result → Task → Flow × Result × Task)
      → Keeps body
      → (n i : ℕ) (r : Result) (t : Task) → P t
      → P (each_step body n i r t).2
  unfolding each_step
  each_step_keeps body keeps zero i r t o = o
  each_step_keeps body keeps (suc n) i r t o =
      let b = body i r t in
      step_rest b.0 b.1 b.2 (each_step body n (i + 1) b.1 b.2) (keeps i r t o)
        (each_step_keeps body keeps n (i + 1) b.1 b.2 (keeps i r t o))

  pub each_component_keeps :
      (body : Option Bytes → ℕ → Result → Task → Flow × Result × Task)
      → ((c : Option Bytes) → Keeps (body c))
      → (components : Option (List Bytes)) (steps n i : ℕ) (r : Result) (t : Task) → P t
      → P (each_component body components steps n i r t).2
  unfolding each_component
  each_component_keeps body keeps components steps zero i r t o = o
  each_component_keeps body keeps components steps (suc n) i r t o =
      let c = component_string components i in
      let b = each_step (body c) steps 0 r t in
      let one = each_step_keeps (body c) (keeps c) steps 0 r t o in
      let rest = each_component_keeps body keeps components steps n (i + 1) b.1 b.2 one in
      elim (Bool-cases b.0) [
        | inl done ↦ rw done one
        | inr more ↦ elim (Bool-cases (is_failure b.1.code)) [
          | inl bad ↦ rw (more, bad) one
          | inr fine ↦ rw (more, fine) rest
        ]
      ]
