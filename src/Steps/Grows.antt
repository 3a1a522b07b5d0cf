-- ===== src/Steps/Grows.antt =====
-- steps_handler.cpp: what is settled stays so, and no child is lost.
use mbed_ce_client_for_azure.Base.{
  ℕ, zero, suc, Bool, true, false, not, ◌&&◌, ◌||◌, Option, List, [], ◌∷◌, Bytes, length, ◌≡◌, refl,
  ap, ◌∙◌, Bool-cases, Option-cases, inl, inr, if◌then◌else◌, is_some, get_elem?,
}
use mbed_ce_client_for_azure.Steps.{
  Extended, missing_child_in_install, Result, is_failure, is_installed_code, plain, is_installed,
  backup, install, apply, restore, immediate_reboot, immediate_agent_restart, reboot, agent_restart,
  request_root, StepCall, Method, method, load, Task, Extensions, act, set_nth, set_step_result,
  install_skipped_installed,
}
use mbed_ce_client_for_azure.Steps.Actions.{
  Flow, ends, is_skip, with_component, enter_child, enter, instance_done, apply_instance,
  install_instance, run_instance, install_step,
}

length-set_nth {ℓ} :
    {A : Type ℓ} (i : ℕ) (f : A → A) (xs : List A) → length (set_nth i f xs) ≡ length xs
length-set_nth i f [] = refl
length-set_nth zero f (x ∷ xs) = refl
length-set_nth (suc i) f (x ∷ xs) = ap suc (length-set_nth i f xs)

-- A history that has another one as its end.
pub data Extends (h : List StepCall) : List StepCall → Type 0 where
  same : Extends h h
  after : (c : StepCall) {h' : List StepCall} → Extends h h' → Extends h (c ∷ h')

pub Extends_trans : {h h' h'' : List StepCall} → Extends h h' → Extends h' h'' → Extends h h''
Extends_trans e same = e
Extends_trans e (after c e') = after c (Extends_trans e e')

-- As many children, and a longer history.
abbrev pub Grows : Task → Task → Type 0
Grows t u = (length u.children ≡ length t.children) × Extends t.history u.history

pub Grows-trans : (t u v : Task) → Grows t u → Grows u v → Grows t v
Grows-trans t u v g h = (h.0 ∙ g.0, Extends_trans g.1 h.1)

-- Both branches have the property.
pub if_elim {ℓ} :
    {A : Type ℓ} (P : A → Type 0) (b : Bool) (x y : A) → P x → P y → P (if b then x else y)
if_elim P true x y p q = p
if_elim P false x y p q = q

module _ (X : Extensions) where
  act-Grows : (m : Method) (i : ℕ) (t : Task) → Grows t (act X m i t).1
  unfolding act
  act-Grows m i t = (
    length-set_nth i (λ s. record s { result = X.own_result (method m i ∷ t.history) s.result })
        t.children,
    after (method m i) same,
  )

  instance_done-Grows : (i : ℕ) (r : Result) (t : Task) → Grows t (instance_done X i r t).2
  unfolding instance_done
  instance_done-Grows i r t = elim (Bool-cases (X.requested immediate_reboot t.history)) [
    | inl on ↦ rw on (refl, after (request_root immediate_reboot) same)
    | inr off ↦ elim (Bool-cases (X.requested immediate_agent_restart t.history)) [
      | inl on ↦ rw (off, on) (refl, after (request_root immediate_agent_restart) same)
      | inr off' ↦ elim (Bool-cases (X.requested reboot t.history)) [
        | inl on ↦ rw (off, off', on) (refl, after (request_root reboot) same)
        | inr off'' ↦ elim (Bool-cases (X.requested agent_restart t.history)) [
          | inl on ↦ rw (off, off', off'', on) (refl, after (request_root agent_restart) same)
          | inr last ↦
              rw (off, off', off'', last)
                (length-set_nth i (λ s. record s { result = r }) t.children, same)
        ]
      ]
    ]
  ]

  apply-Grows : (i : ℕ) (t : Task) → Grows t (apply_instance X i t).2
  unfolding apply_instance
  apply-Grows i t =
      let a = act X apply i t in
      let u = (act X restore i a.1).1 in
      let v = if is_failure a.0.code then u else a.1 in
      let one = act-Grows apply i t in
      let two =
        if_elim (Grows t) (is_failure a.0.code) u a.1
          (Grows-trans t a.1 u one (act-Grows restore i a.1)) one in
      Grows-trans t v (instance_done X i a.0 v).2 two (instance_done-Grows i a.0 v)

  install-Grows : (i : ℕ) (t : Task) → Grows t (install_instance X i t).2
  unfolding install_instance
  install-Grows i t =
      let a = act X install i t in
      let one = act-Grows install i t in
      let d = instance_done X i a.0 a.1 in
      let done = Grows-trans t a.1 d.2 one (instance_done-Grows i a.0 a.1) in
      let u = (act X restore i a.1).1 in
      let restored = Grows-trans t a.1 u one (act-Grows restore i a.1) in
      let v = apply_instance X i a.1 in
      let applied = Grows-trans t a.1 v.2 one (apply-Grows i a.1) in
      let P = λ (x : Flow × Result × Task). Grows t x.2 in
      if_elim P
        (X.requested immediate_reboot a.1.history
          || X.requested immediate_agent_restart a.1.history)
        d _ done
        (if_elim P (is_skip a.0.code) d _ done
          (if_elim P (is_failure a.0.code) (ends, a.0, u) v restored applied))

  run-Grows : (i : ℕ) (t : Task) → Grows t (run_instance X i t).2
  unfolding run_instance
  run-Grows i t =
      let a = act X is_installed i t in
      let one = act-Grows is_installed i t in
      let b = act X backup i a.1 in
      let two = Grows-trans t a.1 b.1 one (act-Grows backup i a.1) in
      let skipped = plain install_skipped_installed in
      let s = set_step_result i skipped a.1 in
      let d = instance_done X i skipped s in
      let stored : Grows a.1 s =
        (length-set_nth i (λ x. record x { result = skipped }) a.1.children, same) in
      let done =
        Grows-trans t s d.2 (Grows-trans t a.1 s one stored) (instance_done-Grows i skipped s) in
      let v = install_instance X i b.1 in
      let P = λ (x : Flow × Result × Task). Grows t x.2 in
      if_elim P (is_installed_code a.0.code) d _ done (
        if_elim P (is_failure b.0.code) (ends, b.0, b.1) v two
          (Grows-trans t b.1 v.2 two (install-Grows i b.1)))

  component-Grows :
      (component : Option Bytes) (i : ℕ) (selects : Bool) (t : Task)
      → Grows t (with_component component i selects t)
  unfolding with_component
  component-Grows component i true t =
      (length-set_nth i (λ s. record s { selected = component }) t.children, after (load i) same)
  component-Grows component i false t = (refl, after (load i) same)

  enter_child-Grows :
      (component : Option Bytes) (i : ℕ) (t : Task) → Grows t (enter_child X true component i t).2
  unfolding enter_child
  enter_child-Grows component i t =
      let selects = is_some component && t.is_inline i in
      let t' = with_component component i selects t in
      let loaded = X.load_result t'.history in
      let one = component-Grows component i selects t in
      let two : Grows t (set_step_result i loaded t') =
        (length-set_nth i (λ s. record s { result = loaded }) t'.children ∙ one.0, one.1) in
      let P = λ (x : Bool × Result × Task). Grows t x.2 in
      if_elim P (selects && not (X.sets_components t.history)) (false, _, t) _ (refl, same)
        (if_elim P (is_failure loaded.code) (false, loaded, set_step_result i loaded t')
          (true, loaded, t') two one)

  enter-Grows :
      (missing : Extended) (component : Option Bytes) (i : ℕ) (r : Result) (t : Task)
      → Grows t (enter X true missing component i r t).2
  unfolding enter
  enter-Grows missing component i r t = elim (Option-cases (get_elem? t.children i)) [
    | inl e ↦ rw (e, enter) (refl, same)
    | inr (step, e) ↦ rw (e, enter) (enter_child-Grows component i t)
  ]

  pub install_step-Grows :
      (component : Option Bytes) (i : ℕ) (r : Result) (t : Task)
      → Grows t (install_step X component i r t).2
  unfolding install_step
  install_step-Grows component i r t =
      let e = enter X true missing_child_in_install component i r t in
      let one = enter-Grows missing_child_in_install component i r t in
      if_elim (λ (x : Flow × Result × Task). Grows t x.2) e.0 (run_instance X i e.2)
        (ends, e.1, e.2) (Grows-trans t e.2 (run_instance X i e.2).2 one (run-Grows i e.2)) one
