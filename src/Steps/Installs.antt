-- ===== src/Steps/Installs.antt =====
-- steps_handler.cpp: an installation that succeeds has settled every step.
use mbed_ce_client_for_azure.Base.{
  ℕ, zero, suc, ◌+◌, ◌<◌, ◌≤◌, Bool, true, false, Option, none, List, [], ◌∷◌, Bytes, length,
  length-append, ◌==◌, ==_iff, ◌≡◌, refl, ap, sym, ◌∙◌, arith, Bool-cases, inl, inr, ◌⊎◌,
  if◌then◌else◌,
}
use mbed_ce_client_for_azure.Steps.{
  success, install_success, failure_cancelled, Result, is_failure, plain, add_call, StepCall,
  create, Step, Task, Extensions,
}
use mbed_ce_client_for_azure.Steps.Prepare.{
  prepare, create_steps, create_step, join_step, make_step,
}
use mbed_ce_client_for_azure.Steps.Actions.{
  Flow, goes_on, leaves, ends, proceed, install_step, each_step, each_component, component_string,
  targets, optional, finish, install_all, steps_install,
}
use mbed_ce_client_for_azure.Steps.Grows.{
  Extends, same, after, Grows, Grows-trans, install_step-Grows,
}
use mbed_ce_client_for_azure.Steps.Complete.{
  settles, settles_more, NeverRequested, continues, step_outcome,
}

module _ (X : Extensions) where
  settles_extends :
      (j : ℕ) {h h' : List StepCall} → Extends h h' → settles X j h ≡ true → settles X j h' ≡ true
  settles_extends j same s = s
  settles_extends j (after c {h' = h} e) s = settles_more X j c h (settles_extends j e s)

  -- The end of the loop over the steps from `i` on: a failure, or all the steps settled.
  abbrev AllSettled : (n i : ℕ) → Bool × Result × Task → Type 0
  AllSettled n i e =
      (is_failure e.1.code ≡ true)
      ⊎ ((e.0 ≡ false)
          × (is_failure e.1.code ≡ false)
          × ((j : ℕ) → i ≤ j → j < i + n → settles X j e.2.history ≡ true))

  stop_at :
      (flow : Flow) (r : Result) (t : Task) (rest : Bool × Result × Task)
      → continues flow ≡ false
      → is_failure r.code ≡ true
      → is_failure (proceed flow r t rest).1.code ≡ true
  unfolding proceed
  stop_at goes_on r t rest stop bad = cc
  stop_at leaves r t rest stop bad = bad
  stop_at ends r t rest stop bad = bad

  proceed-Grows :
      (flow : Flow) (r : Result) (t u : Task) (rest : Bool × Result × Task)
      → Grows t u
      → Grows u rest.2
      → Grows t (proceed flow r u rest).2
  unfolding proceed
  proceed-Grows goes_on r t u rest g h = Grows-trans t u rest.2 g h
  proceed-Grows leaves r t u rest g h = g
  proceed-Grows ends r t u rest g h = g

  steps_grow :
      (component : Option Bytes) (n i : ℕ) (r : Result) (t : Task)
      → Grows t (each_step (install_step X component) n i r t).2
  unfolding each_step
  steps_grow component zero i r t = (refl, same)
  steps_grow component (suc n) i r t =
      let b = install_step X component i r t in
      proceed-Grows b.0 b.1 t b.2 (each_step (install_step X component) n (i + 1) b.1 b.2)
        (install_step-Grows X component i r t) (steps_grow component n (i + 1) b.1 b.2)

  module _ (never : NeverRequested X) where
    steps_outcome :
        (component : Option Bytes) (n i : ℕ) (r : Result) (t : Task)
        → is_failure r.code ≡ false
        → i + n ≤ length t.children
        → AllSettled n i (each_step (install_step X component) n i r t)
    unfolding each_step proceed
    steps_outcome component zero i r t fine h =
        inr (refl, fine, λ j below above. absurd (omega (arith, below, above)))
    steps_outcome component (suc n) i r t fine h =
        let b = install_step X component i r t in
        let grown = install_step-Grows X component i r t in
        let later = each_step (install_step X component) n (i + 1) b.1 b.2 in
        elim (step_outcome X never component i r t (omega (arith, h))) [
          | inl (bad, stop) ↦ inl (stop_at b.0 b.1 b.2 later stop bad)
          | inr (on, ok, here) ↦
              rw on
                (elim (steps_outcome component n (i + 1) b.1 b.2 ok (omega (arith, h, grown.0))) [
                  | inl bad ↦ inl bad
                  | inr (open_end, ok', settled) ↦ inr (
                    open_end,
                    ok',
                    λ j below above. elim (Bool-cases (i == j)) [
                      | inl equal ↦
                          let e : i ≡ j = (==_iff i j).0 equal in
                          settles_extends j (steps_grow component n (i + 1) b.1 b.2).1
                            (rw (← e) here)
                      | inr other ↦ settled j (ground arith) (omega (arith, above))
                    ],
                  )
                ])
        ]

  -- Another task with as many children as `n`, on the same level, for the same steps.
  abbrev Made : ℕ → Task → Task → Type 0
  Made n t u = (length u.children ≡ n) × (u.level ≡ t.level) × (u.step_count ≡ t.step_count)

  join_step-length :
      (made : Result × Step) (t : Task)
      → is_failure (join_step X made t).0.code ≡ false
      → Made (length t.children + 1) t (join_step X made t).1
  unfolding join_step
  join_step-length (r, step) t fine = elim (Bool-cases (is_failure r.code)) [
    | inl bad ↦ absurd (cc)
    | inr ok ↦ elim (Bool-cases (X.inserts t.history)) [
      | inl kept ↦ rw (ok, kept) (length-append t.children (step ∷ []), refl, refl)
      | inr lost ↦ ground (arith, fine, ok, lost)
    ]
  ]

  create_steps-length :
      (n i : ℕ) (t : Task)
      → is_failure (create_steps X n i t).0.code ≡ false
      → Made (length t.children + n) t (create_steps X n i t).1
  unfolding create_steps create_step
  create_steps-length zero i t fine = (omega arith, refl, refl)
  create_steps-length (suc n) i t fine =
      let t' = add_call (create i) t in
      let one = create_step X i t in
      let later = create_steps X n (i + 1) one.1 in
      elim (Bool-cases (is_failure one.0.code)) [
        | inl bad ↦ absurd (ground (arith, fine, bad))
        | inr ok ↦
            let first : Made (length t.children + 1) t one.1 =
              join_step-length (make_step X i t') t' ok in
            let more =
              create_steps-length n (i + 1) one.1
                (ap (λ b. is_failure (if b then one else later).0.code) (sym ok) ∙ fine) in
            rw ok ((rw (more.0, first.0) (omega arith)), more.1 ∙ first.1, more.2 ∙ first.2)
      ]

  prepare_length :
      (t : Task) → is_failure (prepare X t).0.code ≡ false → Made t.step_count t (prepare X t).1
  unfolding prepare
  prepare_length t fine =
      let later = create_steps X t.step_count 0 (record t { children = [] }) in
      elim (Bool-cases (length t.children == t.step_count)) [
        | inl whole ↦ rw whole ((==_iff (length t.children) t.step_count).0 whole, refl, refl)
        | inr other ↦
            let fine' =
              ap (λ b. is_failure (if b then (plain success, t) else later).0.code) (sym other)
              ∙ fine in
            let more = create_steps-length t.step_count 0 (record t { children = [] }) fine' in
            rw other (more.0 ∙ omega arith, more.1, more.2)
      ]

  targets_top :
      (t : Task)
      → t.level ≡ 0
      → targets X t ≡ record { found = plain success; count = 1; components = none }
  unfolding targets
  targets_top t top = rw top refl

  -- On the top level the loop over the components has one round, and none of them is set.
  unfoldable after_round : Bool × Result × Task → Result × Task
  after_round (ended, r, t) =
      if ended
      then (r, t)
      else if is_failure r.code
      then (r, t)
      else if X.cancel_requested t.history
      then (plain failure_cancelled, t)
      else (plain install_success, t)

  install_all_top :
      (t : Task)
      → t.level ≡ 0
      → install_all X t
        ≡ after_round (each_step (install_step X none) (length t.children) 0 (plain success) t)
  unfolding install_all optional each_component component_string after_round
  install_all_top t top =
      let e = each_step (install_step X none) (length t.children) 0 (plain success) t in
      rw (targets_top t top) (elim (Bool-cases e.0) [
        | inl ended ↦ rw ended refl
        | inr more ↦ elim (Bool-cases (is_failure e.1.code)) [
          | inl bad ↦ rw (more, bad) refl
          | inr fine ↦ rw (more, fine) refl
        ]
      ])

  after_round_all :
      (e : Bool × Result × Task)
      → is_failure (after_round e).0.code ≡ false
      → (is_failure e.1.code ≡ false) × ((after_round e).1 ≡ e.2)
  unfolding after_round
  after_round_all (true, r, t) fine = (fine, refl)
  after_round_all (false, r, t) fine = elim (Bool-cases (is_failure r.code)) [
    | inl bad ↦ absurd (ground (arith, fine, bad))
    | inr ok ↦ elim (Bool-cases (X.cancel_requested t.history)) [
      | inl cancel ↦ (ok, rw (ok, cancel) refl)
      | inr go ↦ (ok, rw (ok, go) refl)
    ]
  ]

  module _ (never : NeverRequested X) where
    install_all-settles :
        (t : Task)
        → t.level ≡ 0
        → is_failure (install_all X t).0.code ≡ false
        → (j : ℕ) → j < length t.children
        → settles X j (install_all X t).1.history ≡ true
    install_all-settles t top fine j h =
        let e = each_step (install_step X none) (length t.children) 0 (plain success) t in
        let eq = install_all_top t top in
        let (ok, same_task) = after_round_all e (ap (λ x. is_failure x.0.code) (sym eq) ∙ fine) in
        rw (eq, same_task)
          (elim (steps_outcome never none (length t.children) 0 (plain success) t refl
            (omega arith)) [
              | inl bad ↦ absurd (cc)
              | inr (open_end, fine', settled) ↦ settled j (omega arith) (omega (arith, h))
            ])

    -- An installation on the top level that does not end with a failure, and in which no handler asks for
    -- a reboot or for a restart of the agent, has settled every step: the step's handler has said that it is
    -- installed, or has skipped its installation, or has applied it without a failure. A skipped installation
    -- of one step is no exception: the steps behind it are settled too.
    pub steps_install-settles :
        (t : Task)
        → t.level ≡ 0
        → is_failure (steps_install X t).0.code ≡ false
        → (j : ℕ) → j < t.step_count
        → settles X j (steps_install X t).1.history ≡ true
    unfolding steps_install finish
    steps_install-settles t top fine j h = elim (Bool-cases (X.cancel_requested t.history)) [
      | inl cancel ↦ absurd (ground (arith, fine, cancel))
      | inr go ↦ elim (Bool-cases (is_failure (prepare X t).0.code)) [
        | inl bad ↦ absurd (ground (arith, fine, go, bad))
        | inr made ↦
            let p = prepare X t in
            let (many, level, count) = prepare_length t made in
            let all = install_all X p.1 in
            let fine' : is_failure all.0.code ≡ false =
              ap (λ c. is_failure (if c then p else all).0.code) (sym made)
              ∙ ap
                  (λ b.
                    is_failure
                      (if b
                        then (plain failure_cancelled, t)
                        else if is_failure p.0.code
                        then p
                        else all).0.code)
                  (sym go)
              ∙ fine in
            rw (go, made) (install_all-settles p.1 (level ∙ top) fine' j (rw many h))
      ]
    ]
