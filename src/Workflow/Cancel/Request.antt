-- ===== src/Workflow/Cancel/Request.antt =====
-- How `workflow_request_cancel` of workflow_utils.c goes down a tree of workflow objects.
use mbed_ce_client_for_azure.Base.{
  ℕ, zero, suc, ◌+◌, ◌≤◌, ◌<◌, ◌≡◌, ◌≢◌, refl, ap, ◌∙◌, sym, arith, ◌==◌, Bool, true, false, some,
  Run, ok, pos, ==_iff, Bool-cases, Option-cases, inl, inr,
}
use mathlib.Core.Path.{subst}
use mbed_ce_client_for_azure.Workflow.Parson.{Json, IsJson}
use mbed_ce_client_for_azure.Workflow.{
  Ptr, null, child, Workflow, Store, load, write, get_children_count,
}
use mbed_ce_client_for_azure.Workflow.Properties.{
  property_cancel_requested, stored, set_boolean_property,
}
use mbed_ce_client_for_azure.Workflow.Children.{get_child, cancel_children, request_cancel}
use mbed_ce_client_for_azure.Workflow.Cancel.{
  IsTree, node, IsCancelled, AllCancelled, IsLater, Grows, Grows-refl, Grows-trans, IsTree-Grows,
  AllCancelled-Grows, AllCancelled-kids, IsCancelled-Grows,
}

module _ {J : Json} where
  write-Grows :
      (p : Ptr) (s : Store J) (w w' : Workflow J)
      → s p ≡ some w
      → IsLater w w'
      → Grows s (write s p w')
  write-Grows p s w w' e l q v e' = elim (Bool-cases (q == p)) [
    | inl same ↦ let held : w ≡ v = ground (arith, e, e') in (w', ground arith, rw held at l)
    | inr other ↦ (v, ground arith, record { children = refl; count = refl; kept = λ h. h })
  ]

  -- The request at one object.
  marked :
      (p : Ptr) (s : Store J) (w : Workflow J)
      → IsJson J
      → p ≢ null
      → s p ≡ some w
      → (b : Bool) × (s' : Store J) × (set_boolean_property p property_cancel_requested true s
          ≡ ok (b, s'))
        × Grows s s'
        × (b ≡ true → IsCancelled s' p)
  unfolding set_boolean_property stored load
  marked p s w laws d e = elim (Option-cases w.properties) [
    | inl lost ↦ (false, s, ground arith, Grows-refl s, λ t. cc)
    | inr (o, found) ↦ elim (Option-cases (J.set_boolean o property_cancel_requested true)) [
      | inl bad ↦ (
        false,
        write s p (record w { properties = some o }),
        ground arith,
        write-Grows p s w _ e (record { children = refl; count = refl; kept = λ k. ground arith }),
        λ t. cc,
      )
      | inr (o', good) ↦
          let read = laws.set_boolean-get o o' property_cancel_requested true good in
          (
            true,
            write s p (record w { properties = some o' }),
            ground arith,
            write-Grows p s w _ e
                (record { children = refl; count = refl; kept = λ k. ground (arith, read) }),
            λ t. (record w { properties = some o' }, ground arith, ground (arith, read)),
          )
    ]
  ]

  -- What a cancellation of the trees of height `h` does.
  abbrev Cancels : ℕ → (Ptr → Store J → Run (Bool × Store J)) → Type 0
  Cancels h f =
      (c : Ptr) (s : Store J)
      → IsTree s h c
      → (b : Bool) × (s' : Store J) × (f c s ≡ ok (b, s'))
        × Grows s s'
        × (b ≡ true → AllCancelled s' c)

  get_child-kid :
      (p : Ptr) (i : ℕ) (c : Ptr) (s : Store J) (w : Workflow J)
      → p ≢ null
      → s p ≡ some w
      → i < w.child_count
      → w.children i ≡ child c
      → get_child p (pos i) s ≡ ok c
  unfolding get_child load
  get_child-kid p i c s w d e h is = ground arith

  cancel_children_lem :
      (f : Ptr → Store J → Run (Bool × Store J)) (h : ℕ) (p : Ptr) (kid : ℕ → Ptr) (n i : ℕ)
      (success : Bool) (s : Store J) (w : Workflow J)
      → Cancels h f
      → p ≢ null
      → s p ≡ some w
      → i + n ≡ w.child_count
      → ((j : ℕ) → j < i + n → w.children j ≡ child (kid j))
      → ((j : ℕ) → j < i + n → IsTree s h (kid j))
      → (b : Bool) × (s' : Store J) × (cancel_children f p n i success s ≡ ok (b, s'))
        × Grows s s'
        × (b ≡ true → (success ≡ true) × ((j : ℕ) → i ≤ j → j < i + n → AllCancelled s' (kid j)))
  unfolding cancel_children
  cancel_children_lem f h p kid zero i success s w rec d e size are trees =
      (success, s, refl, Grows-refl s, λ t. (t, λ j a b. absurd (omega (arith, a, b))))
  cancel_children_lem f h p kid (suc n) i false s w rec d e size are trees =
      (false, s, stopped n (i + 1), Grows-refl s, λ t. cc)
    where
      stopped : (n i : ℕ) → cancel_children f p n i false s ≡ ok (false, s)
      stopped zero i = refl
      stopped (suc n) i = stopped n (i + 1)
  cancel_children_lem f h p kid (suc n) i true s w rec d e size are trees =
      let first = trees i (omega arith) in
      let (done, s1, ran, g1, all1) = rec (kid i) s first in
      let (w1, e1, l1) = g1 p w e in
      let (b, s2, rest, g2, all2) =
        cancel_children_lem f h p kid n (i + 1) done s1 w1 rec d e1 (omega (arith, l1.count))
          (λ j a. ap (λ k. k j) l1.children ∙ are j (omega arith))
          (λ j a. IsTree-Grows s s1 g1 (trees j (omega arith))) in
      (
        b,
        s2,
        rw (get_child-kid p i (kid i) s w d e (omega arith) (are i (omega arith))) (rw ran rest),
        Grows-trans s s1 s2 g1 g2,
        λ t.
            let (was, others) = all2 t in
            (
              refl,
              λ j a c. elim (Bool-cases (j == i)) [
                | inl same ↦
                    let at : i ≡ j = sym ((==_iff j i).0 same) in
                    subst (λ k. AllCancelled s2 (kid k)) at
                      (AllCancelled-Grows s1 s2 g2 (IsTree-Grows s s1 g1 first) (all1 was))
                | inr other ↦ others j (ground arith) (omega arith)
              ],
            ),
      )

  load-some :
      (p : Ptr) (s : Store J) (w : Workflow J)
      → p ≢ null
      → s p ≡ some w
      → get_children_count p s ≡ ok w.child_count
  unfolding get_children_count load
  load-some p s w d e = ground arith

  request_cancel_run :
      (fuel : ℕ) (p : Ptr) (s s1 s2 : Store J) (w1 : Workflow J) (b c : Bool)
      → p ≢ null
      → set_boolean_property p property_cancel_requested true s ≡ ok (b, s1)
      → s1 p ≡ some w1
      → cancel_children (request_cancel fuel) p w1.child_count 0 b s1 ≡ ok (c, s2)
      → request_cancel (suc fuel) p s ≡ ok (c, s2)
  unfolding request_cancel
  request_cancel_run fuel p s s1 s2 w1 b c d set_it e loop =
      ground (arith, set_it, load-some p s1 w1 d e, loop)

  -- With a JSON library that reads back what it sets: on a tree of objects the request comes to an
  -- end if there is fuel for the height of the tree. The objects keep their children, no request
  -- that stands is taken back, and if the result is true, then cancellation is requested at every
  -- object of the tree.
  pub request_cancel_lem :
      (fuel h : ℕ) (p : Ptr) (s : Store J)
      → IsJson J
      → h ≤ fuel
      → IsTree s h p
      → (b : Bool) × (s' : Store J) × (request_cancel fuel p s ≡ ok (b, s'))
        × Grows s s'
        × (b ≡ true → AllCancelled s' p)
  request_cancel_lem zero h p s laws enough (node w kid d e are trees) = absurd (omega arith)
  request_cancel_lem (suc fuel) h p s laws enough (node {h = h'} w kid d e are trees) =
      let (b, s1, set_it, g1, marked_it) = marked p s w laws d e in
      let (w1, e1, l1) = g1 p w e in
      let rec : Cancels h' (request_cancel fuel) =
        λ c t tree. request_cancel_lem fuel h' c t laws (omega arith) tree in
      let (c, s2, loop, g2, all) =
        cancel_children_lem (request_cancel fuel) h' p kid w1.child_count 0 b s1 w1 rec d e1
          (omega arith) (λ j a. ap (λ k. k j) l1.children ∙ are j (omega (arith, l1.count)))
          (λ j a. IsTree-Grows s s1 g1 (trees j (omega (arith, l1.count)))) in
      let (w2, e2, l2) = g2 p w1 e1 in
      let kids : (i : ℕ) → i < w2.child_count → w2.children i ≡ child (kid i) = λ i a.
        ap (λ k. k i) l2.children
        ∙ ap (λ k. k i) l1.children
        ∙ are i (omega (arith, l1.count, l2.count)) in
      (
        c,
        s2,
        request_cancel_run fuel p s s1 s2 w1 b c d set_it e1 loop,
        Grows-trans s s1 s2 g1 g2,
        λ t.
            let (was, below) = all t in
            AllCancelled-kids p s2 w2 kid e2 kids (IsCancelled-Grows s1 s2 p g2 (marked_it was))
              λ i a. below i (omega arith) (omega (arith, l2.count)),
      )
