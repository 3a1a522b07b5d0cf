-- ===== src/Workflow/Cancel.antt =====
-- Trees of workflow objects of workflow_utils.c, and how requests to cancel stay in them.
pub mod Request
use mbed_ce_client_for_azure.Base.{ℕ, suc, ◌<◌, ◌≡◌, ◌≢◌, refl, ap, ◌∙◌, sym, arith, true, some}
use mbed_ce_client_for_azure.Workflow.Parson.{Json}
use mbed_ce_client_for_azure.Workflow.{Ptr, null, child, Workflow, Store}
use mbed_ce_client_for_azure.Workflow.Properties.{property_cancel_requested, boolean_of}

child_inj : (c d : Ptr) → child c ≡ child d → c ≡ d
child_inj c d h = cc

module _ {J : Json} where
  -- A tree of objects of at most this height. A subtree may be shared.
  pub data IsTree (s : Store J) : ℕ → Ptr → Type 0 where
    node :
        {h : ℕ} {p : Ptr} (w : Workflow J) (kid : ℕ → Ptr)
        → p ≢ null
        → s p ≡ some w
        → ((i : ℕ) → i < w.child_count → w.children i ≡ child (kid i))
        → ((i : ℕ) → i < w.child_count → IsTree s h (kid i))
        → IsTree s (suc h) p

  -- The objects of the tree at `p`.
  pub data IsBelow (s : Store J) : Ptr → Ptr → Type 0 where
    itself : {p : Ptr} → IsBelow s p p
    under :
        {p q : Ptr} (w : Workflow J) (i : ℕ) (c : Ptr)
        → s p ≡ some w
        → i < w.child_count
        → w.children i ≡ child c
        → IsBelow s c q
        → IsBelow s p q

  abbrev pub IsCancelled : Store J → Ptr → Type 0
  IsCancelled s q =
      (w : Workflow J) × (s q ≡ some w) × (boolean_of w property_cancel_requested ≡ true)

  abbrev pub AllCancelled : Store J → Ptr → Type 0
  AllCancelled s p = (q : Ptr) → IsBelow s p q → IsCancelled s q

  -- An object keeps its children, and a request is not taken back.
  pub record IsLater (w w' : Workflow J) : Type 0 where
    pub children : w'.children ≡ w.children
    pub count : w'.child_count ≡ w.child_count
    pub kept :
        boolean_of w property_cancel_requested ≡ true
        → boolean_of w' property_cancel_requested ≡ true

  abbrev pub Grows : Store J → Store J → Type 0
  Grows s s' =
      (q : Ptr) (w : Workflow J)
      → s q ≡ some w
      → (w' : Workflow J) × (s' q ≡ some w') × IsLater w w'

  pub Grows-refl : (s : Store J) → Grows s s
  Grows-refl s q w e = (w, e, record { children = refl; count = refl; kept = λ h. h })

  pub Grows-trans : (s t u : Store J) → Grows s t → Grows t u → Grows s u
  Grows-trans s t u f g q w e =
      let (w', e', l) = f q w e in
      let (w'', e'', l') = g q w' e' in
      (
        w'',
        e'',
        record {
          children = l'.children ∙ l.children;
          count = l'.count ∙ l.count;
          kept = λ h. l'.kept (l.kept h);
        },
      )

  pub IsTree-Grows :
      (s s' : Store J) → Grows s s' → {h : ℕ} {p : Ptr} → IsTree s h p → IsTree s' h p
  IsTree-Grows s s' g {p = p} (node w kid d e are trees) =
      let (w', e', l) = g p w e in
      node w' kid d e' (λ i h. ap (λ f. f i) l.children ∙ are i (omega (arith, l.count, h)))
        λ i h. IsTree-Grows s s' g (trees i (omega (arith, l.count, h)))

  -- Objects below in the new store are below in the old one.
  IsBelow-Grows :
      (s s' : Store J)
      → Grows s s'
      → {h : ℕ} {p q : Ptr} → IsTree s h p
      → IsBelow s' p q
      → IsBelow s p q
  IsBelow-Grows s s' g t itself = itself
  IsBelow-Grows s s' g {p = p} (node w kid d e are trees) (under w' i c e' h is b) =
      let (w1, e1, l) = g p w e in
      let same : w1 ≡ w' = ground (arith, e1, e') in
      let less : i < w.child_count =
        omega (arith, l.count, ap (λ (x : Workflow J). x.child_count) same) in
      let to_kid : kid i ≡ c = child_inj (kid i) c (
        sym (are i less)
        ∙ sym (ap (λ f. f i) l.children)
        ∙ ap (λ (x : Workflow J). x.children i) same
        ∙ is) in
      under w i c e less (are i less ∙ ap child to_kid)
        (IsBelow-Grows s s' g (rw to_kid at (trees i less)) b)

  pub AllCancelled-Grows :
      (s s' : Store J)
      → Grows s s'
      → {h : ℕ} {p : Ptr} → IsTree s h p
      → AllCancelled s p
      → AllCancelled s' p
  AllCancelled-Grows s s' g t all q b =
      let (w, e, set) = all q (IsBelow-Grows s s' g t b) in
      let (w', e', l) = g q w e in (w', e', l.kept set)

  pub AllCancelled-kids :
      (p : Ptr) (s : Store J) (w : Workflow J) (kid : ℕ → Ptr)
      → s p ≡ some w
      → ((i : ℕ) → i < w.child_count → w.children i ≡ child (kid i))
      → IsCancelled s p
      → ((i : ℕ) → i < w.child_count → AllCancelled s (kid i))
      → AllCancelled s p
  AllCancelled-kids p s w kid e are this all q itself = this
  AllCancelled-kids p s w kid e are this all q (under w' i c e' less is b) =
      let same : w' ≡ w = ground (arith, e, e') in
      let less' : i < w.child_count = omega (arith, ap (λ (x : Workflow J). x.child_count) same) in
      let to_kid : c ≡ kid i =
        child_inj c (kid i) (sym is ∙ ap (λ (x : Workflow J). x.children i) same ∙ are i less') in
      all i less' q (rw to_kid at b)

  pub IsCancelled-Grows :
      (s s' : Store J) (p : Ptr) → Grows s s' → IsCancelled s p → IsCancelled s' p
  IsCancelled-Grows s s' p g (w, e, set) = let (w', e', l) = g p w e in (w', e', l.kept set)
