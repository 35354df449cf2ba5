-- ===== src/ZkApp/Forest/Fuel.antt =====
-- The loop and the recursion that build the call forest end.
use mina_multi_sig.Base.{
  ℕ, zero, suc, ◌+◌, ◌≤◌, ◌≡◌, refl, ap, ◌∙◌, List, [], ◌∷◌, ltb, length, arith, Bool-cases, inl,
  inr,
}
use mina_multi_sig.ZkApp.Types.{Mina, AccountUpdate}
use mina_multi_sig.ZkApp.Forest.{
  call_tree, CallForest, tree_then, account_updates_to_call_forest_step,
}
use mina_multi_sig.ZkApp.Forest.Order.{Stops, Stepped, step-Stepped}

module _ (M : Mina) where
  -- One round of the loop: the children, and then what follows them.
  abbrev joined :
      AccountUpdate M
      → CallForest M × List (AccountUpdate M)
      → CallForest M × List (AccountUpdate M)
      → CallForest M × List (AccountUpdate M)
  joined a inner outer = (tree_then (call_tree a inner.0) outer.0, outer.1)

  step_fuel :
      (n m : ℕ) (updates : List (AccountUpdate M)) (d : ℕ)
      → length updates ≤ n
      → length updates ≤ m
      → account_updates_to_call_forest_step M n updates d
        ≡ account_updates_to_call_forest_step M m updates d
  unfolding account_updates_to_call_forest_step
  step_fuel zero zero updates d h k = refl
  step_fuel zero (suc m) [] d h k = refl
  step_fuel (suc n) zero [] d h k = refl
  step_fuel (suc n) (suc m) [] d h k = refl
  step_fuel zero m (a ∷ rest) d h k = absurd (omega arith)
  step_fuel (suc n) zero (a ∷ rest) d h k = absurd (omega arith)
  step_fuel (suc n) (suc m) (a ∷ rest) d h k = elim (Bool-cases (ltb a.body.call_depth d)) [
    | inl small ↦ rw (small, account_updates_to_call_forest_step) refl
    | inr deep ↦
        let inner : CallForest M × List (AccountUpdate M) =
          account_updates_to_call_forest_step M n rest (d + 1) in
        let children : inner ≡ account_updates_to_call_forest_step M m rest (d + 1) =
          step_fuel n m rest (d + 1) (omega (arith, h)) (omega (arith, k)) in
        let i : Stepped M rest (d + 1) inner = step-Stepped M n rest (d + 1) (omega (arith, h)) in
        let next : account_updates_to_call_forest_step M n inner.1 d
            ≡ account_updates_to_call_forest_step M m inner.1 d =
          step_fuel n m inner.1 d (omega (arith, h, i.left)) (omega (arith, k, i.left)) in
        rw (deep, account_updates_to_call_forest_step)
          (ap (joined a inner) next
            ∙ ap (λ r. joined a r (account_updates_to_call_forest_step M m r.1 d)) children)
  ]

  -- The building of the forest ends at every call depth within as many calls as there are account
  -- updates: with more fuel the result is the same, and what is left of the queue begins with an
  -- account update above the call depth, or is empty.
  pub step_settles :
      (n : ℕ) (updates : List (AccountUpdate M)) (d : ℕ)
      → length updates ≤ n
      → (account_updates_to_call_forest_step M n updates d
          ≡ account_updates_to_call_forest_step M (length updates) updates d)
        × Stops M d (account_updates_to_call_forest_step M n updates d).1
  step_settles n updates d h =
      (step_fuel n (length updates) updates d h (omega arith), (step-Stepped M n updates d h).stops)
