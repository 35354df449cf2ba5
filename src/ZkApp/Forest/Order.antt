-- ===== src/ZkApp/Forest/Order.antt =====
-- The call forest holds the account updates of the command, in their order, each at its depth.
use mina_multi_sig.Base.{
  ℕ, zero, suc, ◌+◌, ◌≤◌, ◌<◌, ◌≡◌, ◌∙◌, refl, sym, ap, List, [], ◌∷◌, ◌++◌, ltb, length, arith,
  append_assoc, append-nil, Bool-cases, ltb→lt, inl, inr,
}
use mina_multi_sig.ZkApp.Types.{Mina, AccountUpdate}
use mina_multi_sig.ZkApp.Forest.{
  call_tree, CallForest, no_trees, tree_then, account_updates_to_call_forest_step, from_updates,
}

module _ (M : Mina) where
  -- The account updates of a forest, a parent before its children.
  abbrev pub preorder : CallForest M → List (AccountUpdate M)
  preorder no_trees = []
  preorder (tree_then (call_tree a children) rest) = a ∷ (preorder children ++ preorder rest)

  -- Every tree of the forest stands at the depth that its account update names.
  abbrev pub StandsAt : ℕ → CallForest M → Type 0
  StandsAt d no_trees = Unit
  StandsAt d (tree_then (call_tree a children) rest) =
      (a.body.call_depth ≡ d) × StandsAt (d + 1) children × StandsAt d rest

  -- What is left has a first update of a smaller depth, or is empty.
  abbrev pub Stops : ℕ → List (AccountUpdate M) → Type 0
  Stops d [] = Unit
  Stops d (a ∷ rest) = a.body.call_depth < d

  pub record Stepped (updates : List (AccountUpdate M)) (d : ℕ)
      (r : CallForest M × List (AccountUpdate M)) : Type 0 where
    pub whole : preorder r.0 ++ r.1 ≡ updates
    pub left : length r.1 ≤ length updates
    pub stops : Stops d r.1

  pub step-Stepped :
      (n : ℕ) (updates : List (AccountUpdate M)) (d : ℕ)
      → length updates ≤ n
      → Stepped updates d (account_updates_to_call_forest_step M n updates d)
  unfolding account_updates_to_call_forest_step
  step-Stepped zero [] d h = record { whole = refl; left = omega arith; stops = tt }
  step-Stepped zero (a ∷ rest) d h = absurd (omega arith)
  step-Stepped (suc n) [] d h = record { whole = refl; left = omega arith; stops = tt }
  step-Stepped (suc n) (a ∷ rest) d h = elim (Bool-cases (ltb a.body.call_depth d)) [
    | inl small ↦
        rw (small, account_updates_to_call_forest_step)
          (record { whole = refl; left = omega arith; stops = ltb→lt a.body.call_depth d small })
    | inr deep ↦
        let inner : CallForest M × List (AccountUpdate M) =
          account_updates_to_call_forest_step M n rest (d + 1) in
        let outer : CallForest M × List (AccountUpdate M) =
          account_updates_to_call_forest_step M n inner.1 d in
        let i : Stepped rest (d + 1) inner = step-Stepped n rest (d + 1) (omega arith) in
        let o : Stepped inner.1 d outer = step-Stepped n inner.1 d (omega (arith, i.left)) in
        rw (deep, account_updates_to_call_forest_step)
          (record {
            whole = ap (◌∷◌ a) (
                append_assoc (preorder inner.0) (preorder outer.0) outer.1
                ∙ ap (◌++◌ (preorder inner.0)) o.whole
                ∙ i.whole);
            left = omega (arith, i.left, o.left);
            stops = o.stops;
          })
  ]

  -- No update has a depth below 0.
  Stops-zero : (updates : List (AccountUpdate M)) → Stops 0 updates → updates ≡ []
  Stops-zero [] h = refl
  Stops-zero (a ∷ rest) h = absurd (omega arith)

  -- The call forest of a list of account updates holds exactly these, in their order, a parent
  -- before its children, whatever their depths are.
  pub preorder-from_updates :
      (updates : List (AccountUpdate M)) → preorder (from_updates M updates) ≡ updates
  unfolding from_updates
  preorder-from_updates updates =
      let r : CallForest M × List (AccountUpdate M) =
        account_updates_to_call_forest_step M (length updates) updates 0 in
      let s : Stepped updates 0 r = step-Stepped (length updates) updates 0 (omega arith) in
      sym (append-nil (preorder r.0))
      ∙ ap (◌++◌ (preorder r.0)) (sym (Stops-zero r.1 s.stops))
      ∙ s.whole
