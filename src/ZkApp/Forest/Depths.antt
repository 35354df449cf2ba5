-- ===== src/ZkApp/Forest/Depths.antt =====
-- The depths of a command that passes the check, and the forests that such commands have.
use mina_multi_sig.Base.{
  ℕ, zero, suc, ◌+◌, ◌≤◌, ◌≡◌, refl, ap, subst, true, false, List, [], ◌∷◌, ◌++◌, ltb, length,
  arith, append_assoc, append-nil, Bool-cases, inl, inr, length-append, ltb→lt,
}
use mina_multi_sig.ZkApp.Types.{Mina, AccountUpdate, ZkAppCommand}
use mina_multi_sig.ZkApp.Forest.{
  call_tree, CallForest, no_trees, tree_then, account_updates_to_call_forest_step, from_updates,
  depths_follow, depths_valid, call_depths_of, is_call_depth_valid,
}
use mina_multi_sig.ZkApp.Forest.Order.{preorder, StandsAt, Stops}

module _ (M : Mina) where
  -- Each update after the first is at most one deeper than the one before it.
  abbrev Follows : List (AccountUpdate M) → Type 0
  Follows [] = Unit
  Follows (a ∷ rest) = depths_follow M a.body.call_depth (call_depths_of M rest) ≡ true

  abbrev Enters : ℕ → List (AccountUpdate M) → Type 0
  Enters d [] = Unit
  Enters d (a ∷ rest) = a.body.call_depth ≤ d

  Follows-rest :
      (a : AccountUpdate M) (rest : List (AccountUpdate M))
      → Follows (a ∷ rest)
      → Enters (a.body.call_depth + 1) rest × Follows rest
  Follows-rest a [] h = (tt, tt)
  Follows-rest a (b ∷ rest) h = (ground arith, ground arith)

  Stops-Enters : (d : ℕ) (us : List (AccountUpdate M)) → Stops M (d + 1) us → Enters d us
  Stops-Enters d [] h = tt
  Stops-Enters d (a ∷ rest) h = omega arith

  record Placed (d n : ℕ) (r : CallForest M × List (AccountUpdate M)) : Type 0 where
    place : StandsAt M d r.0
    follows : Follows r.1
    stops : Stops M d r.1
    left : length r.1 ≤ n

  step-Placed :
      (n : ℕ) (updates : List (AccountUpdate M)) (d : ℕ)
      → length updates ≤ n
      → Enters d updates
      → Follows updates
      → Placed d n (account_updates_to_call_forest_step M n updates d)
  unfolding account_updates_to_call_forest_step
  step-Placed zero [] d h e f = record { place = tt; follows = tt; stops = tt; left = omega arith }
  step-Placed zero (a ∷ rest) d h e f = absurd (omega arith)
  step-Placed (suc n) [] d h e f = record {
    place = tt;
    follows = tt;
    stops = tt;
    left = omega arith;
  }
  step-Placed (suc n) (a ∷ rest) d h e f = elim (Bool-cases (ltb a.body.call_depth d)) [
    | inl small ↦
        rw (small, account_updates_to_call_forest_step)
          (record {
            place = tt;
            follows = f;
            stops = ltb→lt a.body.call_depth d small;
            left = omega arith;
          })
    | inr deep ↦
        let inner : CallForest M × List (AccountUpdate M) =
          account_updates_to_call_forest_step M n rest (d + 1) in
        let outer : CallForest M × List (AccountUpdate M) =
          account_updates_to_call_forest_step M n inner.1 d in
        let same : a.body.call_depth ≡ d = ground arith in
        let next = Follows-rest a rest f in
        let i : Placed (d + 1) n inner =
          step-Placed n rest (d + 1) (omega arith) (subst (λ k. Enters (k + 1) rest) same next.0)
            next.1 in
        let o : Placed d n outer =
          step-Placed n inner.1 d i.left (Stops-Enters d inner.1 i.stops) i.follows in
        rw (deep, account_updates_to_call_forest_step)
          (record {
            place = (same, i.place, o.place);
            follows = o.follows;
            stops = o.stops;
            left = omega (arith, o.left);
          })
  ]

  -- In the forest of a command whose call depths are valid each account update stands at its call
  -- depth.
  pub from_updates-StandsAt :
      (tx : ZkAppCommand M)
      → is_call_depth_valid M tx ≡ true
      → StandsAt M 0 (from_updates M tx.account_updates)
  unfolding is_call_depth_valid from_updates
  from_updates-StandsAt tx h =
      let (e, f) = first tx.account_updates h in
      (step-Placed (length tx.account_updates) tx.account_updates 0 (omega arith) e f).place
    where
      first :
          (us : List (AccountUpdate M))
          → depths_valid M (call_depths_of M us) ≡ true
          → Enters 0 us × Follows us
      first [] v = (tt, tt)
      first (a ∷ rest) v = (ground arith, ground arith)

  StandsAt-Stops :
      (f : CallForest M) (tail : List (AccountUpdate M)) (d : ℕ)
      → StandsAt M d f
      → Stops M d tail
      → Stops M (d + 1) (preorder M f ++ tail)
  StandsAt-Stops no_trees [] d s t = tt
  StandsAt-Stops no_trees (a ∷ rest) d s t = omega arith
  StandsAt-Stops (tree_then (call_tree a children) rest) tail d s t = omega (arith, s.0)

  step-preorder :
      (f : CallForest M) (tail : List (AccountUpdate M)) (d n : ℕ)
      → length (preorder M f ++ tail) ≤ n
      → StandsAt M d f
      → Stops M d tail
      → account_updates_to_call_forest_step M n (preorder M f ++ tail) d ≡ (f, tail)
  unfolding account_updates_to_call_forest_step
  step-preorder no_trees [] d zero h s t = refl
  step-preorder no_trees [] d (suc n) h s t = refl
  step-preorder no_trees (a ∷ rest) d zero h s t = absurd (omega arith)
  step-preorder no_trees (a ∷ rest) d (suc n) h s t = ground arith
  step-preorder (tree_then (call_tree a children) rest) tail d zero h s t = absurd (omega arith)
  step-preorder (tree_then (call_tree a children) rest) tail d (suc n) h s t =
      let others : List (AccountUpdate M) = preorder M rest ++ tail in
      let stand : ltb a.body.call_depth d ≡ false = ground (arith, s.0) in
      let order : (preorder M children ++ preorder M rest) ++ tail ≡ preorder M children ++ others =
        append_assoc (preorder M children) (preorder M rest) tail in
      let size : length (preorder M children ++ others) ≤ n = omega (arith, ap length order) in
      let inner =
        step-preorder children others (d + 1) n size s.1 (StandsAt-Stops rest tail d s.2 t) in
      let outer =
        step-preorder rest tail d n
          (omega (arith, size, length-append (preorder M children) others)) s.2 t in
      rw (stand, account_updates_to_call_forest_step, order, inner, outer) refl

  -- A forest whose trees stand at their call depths is the forest of its account updates.
  pub from_updates-preorder :
      (f : CallForest M) → StandsAt M 0 f → from_updates M (preorder M f) ≡ f
  unfolding from_updates
  from_updates-preorder f s =
      let us : List (AccountUpdate M) = preorder M f in
      let same : us ++ [] ≡ us = append-nil us in
      let ends = step-preorder f [] 0 (length us) (omega (arith, ap length same)) s tt in
      ap (λ r. r.0)
        (subst (λ l. account_updates_to_call_forest_step M (length us) l 0 ≡ (f, [])) same ends)
