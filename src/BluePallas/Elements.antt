-- ===== src/BluePallas/Elements.antt =====
-- The bytes of group elements: the identity is neither written nor read.
use mina_multi_sig.Base.{
  ◌≡◌, refl, ap, ◌∙◌, false, ok, Bool-cases, inl, inr, some, Option-cases, ok-inj, err-ne-ok, subst,
}
use mina_multi_sig.Text.{Bytes}
use mina_multi_sig.BluePallas.{FrostCrates, serialize_element, deserialize_element}

module _ (F : FrostCrates) where
  -- What `deserialize` gives is not the identity.
  pub deserialize_element-ok :
      (buf : Bytes) (p : F.Element) → deserialize_element F buf ≡ ok p → F.is_zero p ≡ false
  unfolding deserialize_element
  deserialize_element-ok buf p e = elim (Option-cases (F.deserialize_compressed buf)) [
    | inl bad ↦ absurd (err-ne-ok (rw (bad, deserialize_element) at e))
    | inr (q, good) ↦ elim (Bool-cases (F.is_zero q)) [
      | inl identity ↦ absurd (err-ne-ok (rw (good, identity, deserialize_element) at e))
      | inr other ↦
          subst (λ x. F.is_zero x ≡ false) (ok-inj (rw (good, other, deserialize_element) at e))
            other
    ]
  ]

  -- An element that is written is read back, where the curve crate reads what it writes.
  pub deserialize-serialize_element :
      (p : F.Element) (buf : Bytes)
      → ((q : F.Element) (b : Bytes)
          → F.serialize_compressed q ≡ some b
          → F.deserialize_compressed b ≡ some q)
      → serialize_element F p ≡ ok buf
      → deserialize_element F buf ≡ ok p
  unfolding serialize_element deserialize_element
  deserialize-serialize_element p buf codec e = elim (Bool-cases (F.is_zero p)) [
    | inl identity ↦ absurd (err-ne-ok (rw (identity, serialize_element) at e))
    | inr other ↦ elim (Option-cases (F.serialize_compressed p)) [
      | inl bad ↦ absurd (err-ne-ok (rw (other, bad, serialize_element) at e))
      | inr (b, good) ↦
          let same : b ≡ buf = ok-inj (rw (other, good, serialize_element) at e) in
          rw (codec p buf (good ∙ ap (λ x. some x) same), other, deserialize_element) refl
    ]
  ]
