-- ===== src/ZkApp/Packing/Shape.antt =====
-- The layout of a packed account update: how many fields it has, and the sizes of its bits in order.
-- It is the same for every account update, so no two of them differ in where a value stands.
use mina_multi_sig.Base.{
  ℕ, zero, suc, ◌+◌, ◌≡◌, refl, ap, Bool, true, false, List, [], ◌∷◌, ◌++◌, map, length, Option,
  none, some, length-append,
}
use mina_multi_sig.ZkApp.Types.{Mina}
use mina_multi_sig.ZkApp.Packing.{
  BitData, u32, u64, PackedInput, bit_data_size, append_packedinput, one_field, one_bit,
  empty_input,
}
use mina_multi_sig.ZkApp.Packing.Basic.{Packed, bit, pack_option, ◌⊕◌}

-- A number of fields and the sizes of the bits.
pub record Layout : Type 0 where
  pub field_count : ℕ
  pub sizes : List ℕ

infixl 10 ◌+++◌
abbrev pub ◌+++◌ : Layout → Layout → Layout
a +++ b = record { field_count = a.field_count + b.field_count; sizes = a.sizes ++ b.sizes }

abbrev pub no_layout : Layout
no_layout = record { field_count = 0; sizes = [] }

abbrev pub one_bit_of : ℕ → Layout
one_bit_of size = record { field_count = 0; sizes = size ∷ [] }

abbrev pub bit_layout : Layout
bit_layout = one_bit_of 1

abbrev pub field_layout : Layout
field_layout = record { field_count = 1; sizes = [] }

-- A layout with a number of others behind it.
abbrev pub then_times : Layout → ℕ → Layout → Layout
then_times l0 zero l = l0
then_times l0 (suc n) l = then_times (l0 +++ l) n l

map_sizes-append :
    (xs ys : List BitData)
    → map bit_data_size (xs ++ ys) ≡ map bit_data_size xs ++ map bit_data_size ys
map_sizes-append [] ys = refl
map_sizes-append (x ∷ xs) ys = ap (◌∷◌ (bit_data_size x)) (map_sizes-append xs ys)

module _ (M : Mina) where
  abbrev pub layout : PackedInput M → Layout
  layout p = record { field_count = length p.fields; sizes = map bit_data_size p.bits }

  abbrev pub Fits : Layout → Option (PackedInput M) → Type 0
  Fits l none = Unit
  Fits l (some p) = layout p ≡ l

  -- What is packed, if the packing did not panic, has the layout.
  pub record HasLayout (l : Layout) (p : Option (PackedInput M)) : Type 0 where
    pub fits : Fits l p

module _ {M : Mina} where
  append-HasLayout :
      {a b : Layout} (p q : Option (PackedInput M))
      → HasLayout M a p
      → HasLayout M b q
      → HasLayout M (a +++ b) (p ⊕ q)
  unfolding append_packedinput
  append-HasLayout none q h g = record { fits = tt }
  append-HasLayout (some p) none h g = record { fits = tt }
  append-HasLayout (some p) (some q) h g = record {
    fits = cc (h.fits, g.fits, map_sizes-append p.bits q.bits, length-append p.fields q.fields);
  }

  infixl 10 ◌<⊕>◌
  pub ◌<⊕>◌ :
      {a b : Layout} {p q : Option (PackedInput M)}
      → HasLayout M a p
      → HasLayout M b q
      → HasLayout M (a +++ b) (p ⊕ q)
  h <⊕> g = append-HasLayout _ _ h g

  pub empty-HasLayout : HasLayout M no_layout (some (empty_input M))
  empty-HasLayout = record { fits = refl }

  pub bit-HasLayout : (b : Bool) → HasLayout M bit_layout (bit M b)
  unfolding bit_data_size
  bit-HasLayout b = record { fits = refl }

  pub field-HasLayout : (f : M.Fp) → HasLayout M field_layout (some (one_field M f))
  field-HasLayout f = record { fits = refl }

  pub u32-HasLayout : (n : ℕ) → HasLayout M (one_bit_of 32) (some (one_bit M (u32 n)))
  unfolding bit_data_size
  u32-HasLayout n = record { fits = refl }

  pub u64-HasLayout : (n : ℕ) → HasLayout M (one_bit_of 64) (some (one_bit M (u64 n)))
  unfolding bit_data_size
  u64-HasLayout n = record { fits = refl }

  pub pack_option-HasLayout :
      {T : Type 0} {l : Layout} {pack : T → Packed M} {empty : Packed M} (o : Option T)
      → ((a : T) → HasLayout M l (pack a))
      → HasLayout M l empty
      → HasLayout M (bit_layout +++ l) (pack_option M pack empty o)
  unfolding pack_option
  pack_option-HasLayout none h g = bit-HasLayout false <⊕> g
  pack_option-HasLayout (some a) h g = bit-HasLayout true <⊕> h a
