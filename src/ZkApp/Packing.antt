-- ===== src/ZkApp/Packing.antt =====
-- mina-tx/src/transactions/zkapp_tx/packing.rs: the input of the hash, and its packing into fields.
-- `none` is a panic of an `unwrap`, an `expect` or a slice.
pub mod Basic
pub mod Composite
pub mod Shape
pub mod Leaves
pub mod Body
pub mod Total
use mina_multi_sig.Base.{
  ℕ, ◌+◌, ◌*◌, ◌-◌, ◌^◌, Bool, true, false, List, [], ◌∷◌, ◌++◌, ltb, length, take, replicate, min,
  Option, none, some,
}
use mina_multi_sig.Text.{Bytes}
use mina_multi_sig.ZkApp.Types.{Mina}

pub data BitData : Type 0 where
  u32 : ℕ → BitData
  u64 : ℕ → BitData
  bool : Bool → BitData
  bytes : Bytes → BitData

pub record PackedInput (M : Mina) : Type 0 where
  pub bits : List BitData
  pub fields : List M.Fp

unfoldable pub bit_data_size : BitData → ℕ
bit_data_size (u32 val) = 32
bit_data_size (u64 val) = 64
bit_data_size (bool val) = 1
bit_data_size (bytes val) = length val * 8

-- `none` is the panic of the `expect`.
unfoldable pub to_field : (M : Mina) → BitData → Option M.Fp
to_field M (u32 val) = some (M.fp_of val)
to_field M (u64 val) = some (M.fp_of val)
to_field M (bool true) = some (M.fp_of 1)
to_field M (bool false) = some (M.fp_of 0)
to_field M (bytes val) =
    let len = min (length val) 32 in M.from_random_bytes (take len val ++ replicate (32 - len) 0)

module _ (M : Mina) where
  open M use {Fp, fp_of, fp_add, fp_mul}

  abbrev pub empty_input : PackedInput M
  empty_input = record { bits = []; fields = [] }

  abbrev pub one_field : Fp → PackedInput M
  one_field f = record { bits = []; fields = f ∷ [] }

  abbrev pub one_bit : BitData → PackedInput M
  one_bit b = record { bits = b ∷ []; fields = [] }

  unfoldable pub append_packedinput : PackedInput M → PackedInput M → PackedInput M
  append_packedinput p q = record { bits = p.bits ++ q.bits; fields = p.fields ++ q.fields }

  -- The loop of `pack_to_fields`, with the field and the size so far.
  unfoldable pub pack_bits : Fp → ℕ → List BitData → Option (List Fp)
  pack_bits current_packed_field current_size [] = some (current_packed_field ∷ [])
  pack_bits current_packed_field current_size (bit_data ∷ rest) = elim (to_field M bit_data) [
    | none ↦ none
    | some field ↦
        let size = bit_data_size bit_data in
        elim (ltb (current_size + size) 255) [
          | true ↦
              pack_bits (fp_add (fp_mul current_packed_field (fp_of (2 ^ size))) field)
                (current_size + size) rest
          | false ↦ elim (pack_bits field size rest) [
            | none ↦ none
            | some packed_bits ↦ some (current_packed_field ∷ packed_bits)
          ]
        ]
  ]

  -- The `fields` of the result of `pack_to_fields`; its `bits` are empty.
  unfoldable pub pack_to_fields : PackedInput M → Option (List Fp)
  pack_to_fields p = elim p.bits [
    | [] ↦ some p.fields
    | _ ∷ _ ↦ elim (pack_bits (fp_of 0) 0 p.bits) [
      | none ↦ none
      | some packed_bits ↦ some (p.fields ++ packed_bits)
    ]
  ]

  abbrev append_bools : M.RoInput → List Bool → M.RoInput
  append_bools acc [] = acc
  append_bools acc (b ∷ bs) = append_bools (M.append_bool acc b) bs

  abbrev pub pack_bool_to_field_legacy : List Bool → List Fp
  pack_bool_to_field_legacy bits = M.to_fields (append_bools M.new_roinput bits)
