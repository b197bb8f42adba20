-- ===== src/Accounts/Slot.antt =====
-- Types of storage slots (objects/src/accounts/storage/slot.rs). The fields of the constructors
-- are bytes (`u8`).
pub mod Codes
use restartx.Common.{ℕ, ◌+◌, ◌*◌, ◌/◌, ◌%◌, ◌^◌, bit_or}
use restartx.Common.{
  Bool, true, false, ◌&&◌, ◌==◌, ltb, leb, if◌then◌else◌, Result, ok, err, ◌>>=◌, ◌>>◌, guard,
}
use restartx.Crypto.{Felt, Crypto}
use restartx.Types.{StorageSlotType}
use restartx.Types.StorageSlotType.{value, map, array}

abbrev pub max_value_arity : ℕ
max_value_arity = 254

abbrev pub min_array_depth : ℕ
min_array_depth = 2

abbrev pub max_array_depth : ℕ
max_array_depth = 64

abbrev pub default_slot_type : StorageSlotType
default_slot_type = value 0

-- The two texts that `try_from` reports.
pub data SlotTypeError : Type 0 where
  invalid_value_arity : SlotTypeError
  invalid_slot_data_type : SlotTypeError

unfoldable pub is_valid : StorageSlotType → Bool
is_valid (value arity) = leb arity max_value_arity
is_valid (map arity) = leb arity max_value_arity
is_valid (array depth arity) =
    ltb arity max_value_arity && leb min_array_depth depth && leb depth max_array_depth

unfoldable pub is_default : StorageSlotType → Bool
is_default (value arity) = arity == 0
is_default (map arity) = false
is_default (array depth arity) = false

-- `StorageSlotType::try_from(u16)`
unfoldable pub try_from_u16 : ℕ → Result SlotTypeError StorageSlotType
try_from_u16 v = do
  let data_type = v % 2 ^ 8
  let arity = v / 2 ^ 8 % 2 ^ 8
  guard (leb arity max_value_arity) SlotTypeError.invalid_value_arity
  if data_type == 0
      then ok (value arity)
      else if data_type == 1
      then ok (map arity)
      else if leb 2 data_type && leb data_type max_array_depth
      then ok (array data_type arity)
      else err SlotTypeError.invalid_slot_data_type

-- `u16::from(StorageSlotType)`
unfoldable pub to_u16 : StorageSlotType → ℕ
to_u16 (value arity) = arity * 2 ^ 8 % 2 ^ 16
to_u16 (map arity) = bit_or (arity * 2 ^ 8 % 2 ^ 16) 1
to_u16 (array depth arity) = bit_or (arity * 2 ^ 8 % 2 ^ 16) depth

module _ ⦃c : Crypto⦄ where
  -- `Felt::from(StorageSlotType)`
  unfoldable pub to_felt : StorageSlotType → Felt
  to_felt (value arity) = c.felt_new (arity * 2 ^ 32 % 2 ^ 64)
  to_felt (map arity) = c.felt_new (bit_or (arity * 2 ^ 32 % 2 ^ 64) 1)
  to_felt (array depth arity) = c.felt_new (bit_or (arity * 2 ^ 32 % 2 ^ 64) depth)
