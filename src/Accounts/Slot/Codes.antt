-- ===== src/Accounts/Slot/Codes.antt =====
-- The codes of slot types, in arithmetic.
use restartx.Common.{ℕ, ◌+◌, ◌*◌, ◌%◌, ◌^◌, ◌<◌, ◌≡◌, sym, ◌⊎◌, bit_or, arith}
use mathlib.Core.Path.{ap₂}
use restartx.Common.{true, refl, ok, ◌∙◌, ◌==◌, if◌then◌else◌}
use restartx.Common.Bits.{or_fields}
use restartx.Crypto.{Crypto}
use restartx.Types.{StorageSlotType}
use restartx.Types.StorageSlotType.{value, map, array}
use restartx.Accounts.Slot

-- The code of a slot's kind, and the arity of its values.
unfoldable pub kind : StorageSlotType → ℕ
kind (value arity) = 0
kind (map arity) = 1
kind (array depth arity) = depth

unfoldable pub value_arity : StorageSlotType → ℕ
value_arity (value arity) = arity
value_arity (map arity) = arity
value_arity (array depth arity) = arity

-- The fields of the enum are bytes.
pub record IsByteType (t : StorageSlotType) : Type 0 where
  pub kind_byte : kind t < 256
  pub arity_byte : value_arity t < 256

or_code : (a k : ℕ) → a < 256 → k < 256 → bit_or (a * 2 ^ 8 % 2 ^ 16) k ≡ a * 256 + k
or_code a k ha hk = ground (arith, or_fields 8 a k hk)

or_felt : (a k : ℕ) → a < 256 → k < 256 → bit_or (a * 2 ^ 32 % 2 ^ 64) k ≡ a * 2 ^ 32 + k
or_felt a k ha hk = ground (arith, or_fields 32 a k (omega arith))

-- The u16 code of a slot type has the arity in its high byte and the kind in its low byte.
pub to_u16_lem : (t : StorageSlotType) → IsByteType t → Slot.to_u16 t ≡ value_arity t * 256 + kind t
unfolding Slot.to_u16 kind value_arity
to_u16_lem (value a) h = omega (arith, h.arity_byte)
to_u16_lem (map a) h = or_code a 1 h.arity_byte h.kind_byte
to_u16_lem (array d a) h = or_code a d h.arity_byte h.kind_byte

valid_bytes : (t : StorageSlotType) → Slot.is_valid t ≡ true → IsByteType t
unfolding Slot.is_valid kind value_arity
valid_bytes (value a) h = record { kind_byte = omega arith; arity_byte = ground arith }
valid_bytes (map a) h = record { kind_byte = omega arith; arity_byte = ground arith }
valid_bytes (array d a) h = record { kind_byte = ground arith; arity_byte = ground arith }

-- A valid slot type is read back from its u16 code.
pub try_from_u16-to_u16 :
    (t : StorageSlotType) → Slot.is_valid t ≡ true → Slot.try_from_u16 (Slot.to_u16 t) ≡ ok t
unfolding Slot.try_from_u16 Slot.is_valid kind value_arity
try_from_u16-to_u16 (value a) h = ground (arith, to_u16_lem (value a) (valid_bytes (value a) h))
try_from_u16-to_u16 (map a) h = ground (arith, to_u16_lem (map a) (valid_bytes (map a) h))
try_from_u16-to_u16 (array d a) h =
    ground (arith, to_u16_lem (array d a) (valid_bytes (array d a) h))

-- What is read from a u16 has that number as its code, and is valid or an array type of the
-- maximal arity.
pub to_u16-try_from_u16 :
    (v : ℕ) (t : StorageSlotType)
    → v < 2 ^ 16
    → Slot.try_from_u16 v ≡ ok t
    → (Slot.to_u16 t ≡ v) × ((Slot.is_valid t ≡ true) ⊎ (value_arity t ≡ 254))
unfolding Slot.try_from_u16 Slot.is_valid kind value_arity
to_u16-try_from_u16 v (value a) l h = (ground (arith, to_u16_lem (value a)), ground arith)
to_u16-try_from_u16 v (map a) l h = (ground (arith, to_u16_lem (map a)), ground arith)
to_u16-try_from_u16 v (array d a) l h = (ground (arith, to_u16_lem (array d a)), ground arith)

type_with : ℕ → ℕ → StorageSlotType
type_with k a = if k == 0 then value a else if k == 1 then map a else array k a

type_with-kind :
    (t : StorageSlotType) → Slot.is_valid t ≡ true → t ≡ type_with (kind t) (value_arity t)
unfolding Slot.is_valid kind value_arity type_with
type_with-kind (value a) h = refl
type_with-kind (map a) h = refl
type_with-kind (array d a) h = ground arith

module _ ⦃c : Crypto⦄ where
  -- The field element of a slot type has the arity above its 32 lowest digits and the kind in them.
  pub to_felt_lem :
      (t : StorageSlotType) → IsByteType t → Slot.to_felt t ≡ value_arity t * 2 ^ 32 + kind t
  unfolding Slot.to_felt kind value_arity
  to_felt_lem (value a) h = ground (arith, h.arity_byte, c.felt_new_of_lt (a * 2 ^ 32))
  to_felt_lem (map a) h =
      ground (
        arith,
        h.arity_byte,
        or_felt a 1 h.arity_byte h.kind_byte,
        c.felt_new_of_lt (a * 2 ^ 32 + 1),
      )
  to_felt_lem (array d a) h =
      ground (
        arith,
        h.arity_byte,
        or_felt a d h.arity_byte h.kind_byte,
        c.felt_new_of_lt (a * 2 ^ 32 + d),
      )

  -- Two valid slot types with the same field element are the same.
  pub to_felt-injective :
      (s t : StorageSlotType)
      → Slot.is_valid s ≡ true
      → Slot.is_valid t ≡ true
      → Slot.to_felt s ≡ Slot.to_felt t
      → s ≡ t
  to_felt-injective s t hs ht e =
      let bs = valid_bytes s hs in
      let bt = valid_bytes t ht in
      type_with-kind s hs
      ∙ ap₂ type_with
          (omega (arith, bs.kind_byte, bt.kind_byte, e, to_felt_lem s bs, to_felt_lem t bt))
          (omega (arith, bs.kind_byte, bt.kind_byte, e, to_felt_lem s bs, to_felt_lem t bt))
      ∙ sym (type_with-kind t ht)
