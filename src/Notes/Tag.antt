-- ===== src/Notes/Tag.antt =====
-- Note types and note tags (objects/src/notes/note_type.rs, note_tag.rs), and the execution modes
-- of objects/src/notes/metadata.rs. A tag is a `u32`.
pub mod Rules
use restartx.Common.{ℕ, ◌+◌, ◌*◌, ◌-◌, ◌/◌, ◌%◌, ◌^◌, bit_and, bit_or}
use restartx.Common.{Bool, true, false, not, ◌&&◌, ◌||◌, ◌==◌, ltb, leb, if◌then◌else◌}
use restartx.Common.{Result, ok, err, panic, ◌>>=◌, ◌>>◌, guard, Option, none, some}
use restartx.Crypto.{Felt, Crypto}
use restartx.Types.{AccountId, NoteType}
use restartx.Errors.{NoteError}
use restartx.Accounts.Id

pub data NoteExecutionMode : Type 0 where
  network : NoteExecutionMode
  local : NoteExecutionMode

-- `note_type as u32`
abbrev pub note_type_code : NoteType → ℕ
note_type_code NoteType.public = 1
note_type_code NoteType.off_chain = 2
note_type_code NoteType.encrypted = 3

-- `NoteType::try_from(u8)`
unfoldable pub note_type_of_u8 : ℕ → Result NoteError NoteType
note_type_of_u8 v =
    if v == 2
    then ok NoteType.off_chain
    else if v == 3
    then ok NoteType.encrypted
    else if v == 1
    then ok NoteType.public
    else err (NoteError.invalid_note_type_value v)

-- `NoteType::try_from(u64)`, and from a field element
unfoldable pub note_type_of_u64 : ℕ → Result NoteError NoteType
note_type_of_u64 v = do
  guard (ltb v (2 ^ 8)) (NoteError.invalid_note_type_value v)
  note_type_of_u8 v

-- `NoteTag(u32)`
pub record NoteTag : Type 0 where
  pub inner : ℕ

-- `NoteTag::try_from(Felt)`
unfoldable pub tag_of_felt : Felt → Option NoteTag
tag_of_felt value = if ltb value (2 ^ 32) then some (record { inner = value }) else none

unfoldable pub from_account_id : AccountId → NoteExecutionMode → Result NoteError NoteTag
from_account_id account_id NoteExecutionMode.local =
    let high_bits = bit_and account_id.felt ((2 ^ 16 - 1) * 2 ^ 48) in
    ok (record { inner = high_bits / 2 ^ 34 % 2 ^ 32 })
from_account_id account_id NoteExecutionMode.network = do
  on_chain ← Id.is_on_chain account_id
  guard on_chain NoteError.network_execution_requires_on_chain_account
  let high_bits = bit_and account_id.felt ((2 ^ 30 - 1) * 2 ^ 34)
  ok (record { inner = bit_or (high_bits / 2 ^ 34 % 2 ^ 32) (2 ^ 31) })

unfoldable pub is_single_target : NoteTag → Bool
is_single_target tag = (tag.inner / 2 ^ 30 == 0) || (tag.inner / 2 ^ 29 == 4)

unfoldable pub execution_mode : NoteTag → NoteExecutionMode
execution_mode tag =
    if (tag.inner / 2 ^ 31 == 0) || (tag.inner / 2 ^ 29 == 5)
    then NoteExecutionMode.local
    else NoteExecutionMode.network

unfoldable pub validate : NoteTag → NoteType → Result NoteError NoteTag
validate tag note_type = do
  guard (bit_and (tag.inner / 2 ^ 30) (note_type_code note_type) == 0)
      (NoteError.inconsistent_note_tag note_type tag.inner)
  ok tag

module _ ⦃c : Crypto⦄ where
  -- `Felt::from(NoteType)`
  unfoldable pub note_type_felt : NoteType → Felt
  note_type_felt note_type = c.felt_new (note_type_code note_type)
