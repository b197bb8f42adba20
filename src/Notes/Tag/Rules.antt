-- ===== src/Notes/Tag/Rules.antt =====
-- The rules on the highest digits of a tag.
use restartx.Common.{◌+◌, ◌*◌, ◌/◌, ◌%◌, ◌^◌, ◌<◌, ◌≡◌, ◌↔◌, arith}
use restartx.Common.{true, refl, ok}
use restartx.Common.Bits.{and_mask, one_digit, high_digits, or_top}
use restartx.Crypto.{IsFelt}
use restartx.Types.{AccountId, NoteType}
use restartx.Accounts.Id
use restartx.Accounts.Id.Fields.{storage_bits_lem}
use restartx.Notes.Tag
use restartx.Notes.Tag.{NoteTag, NoteExecutionMode}

abbrev pub IsTag : NoteTag → Type 0
IsTag t = t.inner < 2 ^ 32

-- The digits that a note type requires to be zero: the second highest one of a public note, the
-- highest one of a note off chain, both of an encrypted note.
abbrev pub IsConsistent : NoteType → NoteTag → Type 0
IsConsistent NoteType.public t = t.inner / 2 ^ 30 % 2 ≡ 0
IsConsistent NoteType.off_chain t = t.inner / 2 ^ 31 ≡ 0
IsConsistent NoteType.encrypted t = t.inner / 2 ^ 30 ≡ 0

-- The check of a tag succeeds exactly on the tags that follow the rule of the note's type.
pub validate_iff :
    (n : NoteType) (t s : NoteTag)
    → IsTag t
    → (Tag.validate t n ≡ ok s) ↔ ((s ≡ t) × IsConsistent n t)
unfolding Tag.validate
validate_iff NoteType.public t s l = (
  λ h. ground (arith, and_mask 1 (t.inner / 2 ^ 30)),
  λ h. ground (arith, and_mask 1 (t.inner / 2 ^ 30)),
)
validate_iff NoteType.off_chain t s l = (
  λ h. ground (arith, one_digit 1 (t.inner / 2 ^ 30)),
  λ h. ground (arith, one_digit 1 (t.inner / 2 ^ 30)),
)
validate_iff NoteType.encrypted t s l = (
  λ h. ground (arith, and_mask 2 (t.inner / 2 ^ 30)),
  λ h. ground (arith, and_mask 2 (t.inner / 2 ^ 30)),
)

-- The tag for local execution by an account.
pub from_account_id-local :
    (id : AccountId)
    → IsFelt id.felt
    → (t : NoteTag) × (Tag.from_account_id id NoteExecutionMode.local ≡ ok t)
      × (t.inner ≡ id.felt / 2 ^ 48 * 2 ^ 14)
      × (Tag.execution_mode t ≡ NoteExecutionMode.local)
      × (Tag.is_single_target t ≡ true)
unfolding Tag.from_account_id Tag.execution_mode Tag.is_single_target
from_account_id-local id l = (
  record { inner = id.felt / 2 ^ 48 * 2 ^ 14 },
  ground (arith, high_digits 16 48 id.felt),
  refl,
  ground arith,
  ground arith,
)

-- The tag for network execution.
pub from_account_id-network :
    (id : AccountId)
    → IsFelt id.felt
    → id.felt / 2 ^ 62 ≡ 0
    → (t : NoteTag) × (Tag.from_account_id id NoteExecutionMode.network ≡ ok t)
      × (t.inner ≡ 2 ^ 31 + id.felt / 2 ^ 34)
      × (Tag.execution_mode t ≡ NoteExecutionMode.network)
      × (Tag.is_single_target t ≡ true)
unfolding Tag.from_account_id Tag.execution_mode Tag.is_single_target Id.is_on_chain Id.storage_type
from_account_id-network id l h = (
  record { inner = 2 ^ 31 + id.felt / 2 ^ 34 },
  ground (
    arith,
    storage_bits_lem id.felt,
    high_digits 30 34 id.felt,
    or_top 31 (id.felt / 2 ^ 34) (omega arith),
  ),
  refl,
  ground arith,
  ground arith,
)
