-- ===== src/Types.antt =====
-- The data types on which the errors of the protocol objects report: account IDs and their kinds
-- (objects/src/accounts/account_id.rs), storage slot types (accounts/storage/slot.rs), assets
-- (objects/src/assets) and note types (objects/src/notes/note_type.rs).
use restartx.Common.{ℕ, ◌≡◌, ◌↔◌, Bool, ◌==◌, ltb, ltb_trans, ltb_total, ltb_irrefl, true, arith}
use restartx.Common.Maps.{MapKey}
use restartx.Crypto.{Felt, Word}

pub data AccountType : Type 0 where
  fungible_faucet : AccountType
  non_fungible_faucet : AccountType
  regular_account_immutable_code : AccountType
  regular_account_updatable_code : AccountType

pub data AccountStorageType : Type 0 where
  on_chain : AccountStorageType
  off_chain : AccountStorageType

-- `AccountId(Felt)`
pub record AccountId : Type 0 where
  pub felt : Felt

-- The derived `==`
abbrev pub id_eq : AccountId → AccountId → Bool
id_eq a b = a.felt == b.felt

pub id_eq_iff : (a b : AccountId) → (id_eq a b ≡ true) ↔ (a ≡ b)
id_eq_iff a b = ground arith

-- `AccountId::cmp`
instance abbrev pub id_key : MapKey AccountId
id_key = record {
  same = id_eq;
  less = λ a b. ltb a.felt b.felt;
  same_iff = λ a b. id_eq_iff a b;
  less_trans = λ a b c. ltb_trans a.felt b.felt c.felt;
  less_total = λ a b. ltb_total a.felt b.felt;
  less_irrefl = λ a b. ltb_irrefl a.felt b.felt;
}

pub data StorageSlotType : Type 0 where
  value : ℕ → StorageSlotType
  map : ℕ → StorageSlotType
  -- depth and arity
  array : ℕ → ℕ → StorageSlotType

pub record FungibleAsset : Type 0 where
  pub faucet_id : AccountId
  pub amount : ℕ

-- `NonFungibleAsset(Word)`
pub record NonFungibleAsset : Type 0 where
  pub word : Word

pub data Asset : Type 0 where
  fungible : FungibleAsset → Asset
  non_fungible : NonFungibleAsset → Asset

pub data NoteType : Type 0 where
  off_chain : NoteType
  encrypted : NoteType
  public : NoteType
