-- ===== src/Accounts/Account.antt =====
-- Accounts (objects/src/accounts/mod.rs, stub.rs). Of the code of an account, which is made of
-- programs of the assembler, the root is kept. A method on `&mut self` returns its result and the
-- account that it leaves, also where it fails.
pub mod Update
pub mod Applied
use restartx.Common.{ℕ, ◌==◌, leb, Bool, true, false, not, if◌then◌else◌, List, [], ◌∷◌, ◌++◌}
use restartx.Common.{Option, none, some, Result, ok, err, panic, for_each, and_then, map_err, ◌>>=◌}
use restartx.Crypto.{Felt, Digest, Crypto, elements, empty_word}
use restartx.Merkle.{Smt, SimpleSmt}
use restartx.Types.{AccountId, Asset}
use restartx.Errors.{AccountError, AssetVaultError}
use restartx.Assets.Vault
use restartx.Assets.Vault.{AssetVault}
use restartx.Accounts.Storage
use restartx.Accounts.Storage.{AccountStorage}
use restartx.Accounts.Delta.{AccountDelta}

pub record AccountCode : Type 0 where
  pub code_root : Digest

pub record AccountStub : Type 0 where
  pub id : AccountId
  pub nonce : Felt
  pub vault_root : Digest
  pub storage_root : Digest
  pub code_root : Digest

module _ ⦃c : Crypto⦄ where
  unfoldable pub hash_account : AccountId → Felt → Digest → Digest → Digest → Digest
  hash_account id nonce vault_root storage_root code_root = c.hash_elements (
      (id.felt ∷ 0 ∷ 0 ∷ nonce ∷ [])
      ++ (elements vault_root ++ (elements storage_root ++ elements code_root)))

  -- `AccountStub::hash`
  unfoldable pub stub_hash : AccountStub → Digest
  stub_hash stub = hash_account stub.id stub.nonce stub.vault_root stub.storage_root stub.code_root

module _ ⦃m : Smt⦄ ⦃s : SimpleSmt⦄ where
  pub record Account : Type 0 where
    pub id : AccountId
    pub vault : AssetVault
    pub storage : AccountStorage
    pub code : AccountCode
    pub nonce : Felt

  unfoldable pub is_new : Account → Bool
  is_new account = account.nonce == 0

  -- `AccountStub::from(&Account)`
  unfoldable pub stub_of : Account → AccountStub
  stub_of account = record {
    id = account.id;
    nonce = account.nonce;
    vault_root = Vault.commitment account.vault;
    storage_root = Storage.root account.storage;
    code_root = account.code.code_root;
  }

  abbrev pub with_vault : Account → AssetVault → Account
  with_vault account vault = record {
    id = account.id;
    vault = vault;
    storage = account.storage;
    code = account.code;
    nonce = account.nonce;
  }

  abbrev pub with_storage : Account → AccountStorage → Account
  with_storage account storage = record {
    id = account.id;
    vault = account.vault;
    storage = storage;
    code = account.code;
    nonce = account.nonce;
  }

  abbrev pub with_nonce : Account → Felt → Account
  with_nonce account nonce = record {
    id = account.id;
    vault = account.vault;
    storage = account.storage;
    code = account.code;
    nonce = nonce;
  }

  unfoldable pub set_nonce : Account → Felt → Result AccountError (Unit {0}) × Account
  set_nonce account nonce =
      if leb nonce account.nonce
      then (err (AccountError.nonce_not_monotonically_increasing account.nonce nonce), account)
      else (ok tt, with_nonce account nonce)

  -- `if let Some(nonce) = delta.nonce() { self.set_nonce(nonce)?; }`
  unfoldable pub update_nonce : Account → Option Felt → Result AccountError (Unit {0}) × Account
  update_nonce account none = (ok tt, account)
  update_nonce account (some nonce) = set_nonce account nonce

  -- A step on the storage, as a step on the account.
  unfoldable pub update_storage :
      Account
      → Result AccountError (Unit {0}) × AccountStorage
      → Result AccountError (Unit {0}) × Account
  update_storage account (r, storage) = (r, with_storage account storage)

  -- `.map_err(AccountError::AssetVaultUpdateError)?` on a step of the vault, the asset not used
  unfoldable pub update_vault :
      Account → Result AssetVaultError Asset × AssetVault → Result AccountError (Unit {0}) × Account
  update_vault account (r, vault) =
      (map_err AccountError.asset_vault_update_error r >>= (λ a. ok tt), with_vault account vault)

module _ ⦃c : Crypto⦄ ⦃m : Smt⦄ ⦃s : SimpleSmt⦄ where
  unfoldable pub hash : Account → Digest
  hash account =
      hash_account account.id account.nonce (Vault.commitment account.vault)
        (Storage.root account.storage) account.code.code_root

  unfoldable pub proof_init_hash : Account → Digest
  proof_init_hash account = if is_new account then empty_word else hash account

  -- The bodies of the two loops over assets.
  unfoldable pub add_to_vault : Account → Asset → Result AccountError (Unit {0}) × Account
  add_to_vault account asset = update_vault account (Vault.add_asset account.vault asset)

  unfoldable pub remove_from_vault : Account → Asset → Result AccountError (Unit {0}) × Account
  remove_from_vault account asset = update_vault account (Vault.remove_asset account.vault asset)

  -- The three parts of `apply_delta`, in the order of the code.
  abbrev pub apply_to_vault : AccountDelta → Account → Result AccountError (Unit {0}) × Account
  apply_to_vault delta account =
      and_then (for_each add_to_vault delta.vault.added_assets account)
        (for_each remove_from_vault delta.vault.removed_assets)

  abbrev pub apply_to_storage : AccountDelta → Account → Result AccountError (Unit {0}) × Account
  apply_to_storage delta account =
      update_storage account (Storage.apply_delta account.storage delta.storage)

  abbrev pub apply_to_nonce : AccountDelta → Account → Result AccountError (Unit {0}) × Account
  apply_to_nonce delta account = update_nonce account delta.nonce

  unfoldable pub apply_delta : Account → AccountDelta → Result AccountError (Unit {0}) × Account
  apply_delta account delta =
      and_then (apply_to_vault delta account)
        (λ a. and_then (apply_to_storage delta a) (apply_to_nonce delta))
