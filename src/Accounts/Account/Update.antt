-- ===== src/Accounts/Account/Update.antt =====
-- Updates of an account.
use restartx.Common.{All-trivial, ◌≤◌, ◌≡◌, refl, arith}
use restartx.Common.{Option, none, some}
use restartx.Common.{for_each, for_each_keeps, and_then, and_then_keeps}
use restartx.Crypto.{Felt, Crypto}
use restartx.Merkle.{Smt, SimpleSmt}
use restartx.Types.{Asset}
use restartx.Accounts.Delta.{AccountDelta}
use restartx.Accounts.Account
use restartx.Accounts.Account.{Account, AccountStub, AccountCode}

module _ ⦃c : Crypto⦄ ⦃m : Smt⦄ ⦃s : SimpleSmt⦄ where
  -- A stub has the hash of its account.
  pub stub_hash-stub_of : (a : Account) → Account.stub_hash (Account.stub_of a) ≡ Account.hash a
  unfolding Account.stub_hash Account.stub_of Account.hash
  stub_hash-stub_of a = refl

  -- What no step of an update changes or lowers.
  pub record IsSuccessor (a b : Account) : Type 0 where
    pub same_id : b.id ≡ a.id
    pub same_code : b.code ≡ a.code
    pub nonce_kept : a.nonce ≤ b.nonce

  add_to_vault-IsSuccessor :
      (a b : Account) (x : Asset) → IsSuccessor a b → IsSuccessor a (Account.add_to_vault b x).1
  unfolding Account.add_to_vault Account.update_vault
  add_to_vault-IsSuccessor a b x h = record {
    same_id = h.same_id;
    same_code = h.same_code;
    nonce_kept = h.nonce_kept;
  }

  remove_from_vault-IsSuccessor :
      (a b : Account) (x : Asset)
      → IsSuccessor a b
      → IsSuccessor a (Account.remove_from_vault b x).1
  unfolding Account.remove_from_vault Account.update_vault
  remove_from_vault-IsSuccessor a b x h = record {
    same_id = h.same_id;
    same_code = h.same_code;
    nonce_kept = h.nonce_kept;
  }

  update_nonce-IsSuccessor :
      (a b : Account) (n : Option Felt)
      → IsSuccessor a b
      → IsSuccessor a (Account.update_nonce b n).1
  unfolding Account.update_nonce Account.set_nonce
  update_nonce-IsSuccessor a b none h = h
  update_nonce-IsSuccessor a b (some n) h = record {
    same_id = ground (arith, h.same_id);
    same_code = ground (arith, h.same_code);
    nonce_kept = ground (arith, h.nonce_kept);
  }

  -- What all steps on the vault keep, the two loops keep.
  pub apply_to_vault_keeps :
      (P : Account → Type 0)
      → ((b : Account) (x : Asset) → P b → P (Account.add_to_vault b x).1)
      → ((b : Account) (x : Asset) → P b → P (Account.remove_from_vault b x).1)
      → (d : AccountDelta) (a : Account) → P a
      → P (Account.apply_to_vault d a).1
  apply_to_vault_keeps P add remove d a h =
      and_then_keeps P (for_each Account.add_to_vault d.vault.added_assets a)
        (for_each Account.remove_from_vault d.vault.removed_assets)
        (for_each_keeps P (λ x. Unit {0}) Account.add_to_vault (λ b x q k. add b x k)
          d.vault.added_assets a (All-trivial d.vault.added_assets) h)
        (λ e k.
          for_each_keeps P (λ x. Unit {0}) Account.remove_from_vault (λ b x q l. remove b x l)
            d.vault.removed_assets e (All-trivial d.vault.removed_assets) k)

  apply_to_storage-IsSuccessor :
      (d : AccountDelta) (a b : Account)
      → IsSuccessor a b
      → IsSuccessor a (Account.apply_to_storage d b).1
  unfolding Account.update_storage
  apply_to_storage-IsSuccessor d a b h = record {
    same_id = h.same_id;
    same_code = h.same_code;
    nonce_kept = h.nonce_kept;
  }

  -- Whatever a delta does, also where it fails on the way, the account keeps its ID and its code,
  -- and its nonce does not decrease.
  pub apply_delta-IsSuccessor :
      (a : Account) (d : AccountDelta) → IsSuccessor a (Account.apply_delta a d).1
  unfolding Account.apply_delta
  apply_delta-IsSuccessor a d =
      and_then_keeps (IsSuccessor a) (Account.apply_to_vault d a)
        (λ b. and_then (Account.apply_to_storage d b) (Account.apply_to_nonce d))
        (apply_to_vault_keeps (IsSuccessor a) (add_to_vault-IsSuccessor a)
          (remove_from_vault-IsSuccessor a) d a
          (record { same_id = refl; same_code = refl; nonce_kept = omega arith }))
        (λ b h.
          and_then_keeps (IsSuccessor a) (Account.apply_to_storage d b) (Account.apply_to_nonce d)
            (apply_to_storage-IsSuccessor d a b h) (λ e k. update_nonce-IsSuccessor a e d.nonce k))
