-- ===== src/Accounts/Account/Applied.antt =====
-- What an account delta has done where it is applied without an error.
use restartx.Common.{◌⊎◌, inl, inr, and_then-eq-ok, ◌<◌, ◌≡◌, refl, sym, arith}
use restartx.Common.{Option, none, some}
use restartx.Common.{ok, for_each, and_then}
use restartx.Crypto.{Felt, Crypto}
use restartx.Merkle.{Smt, SimpleSmt}
use mathlib.Core.Path.{subst}
use restartx.Common.{Bool-cases, leb, List, [], ◌∷◌, Result, err, panic, ap, ◌∙◌}
use restartx.Types.{Asset}
use restartx.Errors.{AssetVaultError}
use restartx.Assets.Vault
use restartx.Assets.Vault.{AssetVault}
use restartx.Accounts.Storage
use restartx.Accounts.Storage.{AccountStorage}
use restartx.Accounts.Delta.{AccountDelta}
use restartx.Accounts.Account
use restartx.Accounts.Account.{Account, AccountStub, AccountCode}
use restartx.Accounts.Account.Update.{apply_to_vault_keeps}

module _ ⦃c : Crypto⦄ ⦃m : Smt⦄ ⦃s : SimpleSmt⦄ where
  -- The steps on the vault leave storage and nonce alone.
  record IsVaultStep (a b : Account) : Type 0 where
    same_storage : b.storage ≡ a.storage
    same_nonce : b.nonce ≡ a.nonce

  add_to_vault-IsVaultStep :
      (a b : Account) (x : Asset) → IsVaultStep a b → IsVaultStep a (Account.add_to_vault b x).1
  unfolding Account.add_to_vault Account.update_vault
  add_to_vault-IsVaultStep a b x h = record {
    same_storage = h.same_storage;
    same_nonce = h.same_nonce;
  }

  remove_from_vault-IsVaultStep :
      (a b : Account) (x : Asset)
      → IsVaultStep a b
      → IsVaultStep a (Account.remove_from_vault b x).1
  unfolding Account.remove_from_vault Account.update_vault
  remove_from_vault-IsVaultStep a b x h = record {
    same_storage = h.same_storage;
    same_nonce = h.same_nonce;
  }

  apply_to_storage_ok :
      (d : AccountDelta) (b e : Account)
      → Account.apply_to_storage d b ≡ (ok tt, e)
      → (Storage.apply_delta b.storage d.storage ≡ (ok tt, e.storage))
        × (e.nonce ≡ b.nonce)
        × (e.vault ≡ b.vault)
  unfolding Account.update_storage
  apply_to_storage_ok d b e h = (ground (arith, h), ground (arith, h), ap (λ r. r.1.vault) (sym h))

  set_nonce-vault : (b : Account) (n : Felt) → (Account.set_nonce b n).1.vault ≡ b.vault
  unfolding Account.set_nonce
  set_nonce-vault b n = elim (Bool-cases (leb n b.nonce)) [
    | inl refused ↦ rw refused refl
    | inr accepted ↦ rw accepted refl
  ]

  update_nonce_ok :
      (n : Option Felt) (b e : Account)
      → Account.update_nonce b n ≡ (ok tt, e)
      → (e.storage ≡ b.storage)
        × (e.vault ≡ b.vault)
        × (((n ≡ none) × (e.nonce ≡ b.nonce)) ⊎ ((n ≡ some e.nonce) × (b.nonce < e.nonce)))
  unfolding Account.update_nonce Account.set_nonce
  update_nonce_ok none b e h =
      (ground (arith, h), ap (λ r. r.1.vault) (sym h), inl (refl, ground (arith, h)))
  update_nonce_ok (some n) b e h = (
    ground (arith, h),
    ap (λ r. r.1.vault) (sym h) ∙ set_nonce-vault b n,
    inr (ground (arith, h), ground (arith, h)),
  )

  -- Assets that are put through an operation of the vault one after the other, each with success.
  pub data Steps (step : AssetVault → Asset → Result AssetVaultError Asset × AssetVault)
      : AssetVault → List Asset → AssetVault → Type 0 where
    done : {v : AssetVault} → Steps step v [] v
    next :
        {v w u : AssetVault} {x y : Asset} {xs : List Asset}
        → step v x ≡ (ok y, w)
        → Steps step w xs u
        → Steps step v (x ∷ xs) u

  update_vault_ok :
      (a : Account) (o : Result AssetVaultError Asset × AssetVault)
      → (Account.update_vault a o).0 ≡ ok tt
      → (y : Asset) × (o ≡ (ok y, o.1))
  unfolding Account.update_vault
  update_vault_ok a (ok y, v) h = (y, refl)
  update_vault_ok a (err e, v) h = cc
  update_vault_ok a (panic, v) h = cc

  for_each-add_to_vault :
      (xs : List Asset) (a b : Account)
      → for_each Account.add_to_vault xs a ≡ (ok tt, b)
      → Steps Vault.add_asset a.vault xs b.vault
  unfolding Account.add_to_vault Account.update_vault
  for_each-add_to_vault [] a b h =
      subst (Steps Vault.add_asset a.vault []) (ap (λ r. r.1.vault) h) Steps.done
  for_each-add_to_vault (x ∷ xs) a b h =
      let (one, rest) =
        and_then-eq-ok (Account.add_to_vault a x) (for_each Account.add_to_vault xs) b h in
      let (y, same) = update_vault_ok a (Vault.add_asset a.vault x) (ap (λ r. r.0) one) in
      Steps.next same (for_each-add_to_vault xs (Account.add_to_vault a x).1 b rest)

  for_each-remove_from_vault :
      (xs : List Asset) (a b : Account)
      → for_each Account.remove_from_vault xs a ≡ (ok tt, b)
      → Steps Vault.remove_asset a.vault xs b.vault
  unfolding Account.remove_from_vault Account.update_vault
  for_each-remove_from_vault [] a b h =
      subst (Steps Vault.remove_asset a.vault []) (ap (λ r. r.1.vault) h) Steps.done
  for_each-remove_from_vault (x ∷ xs) a b h =
      let (one, rest) =
        and_then-eq-ok (Account.remove_from_vault a x) (for_each Account.remove_from_vault xs) b
          h in
      let (y, same) = update_vault_ok a (Vault.remove_asset a.vault x) (ap (λ r. r.0) one) in
      Steps.next same (for_each-remove_from_vault xs (Account.remove_from_vault a x).1 b rest)

  -- A delta that is applied without an error has added its added assets to the vault and then
  -- removed its removed assets, each with success, has been applied to the storage as a storage
  -- delta, and has set the nonce to the new one, which is greater, or it has none and left the
  -- nonce.
  pub apply_delta_ok :
      (a b : Account) (d : AccountDelta)
      → Account.apply_delta a d ≡ (ok tt, b)
      → ((mid : AssetVault) × Steps Vault.add_asset a.vault d.vault.added_assets mid
          × Steps Vault.remove_asset mid d.vault.removed_assets b.vault)
        × (Storage.apply_delta a.storage d.storage ≡ (ok tt, b.storage))
        × (((d.nonce ≡ none) × (b.nonce ≡ a.nonce))
            ⊎ ((d.nonce ≡ some b.nonce) × (a.nonce < b.nonce)))
  unfolding Account.apply_delta
  apply_delta_ok a b d h =
      let v = (Account.apply_to_vault d a).1 in
      let (vault_ok, after_vault) =
        and_then-eq-ok (Account.apply_to_vault d a)
          (λ x. and_then (Account.apply_to_storage d x) (Account.apply_to_nonce d)) b h in
      let added = (for_each Account.add_to_vault d.vault.added_assets a).1 in
      let (added_ok, removed_ok) =
        and_then-eq-ok (for_each Account.add_to_vault d.vault.added_assets a)
          (for_each Account.remove_from_vault d.vault.removed_assets) v vault_ok in
      let kept : IsVaultStep a v =
        apply_to_vault_keeps (IsVaultStep a) (add_to_vault-IsVaultStep a)
          (remove_from_vault-IsVaultStep a) d a
          (record { same_storage = refl; same_nonce = refl }) in
      let (storage_ok, after_storage) =
        and_then-eq-ok (Account.apply_to_storage d v) (Account.apply_to_nonce d) b after_vault in
      let e = (Account.apply_to_storage d v).1 in
      let (stored, nonce1, vault1) = apply_to_storage_ok d v e storage_ok in
      let (same, vault2, nonce2) = update_nonce_ok d.nonce e b after_storage in
      (
        (
          added.vault,
          for_each-add_to_vault d.vault.added_assets a added added_ok,
          subst (Steps Vault.remove_asset added.vault d.vault.removed_assets)
              (sym (vault2 ∙ vault1))
              (for_each-remove_from_vault d.vault.removed_assets added v removed_ok),
        ),
        rw (sym kept.same_storage, same) stored,
        ground (arith, kept.same_nonce, nonce1, nonce2),
      )
