-- ===== src/Assets/Value/RoundTrip.antt =====
-- The encodings of assets are read back, and the vault's keys tell assets apart.
use restartx.Common.{◌≤◌, ◌≡◌, ◌↔◌, ap, arith}
use restartx.Common.{true, false, ok}
use restartx.Crypto.{IsWord, Word, Crypto}
use restartx.Types.{Asset, FungibleAsset, NonFungibleAsset}
use restartx.Types.AccountType.{fungible_faucet, non_fungible_faucet}
use restartx.Types.Asset.{fungible, non_fungible}
use restartx.Accounts.Id
use restartx.Accounts.Id.Fields.{try_from_felt_iff}
use restartx.Assets.Fungible
use restartx.Assets.NonFungible
use restartx.Assets.Value
use restartx.Assets.Value.Valid.{IsValid, IsValidFungible}
use restartx.Assets.Value.Valid.{faucet_digit, fungible_digit, non_fungible_digit, clear_of_digit}

record FungibleRead (w : Word) (a : FungibleAsset) : Type 0 where
  zero1 : w.e1 ≡ 0
  zero2 : w.e2 ≡ 0
  amount : a.amount ≡ w.e0
  faucet : Id.try_from_felt w.e3 ≡ ok a.faucet_id
  kind : Id.account_type a.faucet_id ≡ fungible_faucet
  bounded : a.amount ≤ Fungible.max_amount

record NonFungibleRead (w : Word) (a : NonFungibleAsset) : Type 0 where
  word : a.word ≡ w
  faucet : Id.try_from_felt w.e1 ≡ ok (NonFungible.faucet_id a)
  kind : Id.account_type (NonFungible.faucet_id a) ≡ non_fungible_faucet
  digit : Value.is_not_a_non_fungible_asset w ≡ false

fungible_read :
    (w : Word) (a : FungibleAsset) → Value.try_from_word w ≡ ok (fungible a) → FungibleRead w a
unfolding Value.try_from_word Fungible.try_from_word Fungible.new Fungible.validate
fungible_read w a h = ground arith

non_fungible_read :
    (w : Word) (a : NonFungibleAsset)
    → Value.try_from_word w ≡ ok (non_fungible a)
    → NonFungibleRead w a
unfolding Value.try_from_word NonFungible.try_from_word NonFungible.validate NonFungible.faucet_id
    Id.try_from_felt
non_fungible_read w a h = ground arith

module _ ⦃c : Crypto⦄ where
  pub fungible_word :
      (a : FungibleAsset)
      → IsValidFungible a
      → Value.to_word (fungible a) ≡ record { e0 = a.amount; e1 = 0; e2 = 0; e3 = a.faucet_id.felt }
  unfolding Value.to_word Fungible.to_word
  fungible_word a v = cc (c.felt_new_of_lt a.amount (omega arith))

  -- The word of a valid asset is read back as that asset.
  pub try_from_word-to_word : (a : Asset) → IsValid a → Value.try_from_word (Value.to_word a) ≡ ok a
  unfolding Value.try_from_word Value.to_word Fungible.try_from_word Fungible.new Fungible.validate
      NonFungible.try_from_word NonFungible.validate NonFungible.faucet_id
  try_from_word-to_word (fungible a) v = rw (fungible_word a v) (
      ground (
        arith,
        v.kind,
        v.bounded,
        v.faucet.accepted,
        fungible_digit a v,
        (faucet_digit (record { e0 = a.amount; e1 = 0; e2 = 0; e3 = a.faucet_id.felt })).1,
      ))
  try_from_word-to_word (non_fungible a) v =
      ground (arith, v.kind, v.faucet.accepted, non_fungible_digit a.word v.cleared)

  -- A word that is read as an asset is the word of that asset, which is valid.
  pub to_word-try_from_word :
      (w : Word) (a : Asset)
      → IsWord w
      → Value.try_from_word w ≡ ok a
      → (Value.to_word a ≡ w) × IsValid a
  unfolding Value.to_word NonFungible.faucet_id
  to_word-try_from_word w (fungible a) is_word h =
      let r = fungible_read w a h in
      let faucet : a.faucet_id.felt ≡ w.e3 = ((try_from_felt_iff w.e3 a.faucet_id).0 r.faucet).0 in
      let v : IsValidFungible a = record {
        faucet = record { is_felt = rw faucet is_word.3; accepted = cc (faucet, r.faucet) };
        kind = r.kind;
        bounded = r.bounded;
      } in
      (rw (fungible_word a v) (ground (arith, r.zero1, r.zero2, r.amount, faucet)), v)
  to_word-try_from_word w (non_fungible a) is_word h =
      let r = non_fungible_read w a h in
      (
        r.word,
        record {
          faucet = record { is_felt = rw r.word is_word.1; accepted = cc (r.word, r.faucet) };
          kind = r.kind;
          is_word = rw r.word is_word;
          cleared = rw r.word (clear_of_digit w r.digit);
        },
      )

-- Two valid assets have one key in the vault exactly if they are the same: of one fungible
-- faucet, or equal as non-fungible assets.
pub vault_key_iff :
    (a b : Asset)
    → IsValid a
    → IsValid b
    → (Value.vault_key a ≡ Value.vault_key b) ↔ (Value.is_same a b ≡ true)
unfolding Value.vault_key Value.is_same Fungible.vault_key NonFungible.vault_key
    Fungible.is_from_same_faucet
vault_key_iff (fungible a) (fungible b) v u = (λ h. ground arith, λ h. ground arith)
vault_key_iff (fungible a) (non_fungible b) v u =
    (λ h. absurd (omega (arith, fungible_digit a v, u.cleared, ap Word.e3 h)), λ h. cc)
vault_key_iff (non_fungible a) (fungible b) v u =
    (λ h. absurd (omega (arith, fungible_digit b u, v.cleared, ap Word.e3 h)), λ h. cc)
vault_key_iff (non_fungible a) (non_fungible b) v u = (λ h. ground arith, λ h. ground arith)
