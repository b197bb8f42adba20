-- ===== src/Streams/Deltas/Back.antt =====
-- What is written of an account delta is read back.
use restartx.Common.{ℕ, ◌<◌, ◌≡◌, refl, arith, ◌==◌, false}
use restartx.Common.{List, [], ◌∷◌, ◌++◌, length, All, All-map, Apart-nil, Option, none, some, ok}
use restartx.Crypto.{Felt, Word, Crypto, IsFelt, IsWord}
use restartx.Types.{Asset}
use restartx.Assets.Value
use restartx.Assets.Value.Valid.{IsValid}
use restartx.Accounts.Delta
use restartx.Accounts.Delta.{AccountStorageDelta, AccountVaultDelta, AccountDelta}
use restartx.Accounts.Delta.Checks.{IsStorageDelta, IsVaultDelta, delta_checks, same_index}
use restartx.Streams.{Streams, ReadsBack, back_first, append_assoc, write_many}
use restartx.Streams.Parts
use restartx.Streams.Parts.Back.{asset_back}
use restartx.Streams.Notes.Back.{WritesBack}
use restartx.Streams.Deltas
use restartx.Streams.Deltas.Checked.{read_checked_back, Distinct-keys, cannot_update_none}

abbrev IsItem : ℕ × Word → Type 0
IsItem p = (p.0 < 256) × IsWord p.1

abbrev pub OptionIsFelt : Option Felt → Type 0
OptionIsFelt none = Unit
OptionIsFelt (some v) = IsFelt v

below_256 : (i : ℕ) → i < 255 → i < 256
below_256 i h = omega (arith, h)

not_immutable : (i : ℕ) → i < 255 → Deltas.is_immutable i ≡ false
not_immutable i h = ground (arith, h)

never_bad : (xs : List Asset) → All (λ x. false ≡ false) xs
never_bad [] = tt
never_bad (x ∷ xs) = (refl, never_bad xs)

module _ ⦃s : Streams⦄ where
  item_back : (p : ℕ × Word) → IsItem p → ReadsBack Deltas.read_item (Deltas.write_item p) p
  item_back (i, v) (small, word) rest =
      rw
        (
          back_first (s.read_int 1) (s.write_int 1 i) i (s.write_word v) rest
              (s.int_back 1 i (omega (arith, small))),
          s.word_back v word rest,
        )
        refl

  storage_delta_back :
      (d : AccountStorageDelta)
      → IsStorageDelta d
      → All IsItem d.updated_items
      → WritesBack Deltas.read_storage_delta (Deltas.write_storage_delta d) d
  unfolding Deltas.read_storage_delta Deltas.write_storage_delta
  storage_delta_back d v items =
      let nc = length d.cleared_items in
      let nu = length d.updated_items in
      let cleared = write_many Deltas.write_index d.cleared_items in
      let updated = write_many Deltas.write_item d.updated_items in
      let second = s.write_int 1 nu ++ updated in
      let small_index =
        All-map (λ (i : ℕ) (h : i < 255). below_256 i h) d.cleared_items v.cleared_mutable in
      let good =
        All-map (λ (i : ℕ) (h : i < 255). not_immutable i h) d.cleared_items v.cleared_mutable in
      record {
        bytes = (s.write_int 1 nc ++ cleared) ++ second;
        succeeds = ground (arith, v.few_cleared, v.few_updated);
        back = λ rest.
            rw
              (
                append_assoc (s.write_int 1 nc ++ cleared) second rest,
                back_first (s.read_int 1) (s.write_int 1 nc) nc cleared (second ++ rest)
                    (s.int_back 1 nc (omega (arith, v.few_cleared))),
                read_checked_back (λ i. i < 256) Deltas.write_index (s.read_int 1)
                    Deltas.is_immutable ◌==◌ (λ i h. s.int_back 1 i (omega (arith, h))) []
                    d.cleared_items small_index good v.cleared_distinct
                    (Apart-nil same_index d.cleared_items) (second ++ rest),
                back_first (s.read_int 1) (s.write_int 1 nu) nu updated rest
                    (s.int_back 1 nu (omega (arith, v.few_updated))),
                read_checked_back IsItem Deltas.write_item Deltas.read_item
                    (Deltas.cannot_update d.cleared_items) (λ p q. p.0 == q.0) item_back []
                    d.updated_items items
                    (cannot_update_none d.cleared_items d.updated_items v.updated_mutable
                      v.disjoint)
                    (Distinct-keys d.updated_items v.updated_distinct)
                    (Apart-nil (λ p q. p.0 == q.0) d.updated_items) rest,
              )
              refl;
      }

  vault_delta_back :
      ⦃c : Crypto⦄ (d : AccountVaultDelta)
      → IsVaultDelta d
      → All IsValid d.added_assets
      → All IsValid d.removed_assets
      → WritesBack Deltas.read_vault_delta (Deltas.write_vault_delta d) d
  unfolding Deltas.read_vault_delta Deltas.write_vault_delta
  vault_delta_back d v valid_added valid_removed =
      let na = length d.added_assets in
      let nr = length d.removed_assets in
      let added = write_many Parts.write_asset d.added_assets in
      let removed = write_many Parts.write_asset d.removed_assets in
      let second = s.write_int 2 nr ++ removed in
      record {
        bytes = (s.write_int 2 na ++ added) ++ second;
        succeeds = ground (arith, v.few_added, v.few_removed);
        back = λ rest.
            rw
              (
                append_assoc (s.write_int 2 na ++ added) second rest,
                back_first (s.read_int 2) (s.write_int 2 na) na added (second ++ rest)
                    (s.int_back 2 na (omega (arith, v.few_added))),
                read_checked_back IsValid Parts.write_asset Parts.read_asset (λ a. false)
                    Value.is_same (λ a h. asset_back a h) [] d.added_assets valid_added
                    (never_bad d.added_assets) v.added_distinct
                    (Apart-nil Value.is_same d.added_assets) (second ++ rest),
                back_first (s.read_int 2) (s.write_int 2 nr) nr removed rest
                    (s.int_back 2 nr (omega (arith, v.few_removed))),
                read_checked_back IsValid Parts.write_asset Parts.read_asset
                    (Delta.contains_asset d.added_assets) Value.is_same (λ a h. asset_back a h) []
                    d.removed_assets valid_removed v.disjoint v.removed_distinct
                    (Apart-nil Value.is_same d.removed_assets) rest,
              )
              refl;
      }

  option_back : (o : Option Felt) → OptionIsFelt o → ReadsBack s.read_option (s.write_option o) o
  option_back none h = s.none_back
  option_back (some v) h = s.option_back v h

  -- A delta as the constructor makes it, of valid assets and of words and a nonce of field
  -- elements, is written without a panic and is read back, whatever stands behind it.
  pub delta_back :
      ⦃c : Crypto⦄ (d : AccountDelta)
      → Delta.new d.storage d.vault d.nonce ≡ ok d
      → All (λ (p : ℕ × Word). (p.0 < 256) × IsWord p.1) d.storage.updated_items
      → All IsValid d.vault.added_assets
      → All IsValid d.vault.removed_assets
      → OptionIsFelt d.nonce
      → WritesBack Deltas.read_delta (Deltas.write_delta d) d
  unfolding Deltas.read_delta Deltas.write_delta Delta.new
  delta_back d made items valid_added valid_removed felt =
      let (sv, vv, _, _) = delta_checks d.storage d.vault d.nonce d made in
      let fits : Delta.validate_nonce d.nonce d.storage d.vault ≡ ok tt = ground (arith, made) in
      let storage = storage_delta_back d.storage sv items in
      let vault = vault_delta_back d.vault vv valid_added valid_removed in
      let nonce = s.write_option d.nonce in
      record {
        bytes = storage.bytes ++ (vault.bytes ++ nonce);
        succeeds = rw (storage.succeeds, vault.succeeds) refl;
        back = λ rest.
            rw
              (
                back_first Deltas.read_storage_delta storage.bytes d.storage (vault.bytes ++ nonce)
                    rest storage.back,
                back_first Deltas.read_vault_delta vault.bytes d.vault nonce rest vault.back,
                option_back d.nonce felt rest,
                fits,
              )
              refl;
      }
