-- ===== src/Transactions/InputNotes/Accepted.antt =====
-- Which input notes and which seeds are accepted.
use restartx.Common.{◌≤◌, ◌≡◌, ◌≢◌, ◌↔◌, ◌⊎◌, inl, inr, ap, refl, arith}
use restartx.Common.{List, [], ◌∷◌, ◌++◌, length, map, Distinct, Option, none, some, ok}
use restartx.Crypto.{Word, Digest, Crypto, elements, empty_word, word_eq}
use restartx.Merkle.{Smt, SimpleSmt}
use restartx.Errors.{TransactionInputError}
use restartx.Accounts.Id
use restartx.Accounts.Account
use restartx.Accounts.Account.{Account}
use restartx.Accounts.Storage
use restartx.Transactions.Unique.{check_unseen_iff}
use restartx.Transactions.InputNotes
use mathlib.Core.List.{map-id}
use restartx.Common.{length-map}

module _ ⦃c : Crypto⦄ where
  -- The constructor accepts up to 1023 notes with distinct nullifiers, keeps them in order, with
  -- their commitment, and accepts nothing else.
  pub input_notes_iff :
      {T : Type 0} (nullifier : T → Digest) (notes : List T) (n : InputNotes.InputNotes T)
      → (InputNotes.new nullifier notes ≡ ok n) ↔ (
          (length notes ≤ 1023)
          × Distinct word_eq (map nullifier notes)
          × (n ≡ record {
            notes = notes;
            commitment = InputNotes.build_input_notes_commitment nullifier notes;
          }))
  unfolding InputNotes.new
  input_notes_iff nullifier notes n =
      let unseen =
        check_unseen_iff TransactionInputError.duplicate_input_note (map nullifier notes) in
      (
        λ h. (ground (arith, h), unseen.0 (ground (arith, h)), ground (arith, h)),
        λ h. ground (arith, h.0, unseen.1 h.1, h.2),
      )

  note_elements-map :
      {T : Type 0} (nullifier : T → Digest) (notes : List T)
      → InputNotes.note_elements (λ x. x) (map nullifier notes)
        ≡ InputNotes.note_elements nullifier notes
  unfolding InputNotes.note_elements
  note_elements-map nullifier [] = refl
  note_elements-map nullifier (x ∷ xs) =
      ap (λ t. elements (nullifier x) ++ (elements empty_word ++ t))
        (note_elements-map nullifier xs)

  -- The nullifiers of accepted notes are accepted as input notes themselves, and the commitment
  -- is the same.
  pub new-nullifiers_of :
      {T : Type 0} (nullifier : T → Digest) (notes : List T) (n : InputNotes.InputNotes T)
      → InputNotes.new nullifier notes ≡ ok n
      → (InputNotes.new (λ x. x) (map nullifier notes) ≡ ok (InputNotes.nullifiers_of nullifier n))
        × ((InputNotes.nullifiers_of nullifier n).commitment ≡ n.commitment)
  unfolding InputNotes.nullifiers_of InputNotes.build_input_notes_commitment
  new-nullifiers_of nullifier notes n h =
      let (few, distinct, made) = (input_notes_iff nullifier notes n).0 h in
      let kept : n.notes ≡ notes = ap InputNotes.InputNotes.notes made in
      (
        (input_notes_iff (λ x. x) (map nullifier notes) (InputNotes.nullifiers_of nullifier n)).1 (
          rw (length-map nullifier notes) few,
          rw (map-id (map nullifier notes)) distinct,
          ground (arith, kept, note_elements-map nullifier notes, length-map nullifier notes),
        ),
        ground (arith, made),
      )

module _ ⦃c : Crypto⦄ ⦃m : Smt⦄ ⦃s : SimpleSmt⦄ where
  -- A seed is required of a new account and of no other, and it must give the ID of the account.
  pub validate_account_seed_iff :
      (a : Account) (seed : Option Word)
      → (InputNotes.validate_account_seed a seed ≡ ok tt) ↔ (
          ((a.nonce ≢ 0) × (seed ≡ none))
          ⊎ ((a.nonce ≡ 0)
              × ((w : Word) × (seed ≡ some w)
                  × (Id.new w a.code.code_root (Storage.root a.storage) ≡ ok a.id))))
  unfolding InputNotes.validate_account_seed Account.is_new
  validate_account_seed_iff a none = (
    λ h. inl (ground (arith, h), refl),
    λ h. elim h [ inl old ↦ ground (arith, old) | inr new ↦ ground (arith, new.1.1) ],
  )
  validate_account_seed_iff a (some w) = (
    λ h. inr (ground (arith, h), (w, refl, ground (arith, h))),
    λ h. elim h [
      | inl old ↦ ground (arith, old)
      | inr new ↦ ground (arith, new.0, new.1.1, new.1.2)
    ],
  )
