-- ===== src/Transactions/OutputNotes/Accepted.antt =====
-- Which output notes are accepted.
use restartx.Common.{◌≤◌, ◌≡◌, ◌↔◌, arith}
use restartx.Common.{List, length, map, Distinct, ok}
use restartx.Crypto.{Crypto, word_eq}
use restartx.Errors.{TransactionOutputError}
use restartx.Transactions.Unique.{check_unseen_iff}
use restartx.Transactions.OutputNotes
use restartx.Transactions.OutputNotes.{OutputNote}

module _ ⦃c : Crypto⦄ where
  -- The constructor accepts up to 4096 notes with distinct IDs, keeps them in order, with their
  -- commitment, and accepts nothing else.
  pub output_notes_iff :
      (notes : List OutputNote) (n : OutputNotes.OutputNotes)
      → (OutputNotes.new notes ≡ ok n) ↔ (
          (length notes ≤ 4096)
          × Distinct word_eq (map OutputNotes.id notes)
          × (n ≡ record {
            notes = notes;
            commitment = OutputNotes.build_output_notes_commitment notes;
          }))
  unfolding OutputNotes.new
  output_notes_iff notes n =
      let unseen =
        check_unseen_iff TransactionOutputError.duplicate_output_note (map OutputNotes.id notes) in
      (
        λ h. (ground (arith, h), unseen.0 (ground (arith, h)), ground (arith, h)),
        λ h. ground (arith, h.0, unseen.1 h.1, h.2),
      )
