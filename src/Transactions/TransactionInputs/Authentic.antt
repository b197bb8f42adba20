-- ===== src/Transactions/TransactionInputs/Authentic.antt =====
-- Which transaction inputs are accepted.
use restartx.Common.{◌≡◌, ◌↔◌, refl, arith, ◌==◌, true}
use restartx.Common.{if◌then◌else◌, List, [], ◌∷◌, All, Option, some}
use restartx.Common.{ok, >>=-eq-ok}
use restartx.Crypto.{Word, Crypto, word_eq_iff}
use restartx.Merkle.{Smt, SimpleSmt, Mmr, MerklePaths}
use restartx.Accounts.Account.{Account}
use restartx.Blocks.Header.{BlockHeader}
use restartx.Transactions.Chain
use restartx.Transactions.Chain.{ChainMmr}
use restartx.Transactions.InputNotes
use restartx.Transactions.InputNotes.{validate_account_seed}
use restartx.Transactions.TransactionInputs
use restartx.Transactions.TransactionInputs.{InputNote}

module _ ⦃c : Crypto⦄ ⦃p : MerklePaths⦄ ⦃m : Mmr⦄ where
  -- A note is in its block: the current one, or one that the chain has.
  pub record IsAuthentic (block_header : BlockHeader) (block_chain : ChainMmr) (n : InputNote)
      : Type 0 where
    pub block : BlockHeader
    pub known :
        (if n.proof.origin.block_num == block_header.block_num
          then some block_header
          else Chain.get_block block_chain n.proof.origin.block_num)
        ≡ some block
    pub included : TransactionInputs.is_in_block n block ≡ true

  block_of_iff :
      (block_header : BlockHeader) (block_chain : ChainMmr) (n : InputNote) (block : BlockHeader)
      → (TransactionInputs.block_of block_header block_chain n ≡ ok block) ↔ (
          (if n.proof.origin.block_num == block_header.block_num
            then some block_header
            else Chain.get_block block_chain n.proof.origin.block_num)
          ≡ some block)
  unfolding TransactionInputs.block_of
  block_of_iff block_header block_chain n block = (λ h. ground (arith, h), λ h. ground (arith, h))

  check_notes_iff :
      (block_header : BlockHeader) (block_chain : ChainMmr) (notes : List InputNote)
      → (TransactionInputs.check_notes block_header block_chain notes ≡ ok tt)
        ↔ All (IsAuthentic block_header block_chain) notes
  unfolding TransactionInputs.check_notes
  check_notes_iff block_header block_chain [] = (λ h. tt, λ h. refl)
  check_notes_iff block_header block_chain (n ∷ notes) =
      let later = check_notes_iff block_header block_chain notes in
      (
        λ h.
            let (block, found, rest) =
              >>=-eq-ok (TransactionInputs.block_of block_header block_chain n) _ h in
            let inside : TransactionInputs.is_in_block n block ≡ true = ground (arith, rest) in
            let others : TransactionInputs.check_notes block_header block_chain notes ≡ ok tt =
              ground (arith, rest) in
            (
              record {
                block = block;
                known = (block_of_iff block_header block_chain n block).0 found;
                included = inside;
              },
              later.0 others,
            ),
        λ (one, others).
            rw ((block_of_iff block_header block_chain n one.block).1 one.known, one.included)
              (later.1 others),
      )

module _ ⦃c : Crypto⦄ ⦃p : MerklePaths⦄ ⦃m : Mmr⦄ ⦃t : Smt⦄ ⦃s : SimpleSmt⦄ where
  -- Transaction inputs are accepted exactly if the account's seed is right, the chain has as many
  -- blocks as the header's number and the header's chain root, and every input note is proved to
  -- be in its block, the header's or one that the chain has; they are then kept as they are.
  pub transaction_inputs_iff :
      (account : Account) (seed : Option Word) (header : BlockHeader) (chain : ChainMmr)
      (notes : InputNotes.InputNotes InputNote) (inputs : TransactionInputs.TransactionInputs)
      → (TransactionInputs.new account seed header chain notes ≡ ok inputs) ↔ (
          (validate_account_seed account seed ≡ ok tt)
          × (Chain.chain_length chain ≡ header.block_num)
          × (m.hash_peaks chain.mmr ≡ header.chain_root)
          × All (IsAuthentic header chain) notes.notes
          × (inputs ≡ record {
            account = account;
            account_seed = seed;
            block_header = header;
            block_chain = chain;
            input_notes = notes;
          }))
  unfolding TransactionInputs.new
  transaction_inputs_iff account seed header chain notes inputs =
      let checked = check_notes_iff header chain notes.notes in
      let root = word_eq_iff (m.hash_peaks chain.mmr) header.chain_root in
      (
        λ h. (
          ground (arith, h),
          ground (arith, h),
          root.0 (ground (arith, h)),
          checked.0 (ground (arith, h)),
          ground (arith, h),
        ),
        λ (a, b, d, e, f). ground (arith, a, b, root.1 d, checked.1 e, f),
      )
