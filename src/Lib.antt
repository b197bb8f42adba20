-- ===== src/Lib.antt =====
-- The protocol objects of a zero-knowledge rollup: accounts that hold assets and storage, notes
-- that carry assets between accounts, and transactions that consume and create notes. The library
-- models the crate `objects`, the transaction host of `miden-tx`, and the inputs, outputs and notes of
-- `miden-lib` in its own terms and proves what their types promise.
--
-- Parts, and the files of the repository that they model:
-- - Common: lists, results with errors and panics, machine words, bytes and binary digits, as the
--   code uses them from Rust and its standard library. Numbers are native naturals; a `u64` is one
--   below 2^64, and what leaves that range is cut off or refused as the code does it. Ints are the
--   signed integers, and Maps is `BTreeMap` as a sorted list of entries.
-- - Crypto, Merkle: the parts of miden-crypto that the code calls, as records of operations with the
--   laws that their documentation states: field elements, the hash, the sparse Merkle trees, Merkle
--   paths and Merkle mountain ranges. A field element is written as its canonical integer.
--   Everything else takes these records as instance arguments.
-- - Types, Errors: the shared data types, and objects/src/errors.rs.
-- - Accounts: Id (objects/src/accounts/account_id.rs), Seed (accounts/seed.rs), Slot
--   (accounts/storage/slot.rs), Delta (accounts/delta), Storage (accounts/storage/mod.rs), and
--   Account (accounts/mod.rs, stub.rs), which applies a delta to a vault, to storage and to the nonce.
-- - Assets: Fungible, NonFungible, Value (objects/src/assets/fungible.rs, nonfungible.rs, mod.rs),
--   Vault (assets/vault.rs) and Symbol (assets/token_symbol.rs).
-- - Notes: Tag (objects/src/notes/note_type.rs, note_tag.rs), Metadata (metadata.rs), NoteAssets
--   (assets.rs), NoteInputs (inputs.rs), Commitments (recipient.rs, note_id.rs, nullifier.rs,
--   envelope.rs, mod.rs), Script (script.rs) and Origin (origin.rs).
-- - Blocks: Header (objects/src/block/header.rs) and NoteTree (block/note_tree.rs,
--   batches/note_tree.rs).
-- - Transactions: InputNotes and TransactionInputs (objects/src/transaction/inputs.rs), Chain
--   (chain_mmr.rs), OutputNotes (outputs.rs) and Proven (proven_tx.rs, transaction_id.rs); Unique is
--   the loop over a set that InputNotes and OutputNotes share.
-- - Streams: the byte streams of the objects, `write_x` and `read_x` for `Serializable` and
--   `Deserializable` of x, over writers and readers of numbers, field elements and words.
-- - Host: Events (miden-lib/src/transaction/events.rs, errors.rs), Procedures
--   (miden-tx/src/host/account_procs.rs), Tracker (account_delta_tracker.rs), Created and Handlers
--   (mod.rs). The VM's process and the advice provider are interfaces. A run of a transaction is any
--   sequence of events; the tracker collects what the account's delta is made from in the end. What
--   an event means for the account is described apart from the handlers, in Handlers/Effects.
-- - Kernel: Inputs (miden-lib/src/transaction/inputs.rs), the stacks and the note data that the kernel
--   gets, Outputs (mod.rs, outputs.rs, memory.rs), the stack and the final account that it leaves, and
--   Standard (miden-lib/src/notes), the standard notes. Stacks,
--   advice maps, compiled programs and random numbers are interfaces.
-- - Tests: concrete instances of the interfaces, and the theorems at concrete inputs.
--
-- Functions keep the names of the code; a conversion `X::try_from(Y)` is `try_from_y`. A method on
-- `&mut self` takes the state and returns its result with the state that it leaves, also where it
-- fails. Loops are structural recursions over lists. The search for an account seed, which the code
-- runs without a bound, runs on fuel: one unit for each candidate, any number of which can be given,
-- and an error of the model's own when they are used up.
--
-- Not modelled: the byte streams of accounts, vaults and storage, which list the leaves of a tree
-- of miden-crypto, and of proven transactions; serde, hex text and display, the threads of the
-- seed search, programs and their compilation, the executor, prover and verifier, the chain's and
-- the account's part of the advice inputs, the assembly code of the kernel, and mock data. They
-- are input and output, text, or code around the virtual machine and other crates. Scripts and
-- account code stand as their hashes, STARK proofs as a type parameter.
pub mod Common
pub mod Crypto
pub mod Merkle
pub mod Types
pub mod Errors
pub mod Accounts
pub mod Assets
pub mod Notes
pub mod Blocks
pub mod Transactions
pub mod Streams
pub mod Host
pub mod Kernel
pub mod Tests
