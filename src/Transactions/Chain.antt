-- ===== src/Transactions/Chain.antt =====
-- The part of the chain that a transaction knows (objects/src/transaction/chain_mmr.rs). The
-- Merkle mountain range is the interface `Mmr`; a block number is a `u32`.
pub mod Blocks
use restartx.Common.{ℕ, ◌%◌, ◌^◌, ltb, not, ◌==◌, Bool, true, false, if◌then◌else◌}
use restartx.Common.{List, [], ◌∷◌, Option, none, some, Result, ok, err, panic, ◌>>=◌, ◌>>◌, guard}
use restartx.Common.Maps.{BTreeMap, nat_key, find, insert}
use restartx.Crypto.{Digest}
use restartx.Merkle.{Mmr}
use restartx.Errors.{ChainMmrError}
use restartx.Blocks.Header.{BlockHeader}

abbrev pub is_some {ℓ} : {A : Type ℓ} → Option A → Bool
is_some none = false
is_some (some a) = true

module _ ⦃m : Mmr⦄ where
  pub record ChainMmr : Type 0 where
    pub mmr : m.PartialMmr
    pub blocks : BTreeMap ℕ BlockHeader

  -- The loop over the headers, with the map so far.
  unfoldable pub collect :
      m.PartialMmr
      → BTreeMap ℕ BlockHeader
      → List BlockHeader
      → Result ChainMmrError (BTreeMap ℕ BlockHeader)
  collect mmr block_map [] = ok block_map
  collect mmr block_map (block ∷ blocks) = do
    let num = block.block_num
    guard (ltb num (m.forest mmr)) (ChainMmrError.block_num_too_big (m.forest mmr) num)
    guard (not (is_some (find num block_map))) (ChainMmrError.duplicate_block num)
    guard (m.is_tracked mmr num) (ChainMmrError.untracked_block num)
    collect mmr (insert num block block_map) blocks

  unfoldable pub new : m.PartialMmr → List BlockHeader → Result ChainMmrError ChainMmr
  new mmr blocks = do
    block_map ← collect mmr [] blocks
    ok (record { mmr = mmr; blocks = block_map })

  unfoldable pub chain_length : ChainMmr → ℕ
  chain_length chain = m.forest chain.mmr

  unfoldable pub contains_block : ChainMmr → ℕ → Bool
  contains_block chain block_num = is_some (find block_num chain.blocks)

  unfoldable pub get_block : ChainMmr → ℕ → Option BlockHeader
  get_block chain block_num = find block_num chain.blocks

  -- The chain with the next block, or a panic (`assert_eq!`).
  unfoldable pub add_block : ChainMmr → BlockHeader → Bool → Result ⊥ ChainMmr
  add_block chain block_header track =
      if block_header.block_num == chain_length chain % 2 ^ 32
      then ok (record { mmr = m.add chain.mmr block_header.hash track; blocks = chain.blocks })
      else panic
