-- ===== src/Transactions/Chain/Blocks.antt =====
-- Which blocks a chain has.
use restartx.Common.{
  ℕ, ◌+◌, Bool, ◌<◌, ◌≡◌, refl, sym, ap, ◌∙◌, arith, true, false, ◌==◌, ==_iff, Bool-cases, inl,
  inr,
}
use restartx.Common.{List, [], ◌∷◌, All, some, ok, >>=-eq-ok}
use restartx.Common.Maps.{BTreeMap, nat_key, find, insert, find-insert, find-insert_same}
use mathlib.Core.Option.{some-injective}
use restartx.Merkle.{Mmr}
use restartx.Blocks.Header.{BlockHeader}
use restartx.Transactions.Chain
use restartx.Transactions.Chain.{ChainMmr}

module _ ⦃m : Mmr⦄ where
  -- A block that is found has the number that was asked for, is one of the chain, and has an
  -- authentication path.
  pub record IsBlock (mmr : m.PartialMmr) (num : ℕ) (block : BlockHeader) : Type 0 where
    pub same_num : block.block_num ≡ num
    pub in_chain : num < m.forest mmr
    pub tracked : m.is_tracked mmr num ≡ true

  abbrev pub IsChain : ChainMmr → Type 0
  IsChain chain =
      (num : ℕ) (block : BlockHeader)
      → Chain.get_block chain num ≡ some block
      → IsBlock chain.mmr num block

  abbrev chain_of : m.PartialMmr → BTreeMap ℕ BlockHeader → ChainMmr
  chain_of mmr blocks = record { mmr = mmr; blocks = blocks }

  -- An insertion under a new number keeps the other entries.
  insert_fresh :
      (num n : ℕ) (block b : BlockHeader) (block_map : BTreeMap ℕ BlockHeader)
      → Chain.is_some (find num block_map) ≡ false
      → find n block_map ≡ some b
      → find n (insert num block block_map) ≡ some b
  insert_fresh num n block b block_map fresh g =
      let read = find-insert num n block block_map in
      elim (Bool-cases (num == n)) [
        | inl here ↦
            let e : num ≡ n = (==_iff num n).0 here in
            absurd
              (cc (ap (λ (k : ℕ). Chain.is_some (find k block_map)) e, fresh, ap Chain.is_some g))
        | inr other ↦ ground (arith, read, other, g)
      ]

  insert-IsChain :
      (mmr : m.PartialMmr) (block_map : BTreeMap ℕ BlockHeader) (block : BlockHeader)
      → block.block_num < m.forest mmr
      → m.is_tracked mmr block.block_num ≡ true
      → IsChain (chain_of mmr block_map)
      → IsChain (chain_of mmr (insert block.block_num block block_map))
  unfolding Chain.get_block Chain.chain_length
  insert-IsChain mmr block_map block below tracked w num found h =
      let read = find-insert block.block_num num block block_map in
      elim (Bool-cases (block.block_num == num)) [
        | inl here ↦
            let stored : find num (insert block.block_num block block_map) ≡ some block =
              ground (arith, read, here) in
            let same : block ≡ found = some-injective block found (sym stored ∙ h) in
            let number : block.block_num ≡ num = (==_iff block.block_num num).0 here in
            record {
              same_num = ap BlockHeader.block_num (sym same) ∙ number;
              in_chain = rw (sym number) below;
              tracked = ap (m.is_tracked mmr) (sym number) ∙ tracked;
            }
        | inr other ↦ w num found (ground (arith, read, other, h))
      ]

  collect-IsChain :
      (mmr : m.PartialMmr) (block_map : BTreeMap ℕ BlockHeader) (blocks : List BlockHeader)
      (result : BTreeMap ℕ BlockHeader)
      → IsChain (chain_of mmr block_map)
      → Chain.collect mmr block_map blocks ≡ ok result
      → IsChain (chain_of mmr result)
        × ((num : ℕ) (b : BlockHeader) → find num block_map ≡ some b → find num result ≡ some b)
        × All (λ b. find b.block_num result ≡ some b) blocks
  unfolding Chain.collect
  collect-IsChain mmr block_map [] result w h =
      let e : result ≡ block_map = cc h in (rw e w, λ n b g. rw e g, tt)
  collect-IsChain mmr block_map (block ∷ blocks) result w h =
      let num = block.block_num in
      let below : num < m.forest mmr = ground (arith, h) in
      let fresh : Chain.is_some (find num block_map) ≡ false = ground (arith, h) in
      let tracked : m.is_tracked mmr num ≡ true = ground (arith, h) in
      let rest : Chain.collect mmr (insert num block block_map) blocks ≡ ok result =
        ground (arith, h) in
      let (v, kept, found) =
        collect-IsChain mmr (insert num block block_map) blocks result
          (insert-IsChain mmr block_map block below tracked w) rest in
      (
        v,
        λ n b g. kept n b (insert_fresh num n block b block_map fresh g),
        (kept num block (find-insert_same num block block_map), found),
      )

  -- Each of the headers that a chain was made from is found by its number, and whatever is found
  -- has the number that was asked for, which is below the chain length, and an authentication path.
  pub new-IsChain :
      (mmr : m.PartialMmr) (blocks : List BlockHeader) (chain : ChainMmr)
      → Chain.new mmr blocks ≡ ok chain
      → IsChain chain × All (λ b. Chain.get_block chain b.block_num ≡ some b) blocks
  unfolding Chain.new Chain.get_block
  new-IsChain mmr blocks chain h =
      let (map_of, made, built) = >>=-eq-ok (Chain.collect mmr [] blocks) _ h in
      let e : chain ≡ chain_of mmr map_of = cc built in
      let (w, kept, found) = collect-IsChain mmr [] blocks map_of (λ n b g. cc) made in
      (rw e w, rw e found)

  -- A new block leaves the found ones as they are, with their authentication paths.
  pub add_block-IsChain :
      (chain : ChainMmr) (block : BlockHeader) (track : Bool) (after : ChainMmr)
      → Chain.add_block chain block track ≡ ok after
      → IsChain chain
      → IsChain after
        × (Chain.chain_length after ≡ Chain.chain_length chain + 1)
        × ((num : ℕ) → Chain.get_block after num ≡ Chain.get_block chain num)
  unfolding Chain.add_block Chain.get_block Chain.chain_length
  add_block-IsChain chain block track after h w =
      let e : after ≡ chain_of (m.add chain.mmr block.hash track) chain.blocks =
        ground (arith, h) in
      (
        rw e (λ num b g.
            let v = w num b g in
            record {
              same_num = v.same_num;
              in_chain = omega (arith, v.in_chain, m.forest-add chain.mmr block.hash track);
              tracked = m.is_tracked-add chain.mmr block.hash track num v.tracked;
            }),
        rw e (m.forest-add chain.mmr block.hash track),
        λ num. rw e refl,
      )
