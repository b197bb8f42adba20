-- ===== src/Blocks/Header.antt =====
-- Block headers (objects/src/block/header.rs). A block number is a `u32`.
use restartx.Common.{ℕ, zero, suc, ◌^◌, ◌<◌, ◌≡◌, ap, sym, ◌∙◌, arith, List, [], ◌∷◌, ◌++◌, resize}
use restartx.Crypto.{Felt, Word, Digest, Crypto, elements}

pub record BlockHeader : Type 0 where
  pub prev_hash : Digest
  pub block_num : ℕ
  pub chain_root : Digest
  pub account_root : Digest
  pub nullifier_root : Digest
  pub note_root : Digest
  pub batch_root : Digest
  pub proof_hash : Digest
  pub version : Felt
  pub timestamp : Felt
  pub sub_hash : Digest
  pub hash : Digest

-- The fields that a header is made from.
pub record HeaderFields : Type 0 where
  pub prev_hash : Digest
  pub block_num : ℕ
  pub chain_root : Digest
  pub account_root : Digest
  pub nullifier_root : Digest
  pub note_root : Digest
  pub batch_root : Digest
  pub proof_hash : Digest
  pub version : Felt
  pub timestamp : Felt

-- The element at a position, and the word from a position on.
abbrev felt_at : ℕ → List Felt → Felt
felt_at i [] = 0
felt_at zero (e ∷ es) = e
felt_at (suc i) (e ∷ es) = felt_at i es

abbrev word_at : ℕ → List Felt → Word
word_at i es = record {
  e0 = felt_at i es;
  e1 = felt_at (suc i) es;
  e2 = felt_at (suc (suc i)) es;
  e3 = felt_at (suc (suc (suc i))) es;
}

-- The fields, read off the elements under the sub hash and the note root.
abbrev fields_of : List Felt → Digest → HeaderFields
fields_of es note_root = record {
  prev_hash = word_at 0 es;
  block_num = felt_at 24 es;
  chain_root = word_at 4 es;
  account_root = word_at 8 es;
  nullifier_root = word_at 12 es;
  note_root = note_root;
  batch_root = word_at 16 es;
  proof_hash = word_at 20 es;
  version = felt_at 25 es;
  timestamp = felt_at 26 es;
}

module _ ⦃c : Crypto⦄ where
  -- The elements under the sub hash: all fields but the note root, up to 32 elements.
  unfoldable pub sub_hash_elements : HeaderFields → List Felt
  sub_hash_elements f = resize 32 0 (
      elements f.prev_hash
      ++ (elements f.chain_root
          ++ (elements f.account_root
              ++ (elements f.nullifier_root
                  ++ (elements f.batch_root
                      ++ (elements f.proof_hash
                          ++ (c.felt_new f.block_num ∷ f.version ∷ f.timestamp ∷ 0 ∷ [])))))))

  unfoldable pub compute_sub_hash : HeaderFields → Digest
  compute_sub_hash f = c.hash_elements (sub_hash_elements f)

  -- `BlockHeader::new`
  unfoldable pub new : HeaderFields → BlockHeader
  new f =
      let sub_hash = compute_sub_hash f in
      record {
        prev_hash = f.prev_hash;
        block_num = f.block_num;
        chain_root = f.chain_root;
        account_root = f.account_root;
        nullifier_root = f.nullifier_root;
        note_root = f.note_root;
        batch_root = f.batch_root;
        proof_hash = f.proof_hash;
        version = f.version;
        timestamp = f.timestamp;
        sub_hash = sub_hash;
        hash = c.merge sub_hash f.note_root;
      }

  -- The sub hash and the merge do not collide at the two headers.
  pub record NoCollision (f g : HeaderFields) : Type 0 where
    pub merges :
        c.merge (compute_sub_hash f) f.note_root ≡ c.merge (compute_sub_hash g) g.note_root
        → (compute_sub_hash f ≡ compute_sub_hash g) × (f.note_root ≡ g.note_root)
    pub sub_hashes :
        compute_sub_hash f ≡ compute_sub_hash g → sub_hash_elements f ≡ sub_hash_elements g

  fields_of-sub_hash_elements :
      (f : HeaderFields) → f.block_num < 2 ^ 32 → fields_of (sub_hash_elements f) f.note_root ≡ f
  unfolding sub_hash_elements
  fields_of-sub_hash_elements f small =
      let same : c.felt_new f.block_num ≡ f.block_num =
        c.felt_new_of_lt f.block_num (omega (arith, small)) in
      ap
        (λ (n : ℕ). record {
          prev_hash = f.prev_hash;
          block_num = n;
          chain_root = f.chain_root;
          account_root = f.account_root;
          nullifier_root = f.nullifier_root;
          note_root = f.note_root;
          batch_root = f.batch_root;
          proof_hash = f.proof_hash;
          version = f.version;
          timestamp = f.timestamp;
        })
        same

  -- Two headers with one hash are made from the same fields, if the hashes behind the two do not
  -- collide and the block numbers have 32 bits.
  pub new-hash :
      (f g : HeaderFields)
      → NoCollision f g
      → f.block_num < 2 ^ 32
      → g.block_num < 2 ^ 32
      → (new f).hash ≡ (new g).hash
      → f ≡ g
  unfolding new
  new-hash f g apart small_f small_g h =
      let (subs, roots) = apart.merges h in
      sym (fields_of-sub_hash_elements f small_f)
      ∙ ap (λ (es : List Felt). fields_of es f.note_root) (apart.sub_hashes subs)
      ∙ ap (fields_of (sub_hash_elements g)) roots
      ∙ fields_of-sub_hash_elements g small_g
