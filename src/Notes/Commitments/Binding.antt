-- ===== src/Notes/Commitments/Binding.antt =====
-- What the ID and the nullifier of a note commit to.
use restartx.Common.{◌≡◌, arith, List, ◌++◌}
use restartx.Crypto.{Felt, Word, Digest, Crypto, elements, empty_word}
use restartx.Notes.Metadata.{NoteMetadata}
use restartx.Notes.NoteAssets.{NoteAssets}
use restartx.Notes.NoteInputs.{NoteInputs}
use restartx.Notes.Commitments
use restartx.Notes.Commitments.{Note, NoteScript, NoteRecipient}

module _ ⦃c : Crypto⦄ where
  -- The two calls of `merge` are no collision.
  abbrev pub MergeBinds : Digest → Digest → Digest → Digest → Type 0
  MergeBinds a b a' b' = c.merge a b ≡ c.merge a' b' → (a ≡ a') × (b ≡ b')

  abbrev serial_digest : Word → Digest
  serial_digest serial_num = c.merge serial_num empty_word

  abbrev script_digest : Word → NoteScript → Digest
  script_digest serial_num script = c.merge (serial_digest serial_num) script.hash

  -- Two notes that `Note::new` makes with recipients of `NoteRecipient::new`, and that have one ID,
  -- have the same commitments to assets and inputs, the same script hash and serial number,
  -- unless `merge` collides on the digests of these two notes.
  pub note_id-binds :
      (as1 as2 : NoteAssets) (m1 m2 : NoteMetadata) (w1 w2 : Word) (s1 s2 : NoteScript)
      (i1 i2 : NoteInputs)
      → let r1 = Commitments.new_recipient w1 s1 i1 in
        let r2 = Commitments.new_recipient w2 s2 i2 in
        MergeBinds r1.digest as1.hash r2.digest as2.hash
        → MergeBinds (script_digest w1 s1) i1.hash (script_digest w2 s2) i2.hash
        → MergeBinds (serial_digest w1) s1.hash (serial_digest w2) s2.hash
        → MergeBinds w1 empty_word w2 empty_word
        → (Commitments.new as1 m1 r1).id ≡ (Commitments.new as2 m2 r2).id
        → (as1.hash ≡ as2.hash) × (i1.hash ≡ i2.hash) × (s1.hash ≡ s2.hash) × (w1 ≡ w2)
  unfolding Commitments.new Commitments.new_recipient Commitments.note_id
      Commitments.compute_recipient_digest
  note_id-binds as1 as2 m1 m2 w1 w2 s1 s2 i1 i2 b1 b2 b3 b4 h =
      let (r, a) = b1 h in let (m, i) = b2 r in let (n, s) = b3 m in (a, i, s, (b4 n).0)

  abbrev nullifier_elements : Note → List Felt
  nullifier_elements n =
      elements n.recipient.serial_num
      ++ (elements n.recipient.script.hash
          ++ (elements n.recipient.inputs.hash ++ elements n.assets.hash))

  -- Two notes that `Note::new` makes and that have one nullifier have the same serial number,
  -- script hash and commitments to inputs and assets, unless the hash collides on their elements.
  pub nullifier-binds :
      (as1 as2 : NoteAssets) (m1 m2 : NoteMetadata) (r1 r2 : NoteRecipient)
      → let n1 = Commitments.new as1 m1 r1 in
        let n2 = Commitments.new as2 m2 r2 in
        (c.hash_elements (nullifier_elements n1) ≡ c.hash_elements (nullifier_elements n2)
          → nullifier_elements n1 ≡ nullifier_elements n2)
        → n1.nullifier ≡ n2.nullifier
        → (r1.serial_num ≡ r2.serial_num)
          × (r1.script.hash ≡ r2.script.hash)
          × (r1.inputs.hash ≡ r2.inputs.hash)
          × (as1.hash ≡ as2.hash)
  unfolding Commitments.new Commitments.nullifier_of
  nullifier-binds as1 as2 m1 m2 r1 r2 b h =
      let same = b h in
      (ground (arith, same), ground (arith, same), ground (arith, same), ground (arith, same))
