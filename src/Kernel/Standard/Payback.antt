-- ===== src/Kernel/Standard/Payback.antt =====
-- The recipient to which a swap pays back.
use restartx.Common.{
  ◌≡◌, ◌↔◌, refl, ap, sym, ◌∙◌, arith, List, [], ◌∷◌, take, ok, >>=-eq-ok, >>=-after_ok,
}
use restartx.Crypto.{Felt, Word, Digest, Crypto, elements, empty_word}
use restartx.Types.{AccountId, Asset, NoteType}
use restartx.Notes.Tag
use restartx.Notes.Tag.{NoteExecutionMode}
use restartx.Notes.Metadata
use restartx.Notes.NoteAssets
use restartx.Notes.NoteInputs
use restartx.Notes.Commitments
use restartx.Notes.Commitments.{NoteScript, Note}
use restartx.Kernel.Standard
use restartx.Kernel.Standard.{Programs, FeltRng}

elements_same : (a b : Word) → elements a ≡ elements b → a ≡ b
elements_same a b h = ground (arith, h)

module _ ⦃c : Crypto⦄ ⦃p : Programs⦄ where
  -- What a recipient commits to besides its inputs.
  abbrev pub script_digest : Word → NoteScript → Digest
  script_digest serial_num script = c.merge (c.merge serial_num empty_word) script.hash

  single_input :
      (v : Felt) (i : NoteInputs.NoteInputs)
      → NoteInputs.new (v ∷ []) ≡ ok i
      → i.hash ≡ c.hash_elements (v ∷ 0 ∷ 0 ∷ 0 ∷ 0 ∷ 0 ∷ 0 ∷ 0 ∷ [])
  unfolding NoteInputs.new NoteInputs.pad_inputs
  single_input v i h = ground (arith, h)

  inputs_kept :
      (values : List Felt) (i : NoteInputs.NoteInputs)
      → NoteInputs.new values ≡ ok i
      → i.values ≡ values
  unfolding NoteInputs.new
  inputs_kept values i h = ground (arith, h)

  -- The recipient of a P2ID note, and the one that is built without a note.
  abbrev pub note_recipient : NoteScript → AccountId → Word → Digest
  note_recipient script target serial_num =
      c.merge (script_digest serial_num script)
        (c.hash_elements (target.felt ∷ 0 ∷ 0 ∷ 0 ∷ 0 ∷ 0 ∷ 0 ∷ 0 ∷ []))

  abbrev pub built_recipient : NoteScript → AccountId → Word → Digest
  built_recipient script target serial_num =
      c.merge (script_digest serial_num script) (c.hash_elements (target.felt ∷ 0 ∷ 0 ∷ 0 ∷ []))

  recipient_built :
      (script : NoteScript) (target : AccountId) (serial_num : Word) (d : Digest)
      → Standard.build_note_script p.p2id_bytes ≡ ok script
      → Standard.build_p2id_recipient target serial_num ≡ ok d
      → d ≡ built_recipient script target serial_num
  unfolding Standard.build_p2id_recipient
  recipient_built script target serial_num d built h =
      let rest = >>=-after_ok (Standard.build_note_script p.p2id_bytes) _ built h in
      ground (arith, rest)

  module _ ⦃r : FeltRng⦄ (script : NoteScript) where
    p2id_recipient :
        (sender target : AccountId) (assets : List Asset) (note_type : NoteType) (rng : r.State)
        (note : Note)
        → Standard.build_note_script p.p2id_bytes ≡ ok script
        → Standard.create_p2id_note sender target assets note_type rng ≡ ok note
        → note.recipient.digest ≡ note_recipient script target (r.draw_word rng).0
    unfolding Standard.create_p2id_note Commitments.new Commitments.new_recipient
        Commitments.compute_recipient_digest
    p2id_recipient sender target assets note_type rng note built h =
        let h1 = >>=-after_ok (Standard.build_note_script p.p2id_bytes) _ built h in
        let (inputs, made, h2) = >>=-eq-ok (NoteInputs.new (target.felt ∷ [])) _ h1 in
        let (tag, tagged, h3) =
          >>=-eq-ok (Tag.from_account_id target NoteExecutionMode.local) _ h2 in
        let (metadata, fits, h4) = >>=-eq-ok (Metadata.new sender note_type tag 0) _ h3 in
        let (vault, kept, h5) = >>=-eq-ok (NoteAssets.new assets) _ h4 in
        let padded = single_input target.felt inputs made in
        ground (arith, h5, ap (c.merge (script_digest (r.draw_word rng).0 script)) padded)

    swap_inputs :
        (sender : AccountId) (offered requested : Asset) (note_type : NoteType) (rng : r.State)
        (swap : Note) (serial_num : Word)
        → Standard.build_note_script p.p2id_bytes ≡ ok script
        → Standard.create_swap_note sender offered requested note_type rng ≡ ok (swap, serial_num)
        → (take 4 swap.recipient.inputs.values
            ≡ elements (built_recipient script sender serial_num))
          × (serial_num ≡ (r.draw_word rng).0)
    unfolding Standard.create_swap_note Standard.build_p2id_recipient Commitments.new
        Commitments.new_recipient
    swap_inputs sender offered requested note_type rng swap serial_num built h =
        let (code, swap_built, h1) = >>=-eq-ok (Standard.build_note_script p.swap_bytes) _ h in
        let (back, back_built, h2) =
          >>=-eq-ok (Standard.build_p2id_recipient sender (r.draw_word rng).0) _ h1 in
        let (tag, tagged, h3) =
          >>=-eq-ok (Tag.from_account_id sender NoteExecutionMode.local) _ h2 in
        let (inputs, made, h4) = >>=-eq-ok (NoteInputs.new _) _ h3 in
        let (metadata, fits, h5) = >>=-eq-ok (Metadata.new sender note_type _ 0) _ h4 in
        let (vault, kept, h6) = >>=-eq-ok (NoteAssets.new (offered ∷ [])) _ h5 in
        let drawn : serial_num ≡ (r.draw_word rng).0 = ground (arith, h6) in
        let same : swap.recipient.inputs ≡ inputs = ground (arith, h6) in
        let is_back = recipient_built script sender (r.draw_word rng).0 back built back_built in
        (rw (same, inputs_kept _ inputs made, is_back, drawn) refl, drawn)

    -- A swap, and a P2ID note that pays the sender of the swap with the serial number that the
    -- swap returns. The recipient in the inputs of the swap is that of the note exactly if the
    -- script and serial number give one digest with the hash of the sender's ID and three zeros
    -- as with the hash of the ID and seven zeros.
    pub create_swap_note_payback :
        (sender payer : AccountId) (offered requested : Asset) (assets : List Asset)
        (swap_type note_type : NoteType) (rng payer_rng : r.State) (swap note : Note)
        (serial_num : Word)
        → Standard.build_note_script p.p2id_bytes ≡ ok script
        → Standard.create_swap_note sender offered requested swap_type rng ≡ ok (swap, serial_num)
        → Standard.create_p2id_note payer sender assets note_type payer_rng ≡ ok note
        → (r.draw_word payer_rng).0 ≡ serial_num
        → (take 4 swap.recipient.inputs.values ≡ elements note.recipient.digest)
          ↔ (built_recipient script sender serial_num ≡ note_recipient script sender serial_num)
    create_swap_note_payback sender payer offered requested assets swap_type note_type rng payer_rng
          swap note serial_num built swapped paid drawn =
        let (inside, first) =
          swap_inputs sender offered requested swap_type rng swap serial_num built swapped in
        let digest : note.recipient.digest ≡ note_recipient script sender serial_num =
          rw (sym drawn) (p2id_recipient payer sender assets note_type payer_rng note built paid) in
        (
          λ h. elements_same _ _ (sym inside ∙ h ∙ ap elements digest),
          λ h. inside ∙ ap elements (h ∙ sym digest),
        )
