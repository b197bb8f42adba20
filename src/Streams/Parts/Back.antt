-- ===== src/Streams/Parts/Back.antt =====
-- What is written of the parts is read back.
use restartx.Common.{ℕ, ◌^◌, ◌<◌, ◌≡◌, refl, ap, sym, ◌∙◌, arith, List, ◌++◌, length, ok}
use restartx.Common.Bytes.{le_bytes}
use restartx.Crypto.{Felt, Word, Crypto, IsFelt, IsWord}
use restartx.Types.{AccountId, Asset, NoteType}
use restartx.Types.Asset.{fungible, non_fungible}
use restartx.Accounts.Id
use restartx.Accounts.Id.Valid
use restartx.Assets.Fungible
use restartx.Assets.NonFungible
use restartx.Assets.Value
use restartx.Assets.Value.Valid.{IsValid}
use restartx.Assets.Value.Bytes.{try_from_bytes-to_bytes}
use restartx.Blocks.Header.{BlockHeader}
use restartx.Notes.Tag
use restartx.Notes.Tag.{NoteTag}
use restartx.Notes.Metadata
use restartx.Notes.Metadata.{NoteMetadata}
use restartx.Streams.{Streams, ReadsBack, back_first}
use restartx.Streams.Parts

-- Metadata as the constructor makes it: a valid sender, a tag that fits the type, and elements of
-- the field.
pub record IsMetadata (m : NoteMetadata) : Type 0 where
  pub sender : Valid.IsValid m.sender
  pub fits : Tag.validate m.tag m.note_type ≡ ok m.tag
  pub small : m.tag.inner < 2 ^ 32
  pub aux : IsFelt m.aux

-- All fields have the range of their types.
pub record IsHeader (h : BlockHeader) : Type 0 where
  pub prev_hash : IsWord h.prev_hash
  pub block_num : h.block_num < 256 ^ 4
  pub chain_root : IsWord h.chain_root
  pub account_root : IsWord h.account_root
  pub nullifier_root : IsWord h.nullifier_root
  pub note_root : IsWord h.note_root
  pub batch_root : IsWord h.batch_root
  pub proof_hash : IsWord h.proof_hash
  pub version : IsFelt h.version
  pub timestamp : IsFelt h.timestamp
  pub sub_hash : IsWord h.sub_hash
  pub hash : IsWord h.hash

module _ ⦃s : Streams⦄ where
  pub id_back : (id : AccountId) → Valid.IsValid id → ReadsBack Parts.read_id (Parts.write_id id) id
  unfolding Parts.read_id Parts.write_id
  id_back id v rest = rw (s.felt_back id.felt v.is_felt rest, v.accepted) refl

  length-write_asset : (a : Asset) → length (Value.to_bytes a) ≡ 32
  unfolding Value.to_bytes Fungible.to_bytes NonFungible.to_bytes Id.id_to_bytes le_bytes
  length-write_asset (fungible a) = refl
  length-write_asset (non_fungible a) = refl

  pub asset_back :
      ⦃c : Crypto⦄ (a : Asset) → IsValid a → ReadsBack Parts.read_asset (Parts.write_asset a) a
  unfolding Parts.read_asset Parts.write_asset
  asset_back a v rest =
      let bytes = Value.to_bytes a in
      let back =
        ap (λ (n : ℕ). s.read_vec n (bytes ++ rest)) (sym (length-write_asset a))
        ∙ s.vec_back bytes rest in
      rw (back, try_from_bytes-to_bytes a v) refl

  pub note_type_back : (t : NoteType) → ReadsBack Parts.read_note_type (Parts.write_note_type t) t
  unfolding Parts.read_note_type Parts.write_note_type Tag.note_type_of_u8
  note_type_back NoteType.off_chain rest = rw (s.int_back 1 2 (omega arith) rest) refl
  note_type_back NoteType.encrypted rest = rw (s.int_back 1 3 (omega arith) rest) refl
  note_type_back NoteType.public rest = rw (s.int_back 1 1 (omega arith) rest) refl

  pub tag_back : (t : NoteTag) → t.inner < 2 ^ 32 → ReadsBack Parts.read_tag (Parts.write_tag t) t
  unfolding Parts.read_tag Parts.write_tag
  tag_back t h rest = rw (s.int_back 4 t.inner (omega (arith, h)) rest) refl

  pub metadata_back :
      (m : NoteMetadata) → IsMetadata m → ReadsBack Parts.read_metadata (Parts.write_metadata m) m
  unfolding Parts.read_metadata Parts.write_metadata Metadata.new
  metadata_back m v rest =
      let aux = s.write_felt m.aux in
      let tag = Parts.write_tag m.tag ++ aux in
      let note_type = Parts.write_note_type m.note_type ++ tag in
      rw
        (
          back_first Parts.read_id (Parts.write_id m.sender) m.sender note_type rest
              (id_back m.sender v.sender),
          back_first Parts.read_note_type (Parts.write_note_type m.note_type) m.note_type tag rest
              (note_type_back m.note_type),
          back_first Parts.read_tag (Parts.write_tag m.tag) m.tag aux rest (tag_back m.tag v.small),
          s.felt_back m.aux v.aux rest,
          v.fits,
        )
        refl

  word_first :
      (w : Word) (more rest : List ℕ)
      → IsWord w
      → s.read_word ((s.write_word w ++ more) ++ rest) ≡ ok (w, more ++ rest)
  word_first w more rest v = back_first s.read_word (s.write_word w) w more rest (s.word_back w v)

  felt_first :
      (w : Felt) (more rest : List ℕ)
      → IsFelt w
      → s.read_felt ((s.write_felt w ++ more) ++ rest) ≡ ok (w, more ++ rest)
  felt_first w more rest v = back_first s.read_felt (s.write_felt w) w more rest (s.felt_back w v)

  -- A header in whose fields the types' ranges are kept is read back from its stream.
  pub header_back :
      (h : BlockHeader) → IsHeader h → ReadsBack Parts.read_header (Parts.write_header h) h
  unfolding Parts.read_header Parts.write_header
  header_back h v rest =
      let t0 = s.write_word h.hash in
      let t1 = s.write_word h.sub_hash ++ t0 in
      let t2 = s.write_felt h.timestamp ++ t1 in
      let t3 = s.write_felt h.version ++ t2 in
      let t4 = s.write_word h.proof_hash ++ t3 in
      let t5 = s.write_word h.batch_root ++ t4 in
      let t6 = s.write_word h.note_root ++ t5 in
      let t7 = s.write_word h.nullifier_root ++ t6 in
      let t8 = s.write_word h.account_root ++ t7 in
      let t9 = s.write_word h.chain_root ++ t8 in
      let t10 = s.write_int 4 h.block_num ++ t9 in
      rw
        (
          word_first h.prev_hash t10 rest v.prev_hash,
          back_first (s.read_int 4) (s.write_int 4 h.block_num) h.block_num t9 rest
              (s.int_back 4 h.block_num v.block_num),
          word_first h.chain_root t8 rest v.chain_root,
          word_first h.account_root t7 rest v.account_root,
          word_first h.nullifier_root t6 rest v.nullifier_root,
          word_first h.note_root t5 rest v.note_root,
          word_first h.batch_root t4 rest v.batch_root,
          word_first h.proof_hash t3 rest v.proof_hash,
          felt_first h.version t2 rest v.version,
          felt_first h.timestamp t1 rest v.timestamp,
          word_first h.sub_hash t0 rest v.sub_hash,
          s.word_back h.hash v.hash rest,
        )
        refl
