-- ===== src/Streams/Parts.antt =====
-- Streams of account IDs, assets, note types, tags and metadata, and block headers
-- (objects/src/accounts/account_id.rs, assets/mod.rs, notes/note_type.rs, notes/note_tag.rs,
-- notes/metadata.rs, block/header.rs).
pub mod Back
use restartx.Common.{ℕ, List, [], ◌∷◌, ◌++◌, Result, ok, err, panic, ◌>>=◌}
use restartx.Crypto.{Felt, Word, Digest, Crypto}
use restartx.Types.{AccountId, Asset, NoteType}
use restartx.Accounts.Id
use restartx.Assets.Value
use restartx.Blocks.Header.{BlockHeader}
use restartx.Notes.Tag
use restartx.Notes.Tag.{NoteTag}
use restartx.Notes.Metadata
use restartx.Notes.Metadata.{NoteMetadata}
use restartx.Notes.Script.{DeserializationError}
use restartx.Streams.{Streams, Reader, or_invalid}

module _ ⦃s : Streams⦄ where
  unfoldable pub write_id : AccountId → List ℕ
  write_id id = s.write_felt id.felt

  unfoldable pub read_id : Reader AccountId
  read_id bytes = do
    (felt, rest) ← s.read_felt bytes
    id ← or_invalid (Id.try_from_felt felt)
    ok (id, rest)

  unfoldable pub write_asset : Asset → List ℕ
  write_asset asset = Value.to_bytes asset

  unfoldable pub read_asset : ⦃c : Crypto⦄ → Reader Asset
  read_asset bytes = do
    (data_array, rest) ← s.read_vec 32 bytes
    asset ← or_invalid (Value.try_from_bytes data_array)
    ok (asset, rest)

  unfoldable pub write_note_type : NoteType → List ℕ
  write_note_type note_type = s.write_int 1 (Tag.note_type_code note_type)

  unfoldable pub read_note_type : Reader NoteType
  read_note_type bytes = do
    (discriminant, rest) ← s.read_int 1 bytes
    note_type ← or_invalid (Tag.note_type_of_u8 discriminant)
    ok (note_type, rest)

  unfoldable pub write_tag : NoteTag → List ℕ
  write_tag tag = s.write_int 4 tag.inner

  unfoldable pub read_tag : Reader NoteTag
  read_tag bytes = do (tag, rest) ← s.read_int 4 bytes; ok (record { inner = tag }, rest)

  unfoldable pub write_metadata : NoteMetadata → List ℕ
  write_metadata m =
      write_id m.sender ++ (write_note_type m.note_type ++ (write_tag m.tag ++ s.write_felt m.aux))

  unfoldable pub read_metadata : Reader NoteMetadata
  read_metadata bytes = do
    (sender, bytes) ← read_id bytes
    (note_type, bytes) ← read_note_type bytes
    (tag, bytes) ← read_tag bytes
    (aux, rest) ← s.read_felt bytes
    metadata ← or_invalid (Metadata.new sender note_type tag aux)
    ok (metadata, rest)

  unfoldable pub write_header : BlockHeader → List ℕ
  write_header h =
      s.write_word h.prev_hash
      ++ (s.write_int 4 h.block_num
          ++ (s.write_word h.chain_root
              ++ (s.write_word h.account_root
                  ++ (s.write_word h.nullifier_root
                      ++ (s.write_word h.note_root
                          ++ (s.write_word h.batch_root
                              ++ (s.write_word h.proof_hash
                                  ++ (s.write_felt h.version
                                      ++ (s.write_felt h.timestamp
                                          ++ (s.write_word h.sub_hash
                                              ++ s.write_word h.hash))))))))))

  unfoldable pub read_header : Reader BlockHeader
  read_header bytes = do
    (prev_hash, bytes) ← s.read_word bytes
    (block_num, bytes) ← s.read_int 4 bytes
    (chain_root, bytes) ← s.read_word bytes
    (account_root, bytes) ← s.read_word bytes
    (nullifier_root, bytes) ← s.read_word bytes
    (note_root, bytes) ← s.read_word bytes
    (batch_root, bytes) ← s.read_word bytes
    (proof_hash, bytes) ← s.read_word bytes
    (version, bytes) ← s.read_felt bytes
    (timestamp, bytes) ← s.read_felt bytes
    (sub_hash, bytes) ← s.read_word bytes
    (hash, rest) ← s.read_word bytes
    ok (
      record {
        prev_hash = prev_hash;
        block_num = block_num;
        chain_root = chain_root;
        account_root = account_root;
        nullifier_root = nullifier_root;
        note_root = note_root;
        batch_root = batch_root;
        proof_hash = proof_hash;
        version = version;
        timestamp = timestamp;
        sub_hash = sub_hash;
        hash = hash;
      },
      rest,
    )
