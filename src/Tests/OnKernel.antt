-- ===== src/Tests/OnKernel.antt =====
-- Examples on the outputs of the kernel.
use restartx.Common.{
  ℕ, ◌+◌, ◌≡◌, ◌↔◌, refl, sym, arith, if◌then◌else◌, List, [], ◌∷◌, ◌++◌, length, drop,
}
use restartx.Common.{take, Option, none, some, ok}
use restartx.Common.Bits.{count_ones}
use restartx.Crypto.{Felt, Word, Digest, elements, empty_word, word_eq}
use restartx.Accounts.Id
use restartx.Accounts.Account.{AccountStub}
use restartx.Transactions.Unique.{check_unseen}
use restartx.Transactions.OutputNotes
use restartx.Kernel.{Vm, flatten, on_stack}
use restartx.Kernel.Outputs
use restartx.Kernel.Outputs.{TransactionOutputs}
use restartx.Kernel.Outputs.Parsed.{IsKept, from_transaction_parts_iff}
use restartx.Types.{Asset, NoteType}
use restartx.Assets.Value
use restartx.Notes.Tag
use restartx.Notes.Metadata
use restartx.Notes.NoteInputs
use restartx.Notes.NoteAssets
use restartx.Notes.Commitments
use restartx.Notes.Commitments.{NoteScript, Note}
use restartx.Kernel.Standard
use restartx.Kernel.Standard.{Programs, FeltRng}
use restartx.Kernel.Standard.Payback.{built_recipient, note_recipient, create_swap_note_payback}
use restartx.Tests.{toy_crypto, regular_id, fixed_digest, coins, art}

-- The word on the four elements from the given position down, and nothing if there are fewer.
abbrev first_word : List Felt → Option Word
first_word (a ∷ b ∷ d ∷ e ∷ es) = some (record { e0 = e; e1 = d; e2 = b; e3 = a })
first_word _ = none

abbrev word_at : List Felt → ℕ → Option Word
word_at es i = first_word (drop i es)

abbrev add_word : Word → Option (List Word) → Option (List Word)
add_word w none = none
add_word w (some words) = some (w ∷ words)

abbrev group_four : List Felt → Option (List Word)
group_four [] = some []
group_four (a ∷ b ∷ d ∷ e ∷ es) =
    add_word (record { e0 = a; e1 = b; e2 = d; e3 = e }) (group_four es)
group_four _ = none

word_at-front :
    (front back : List Felt) (w : Word)
    → word_at (front ++ (on_stack w ++ back)) (length front) ≡ some w
word_at-front [] back w = refl
word_at-front (x ∷ front) back w = word_at-front front back w

group_four-flatten : (words : List Word) → group_four (flatten words) ≡ some words
group_four-flatten [] = refl
group_four-flatten (w ∷ words) = rw (group_four-flatten words) refl

add_word-some :
    (w : Word) (o : Option (List Word)) (words : List Word)
    → add_word w o ≡ some words
    → (rest : List Word) × (o ≡ some rest) × (words ≡ w ∷ rest)
add_word-some w none words h = cc
add_word-some w (some rest) words h = (rest, refl, ground (arith, h))

whole_is_flat :
    {w : Word} {es : List Felt} {words rest : List Word}
    → words ≡ w ∷ rest
    → es ≡ flatten rest
    → elements w ++ es ≡ flatten words
whole_is_flat whole flat = rw (whole, flat) refl

group_four-some :
    (es : List Felt) (words : List Word) → group_four es ≡ some words → es ≡ flatten words
group_four-some [] words h = ground (arith, h)
group_four-some (a ∷ []) words h = cc
group_four-some (a ∷ b ∷ []) words h = cc
group_four-some (a ∷ b ∷ d ∷ []) words h = cc
group_four-some (a ∷ b ∷ d ∷ e ∷ es) words h =
    let w : Word = record { e0 = a; e1 = b; e2 = d; e3 = e } in
    let (rest, grouped, whole) = add_word-some w (group_four es) words h in
    whole_is_flat whole (group_four-some es rest grouped)

stack_law :
    (front back : List Felt) (w : Word) (s : List Felt)
    → some (front ++ (on_stack w ++ back)) ≡ some s
    → word_at s (length front) ≡ some w
stack_law front back w s h =
    let same : front ++ (on_stack w ++ back) ≡ s = ground (arith, h) in
    rw (sym same) (word_at-front front back w)

-- A stack as its elements, a map with one entry.
instance abbrev toy_vm : Vm
toy_vm = record {
  StackOutputs = List Felt;
  StackInputs = List Felt;
  new_inputs = λ es. some es;
  new_inputs_fits = λ es h. (es, refl);
  AdviceMap = Digest × List Felt;
  new_stack = λ es overflow. some es;
  get_stack_word = word_at;
  get = λ m d. if word_eq m.0 d then some m.1 else none;
  group_slice_elements = group_four;
  new_stack_fits = λ es h. (es, refl);
  get_stack_word-new_stack = stack_law;
  group-flatten = group_four-flatten;
  group-some = group_four-some;
}

abbrev final_account : AccountStub
final_account = record {
  id = regular_id;
  nonce = 5;
  vault_root = fixed_digest;
  storage_root = empty_word;
  code_root = fixed_digest;
}

abbrev final_words : List Word
final_words =
    record { e0 = 31; e1 = 0; e2 = 0; e3 = 5 } ∷ fixed_digest ∷ empty_word ∷ fixed_digest ∷ []

abbrev final_map : toy_vm.AdviceMap
final_map = (fixed_digest, flatten final_words)

abbrev no_notes : OutputNotes.OutputNotes
no_notes = record { notes = []; commitment = empty_word }

abbrev final_outputs : TransactionOutputs
final_outputs = record { account = final_account; output_notes = no_notes }

abbrev final_stack : toy_vm.StackOutputs
final_stack = on_stack empty_word ++ (on_stack empty_word ++ on_stack fixed_digest)

final_outputs_parsed : Outputs.from_transaction_parts final_stack final_map [] ≡ ok final_outputs
unfolding Outputs.from_transaction_parts Outputs.parse_output_stack Outputs.account_at
    Outputs.checked_notes Outputs.parse_final_account_stub Id.try_from_felt count_ones
    OutputNotes.new OutputNotes.build_output_notes_commitment check_unseen
final_outputs_parsed = refl

from_transaction_parts_iff_example :
    (Outputs.from_transaction_parts final_stack final_map [] ≡ ok final_outputs) ↔ (
      IsKept fixed_digest final_map final_account
      × (OutputNotes.new [] ≡ ok no_notes)
      × (empty_word ≡ empty_word))
unfolding Outputs.build_output_stack
from_transaction_parts_iff_example =
    from_transaction_parts_iff fixed_digest empty_word none final_stack final_map [] final_outputs
      refl

instance abbrev toy_programs : Programs
toy_programs = record {
  ProgramAst = Unit;
  p2id_bytes = 1 ∷ [];
  p2idr_bytes = 2 ∷ [];
  swap_bytes = 3 ∷ [];
  from_bytes = λ bytes. some tt;
  compile = λ code. some fixed_digest;
}

-- Every draw is the same word.
instance abbrev toy_rng : FeltRng
toy_rng = record { State = ℕ; draw_word = λ state. (fixed_digest, state + 1) }

abbrev script : NoteScript
script = record { hash = fixed_digest }

abbrev note_with : List ℕ → Note
note_with values = record {
  assets = record { assets = Asset.fungible coins ∷ []; hash = fixed_digest };
  metadata = record {
    sender = regular_id;
    note_type = NoteType.off_chain;
    tag = record { inner = 0 };
    aux = 0;
  };
  recipient = record {
    serial_num = fixed_digest;
    script = script;
    inputs = record { values = values; hash = fixed_digest };
    digest = fixed_digest;
  };
  id = fixed_digest;
  nullifier = fixed_digest;
}

abbrev swap_note : Note
swap_note =
    note_with
      (elements fixed_digest ++ (elements (Value.to_word (Asset.non_fungible art)) ++ (0 ∷ [])))

swap_made :
    Standard.create_swap_note regular_id
      (Asset.fungible coins)
      (Asset.non_fungible art)
      NoteType.off_chain
      0
    ≡ ok (swap_note, fixed_digest)
unfolding Standard.create_swap_note Standard.build_note_script Standard.new_script
    Standard.build_p2id_recipient Tag.from_account_id NoteInputs.new Metadata.new Tag.validate
    NoteAssets.new NoteAssets.check_unique Commitments.new NoteAssets.compute_asset_commitment
    Commitments.new_recipient Commitments.note_id Commitments.nullifier_of
    Commitments.compute_recipient_digest
swap_made = refl

paid :
    Standard.create_p2id_note regular_id regular_id (Asset.fungible coins ∷ []) NoteType.off_chain 7
    ≡ ok (note_with (31 ∷ []))
unfolding Standard.create_p2id_note Standard.build_note_script Standard.new_script NoteInputs.new
    Tag.from_account_id Metadata.new Tag.validate NoteAssets.new NoteAssets.check_unique
    Commitments.new NoteAssets.compute_asset_commitment Commitments.new_recipient
    Commitments.note_id Commitments.nullifier_of Commitments.compute_recipient_digest
paid = refl

create_swap_note_payback_example :
    (take 4 swap_note.recipient.inputs.values ≡ elements fixed_digest) ↔ (
      built_recipient script regular_id fixed_digest
      ≡ note_recipient script regular_id fixed_digest)
unfolding Standard.build_note_script Standard.new_script
create_swap_note_payback_example =
    create_swap_note_payback script regular_id regular_id (Asset.fungible coins)
      (Asset.non_fungible art) (Asset.fungible coins ∷ []) NoteType.off_chain NoteType.off_chain 0 7
      swap_note (note_with (31 ∷ [])) fixed_digest refl swap_made paid refl
