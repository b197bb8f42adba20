-- ===== src/Kernel/Outputs/Parsed.antt =====
-- What the parser of the outputs accepts.
use restartx.Common.{
  ◌≡◌, ◌↔◌, ◌==◌, false, length, refl, ap, sym, true, arith, List, [], ◌∷◌, ◌++◌, Option, some, ok,
}
use restartx.Common.{expect, ok_or, >>=-eq-ok, >>=-after_ok, ◌>>=◌}
use restartx.Crypto.{Word, Digest, Crypto, word_eq, word_eq_iff}
use restartx.Errors.{TransactionOutputError}
use restartx.Accounts.Id
use restartx.Accounts.Account.{AccountStub}
use restartx.Transactions.OutputNotes
use restartx.Transactions.OutputNotes.{OutputNote}
use restartx.Kernel.{Vm, flatten, on_stack}
use restartx.Kernel.Outputs
use restartx.Kernel.Outputs.{TransactionOutputs, or_default}

-- The word of the account's ID and nonce, whatever its other two elements are, then the roots.
pub record IsStubData (words : List Word) (account : AccountStub) : Type 0 where
  pub id_and_nonce : Word
  pub id_accepted : Id.try_from_felt id_and_nonce.e0 ≡ ok account.id
  pub nonce_there : id_and_nonce.e3 ≡ account.nonce
  pub words_there :
      words ≡ (id_and_nonce ∷ account.vault_root ∷ account.storage_root ∷ account.code_root ∷ [])

-- The map has the data of the account under the hash.
module _ ⦃v : Vm⦄ where
  pub record IsKept (hash : Digest) (adv_map : v.AdviceMap) (account : AccountStub) : Type 0 where
    pub words : List Word
    pub kept : v.get adv_map hash ≡ some (flatten words)
    pub stub_there : IsStubData words account

module _ (account : AccountStub) where
  stub-IsStubData :
      (words : List Word)
      → IsStubData words account
      → Outputs.parse_final_account_stub words ≡ ok account
  unfolding Outputs.parse_final_account_stub
  stub-IsStubData words d =
      rw (d.words_there, d.id_accepted)
        (ap
          (λ nonce. ok (record {
            id = account.id;
            nonce = nonce;
            vault_root = account.vault_root;
            storage_root = account.storage_root;
            code_root = account.code_root;
          }))
          d.nonce_there)

  parsed-IsStubData :
      (words : List Word)
      → Outputs.parse_final_account_stub words ≡ ok account
      → IsStubData words account
  unfolding Outputs.parse_final_account_stub
  parsed-IsStubData [] h = cc
  parsed-IsStubData (a ∷ []) h = cc
  parsed-IsStubData (a ∷ b ∷ []) h = cc
  parsed-IsStubData (a ∷ b ∷ d ∷ []) h = cc
  parsed-IsStubData (a ∷ b ∷ d ∷ e ∷ []) h =
      let (id, accepted, rest) = >>=-eq-ok (Id.try_from_felt a.e0) _ h in
      record {
        id_and_nonce = a;
        id_accepted = ground (arith, accepted, rest);
        nonce_there = ground (arith, rest);
        words_there = ground (arith, rest);
      }
  parsed-IsStubData (a ∷ b ∷ d ∷ e ∷ f ∷ words) h =
      let longer : (length (a ∷ b ∷ d ∷ e ∷ f ∷ words) == 4) ≡ false = ground arith in
      cc (longer, h)

module _ ⦃v : Vm⦄ where
  -- What lies on a stack that was built.
  stack_words {ℓ} :
      {E : Type ℓ} (f n : Digest) (r : Option Digest) (s : v.StackOutputs)
      → Outputs.build_output_stack {E = E} f n r ≡ ok s
      → Outputs.parse_output_stack {E = E} s ≡ ok (f, n, or_default r)
  unfolding Outputs.build_output_stack Outputs.parse_output_stack
  stack_words {E = E} f n r s h =
      let t = or_default r in
      let made : v.new_stack (on_stack t ++ (on_stack n ++ (on_stack f ++ []))) [] ≡ some s =
        ground (arith, h) in
      rw
        (
          v.get_stack_word-new_stack [] (on_stack n ++ (on_stack f ++ [])) t s made,
          v.get_stack_word-new_stack (on_stack t) (on_stack f ++ []) n s made,
          v.get_stack_word-new_stack (on_stack t ++ on_stack n) [] f s made,
        )
        refl

  -- The three digests come back from the stack that is made of them.
  parse_output_stack-build_output_stack {ℓ} :
      {E : Type ℓ} (final_acct_hash output_notes_hash : Digest) (tx_script_root : Option Digest)
      → (Outputs.build_output_stack {E = E} final_acct_hash output_notes_hash tx_script_root
          >>= Outputs.parse_output_stack)
        ≡ ok (final_acct_hash, output_notes_hash, or_default tx_script_root)
  unfolding Outputs.build_output_stack
  parse_output_stack-build_output_stack {E = E} f n r =
      let (s, made) =
        v.new_stack_fits (on_stack (or_default r) ++ (on_stack n ++ (on_stack f ++ [])))
          (omega arith) in
      rw made (stack_words f n r s (rw made refl))

module _ ⦃c : Crypto⦄ where
  checked_notes_iff :
      (hash : Digest) (notes : List OutputNote) (n : OutputNotes.OutputNotes)
      → (Outputs.checked_notes hash notes ≡ ok n)
        ↔ ((OutputNotes.new notes ≡ ok n) × (n.commitment ≡ hash))
  unfolding Outputs.checked_notes
  checked_notes_iff hash notes n = (
    λ h.
        let (m, made, rest) = >>=-eq-ok (OutputNotes.new notes) _ h in
        let kept : m ≡ n = ground (arith, rest) in
        let same : word_eq hash m.commitment ≡ true = ground (arith, rest) in
        (rw (sym kept) made, rw (sym kept) (sym ((word_eq_iff hash m.commitment).0 same))),
    λ (made, same). rw (made, (word_eq_iff hash n.commitment).1 (sym same)) refl,
  )

module _ ⦃v : Vm⦄ where
  account_at_iff :
      (hash : Digest) (adv_map : v.AdviceMap) (account : AccountStub)
      → (Outputs.account_at hash adv_map ≡ ok account) ↔ IsKept hash adv_map account
  unfolding Outputs.account_at
  account_at_iff hash adv_map account = (
    λ h.
        let (es, known, later) = >>=-eq-ok (ok_or (v.get adv_map hash) _) _ h in
        let (words, grouped, parsed) = >>=-eq-ok (expect (v.group_slice_elements es)) _ later in
        record {
          words = words;
          kept = rw (sym (v.group-some es words (ground (arith, grouped)))) (ground (arith, known));
          stub_there = parsed-IsStubData account words (ground (arith, parsed));
        },
    λ k.
        rw (k.kept, v.group-flatten k.words)
          (rw (stub-IsStubData account k.words k.stub_there) refl),
  )

module _ ⦃c : Crypto⦄ ⦃v : Vm⦄ where
  -- From a stack that was built of a hash of the final account, a commitment to the output notes
  -- and a script root, the parser accepts exactly if the map has under the hash the four words of
  -- an account with a valid ID, and the given notes are accepted as output notes with this
  -- commitment. It then returns this account and these notes, and the script root is not used.
  pub from_transaction_parts_iff :
      (hash commitment : Digest) (root : Option Digest) (stack : v.StackOutputs)
      (adv_map : v.AdviceMap) (notes : List OutputNote) (out : TransactionOutputs)
      → Outputs.build_output_stack {E = TransactionOutputError} hash commitment root ≡ ok stack
      → (Outputs.from_transaction_parts stack adv_map notes ≡ ok out) ↔ (
          IsKept hash adv_map out.account
          × (OutputNotes.new notes ≡ ok out.output_notes)
          × (out.output_notes.commitment ≡ commitment))
  unfolding Outputs.from_transaction_parts
  from_transaction_parts_iff hash commitment root stack adv_map notes out built =
      let read = stack_words hash commitment root stack built in
      (
        λ h.
            let (account, found, later) =
              >>=-eq-ok (Outputs.account_at hash adv_map) _
                (>>=-after_ok (Outputs.parse_output_stack stack) _ read h) in
            let (n, checked, rest) = >>=-eq-ok (Outputs.checked_notes commitment notes) _ later in
            let (made, same) = (checked_notes_iff commitment notes n).0 checked in
            let kept : account ≡ out.account = ground (arith, rest) in
            let left : n ≡ out.output_notes = ground (arith, rest) in
            (
              rw (sym kept) ((account_at_iff hash adv_map account).0 found),
              rw (sym left) made,
              rw (sym left) same,
            ),
        λ (k, made, same).
            rw
              (
                read,
                (account_at_iff hash adv_map out.account).1 k,
                (checked_notes_iff commitment notes out.output_notes).1 (made, same),
              )
              refl,
      )
