-- ===== src/Host/Procedures.antt =====
-- The indices of an account's procedures (miden-tx/src/host/account_procs.rs), and what the host
-- takes from the VM (vm_processor): its advice provider and the state of a process.
use restartx.Common.{ℕ, zero, suc, ◌+◌, ◌%◌, ◌^◌, ◌<◌, ◌≡◌, ap, ◌∙◌, arith, Bool}
use restartx.Common.{if◌then◌else◌, if_cases, List, [], Option, none, some, Result, ok, err}
use restartx.Common.{Bool-cases, option_cases, inl, inr}
use restartx.Common.Maps.{MapKey, BTreeMap, find, insert, find-insert}
use restartx.Crypto.{Felt, Word, Digest, word_eq, empty_word}
use restartx.Host.Events.{TransactionKernelError}

pub record AdviceProvider : Type 1 where
  pub Provider : Type 0
  pub get_mapped_values : Provider → Digest → Option (List Felt)
  -- root, depth and index
  pub get_tree_node : Provider → Word → Felt → Felt → Option Word
  -- `push_stack(AdviceSource::Value(..))`
  pub push_stack : Provider → Felt → Option Provider
  -- `get_node` at the depth of procedure trees, in the subset of the store below a root
  pub get_store_node : Provider → Digest → ℕ → Option Digest

pub record Process : Type 0 where
  -- also `get_stack_state()[i]`
  pub get_stack_item : ℕ → Felt
  pub get_stack_word : ℕ → Word
  -- in the root context
  pub get_mem_value : ℕ → Option Word
  -- `ctx() == ContextId::root()`
  pub is_root_context : Bool

abbrev pub max_num_procedures : ℕ
max_num_procedures = 2 ^ 8

module _ ⦃d : MapKey Digest⦄ where
  abbrev pub AccountProcedureIndexMap : Type 0
  AccountProcedureIndexMap = BTreeMap Digest ℕ

  -- The loop over the indexes: how many are left, and the current one.
  unfoldable pub collect :
      (ℕ → Option Digest) → ℕ → ℕ → AccountProcedureIndexMap → AccountProcedureIndexMap
  collect node zero i result = result
  collect node (suc left) i result =
      let skip = collect node left (i + 1) result in
      elim (node i) [
        | none ↦ skip
        | some proc_root ↦
            let next = collect node left (i + 1) (insert proc_root (i % 2 ^ 8) result) in
            if word_eq proc_root empty_word then result else next
      ]

  -- `AccountProcedureIndexMap::new`
  unfoldable pub new : ⦃a : AdviceProvider⦄ → Digest → a.Provider → AccountProcedureIndexMap
  new ⦃a⦄ account_code_root adv_provider =
      collect (a.get_store_node adv_provider account_code_root) max_num_procedures 0 []

  unfoldable pub get_proc_index :
      AccountProcedureIndexMap → Process → Result TransactionKernelError ℕ
  get_proc_index procs process =
      let proc_root = process.get_stack_word 0 in
      elim (find proc_root procs) [
        | none ↦ err (TransactionKernelError.unknown_account_procedure proc_root)
        | some i ↦ ok i
      ]

  -- Every entry is the index of a node of the tree with that root.
  abbrev IsIndexed : (ℕ → Option Digest) → AccountProcedureIndexMap → Type 0
  IsIndexed node procs =
      (root : Digest) (i : ℕ) → find root procs ≡ some i → (i < 256) × (node i ≡ some root)

  insert-IsIndexed :
      (node : ℕ → Option Digest) (procs : AccountProcedureIndexMap) (root : Digest) (i : ℕ)
      → node i ≡ some root
      → i < 256
      → IsIndexed node procs
      → IsIndexed node (insert root (i % 2 ^ 8) procs)
  insert-IsIndexed node procs root i here small w other j h =
      let same : i % 2 ^ 8 ≡ i = omega (arith, small) in
      let read = find-insert root other (i % 2 ^ 8) procs in
      elim (Bool-cases (d.same root other)) [
        | inl equal ↦
            let e : root ≡ other = (d.same_iff root other).0 equal in
            let k : j ≡ i = ground (arith, read, equal, h, same) in
            (omega (arith, k, small), ap node k ∙ here ∙ ap some e)
        | inr apart ↦ w other j (ground (arith, read, apart, h))
      ]

  collect-IsIndexed :
      (node : ℕ → Option Digest) (left i : ℕ) (procs : AccountProcedureIndexMap)
      → i + left < 257
      → IsIndexed node procs
      → IsIndexed node (collect node left i procs)
  unfolding collect
  collect-IsIndexed node zero i procs b w = w
  collect-IsIndexed node (suc left) i procs b w =
      let skipped = collect-IsIndexed node left (i + 1) procs (omega (arith, b)) w in
      option_cases (IsIndexed node) (node i) (λ missing. skipped)
        (λ root here.
          if_cases (IsIndexed node) (word_eq root empty_word) (λ last. w)
            (λ more.
              collect-IsIndexed node left (i + 1) (insert root (i % 2 ^ 8) procs) (omega (arith, b))
                (insert-IsIndexed node procs root i here (omega (arith, b)) w)))

  -- The index that the map gives for a procedure is below 256, and is the index of a node of the
  -- procedure tree, in the advice provider, that is this procedure.
  pub get_proc_index-new :
      ⦃a : AdviceProvider⦄ (account_code_root : Digest) (adv_provider : a.Provider)
      (process : Process) (i : ℕ)
      → get_proc_index (new account_code_root adv_provider) process ≡ ok i
      → (i < 256)
        × (a.get_store_node adv_provider account_code_root i ≡ some (process.get_stack_word 0))
  unfolding get_proc_index new
  get_proc_index-new ⦃a⦄ account_code_root adv_provider process i h =
      collect-IsIndexed (a.get_store_node adv_provider account_code_root) 256 0 [] (omega arith)
        (λ root j k. cc) (process.get_stack_word 0) i (ground (arith, h))
