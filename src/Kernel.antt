-- ===== src/Kernel.antt =====
-- The Rust side of the transaction kernel (miden-lib/src/transaction/mod.rs, outputs.rs, memory.rs),
-- and what it takes from the VM and from winter-utils: stacks of outputs, advice maps, and the
-- grouping of a slice. `none` stands for an error that the code expects not to be there.
pub mod Outputs
pub mod Inputs
pub mod Standard
use restartx.Common.{ℕ, ◌≤◌, ◌≡◌, List, [], ◌∷◌, ◌++◌, length, Option, some}
use restartx.Crypto.{Felt, Word, Digest, elements}

-- The elements of the words in order
abbrev pub flatten : List Word → List Felt
flatten [] = []
flatten (w ∷ words) = elements w ++ flatten words

-- A word as it lies on the stack, its last element on top
abbrev pub on_stack : Word → List Felt
on_stack w = w.e3 ∷ w.e2 ∷ w.e1 ∷ w.e0 ∷ []

pub record Vm : Type 1 where
  pub StackOutputs : Type 0
  pub AdviceMap : Type 0
  pub StackInputs : Type 0
  -- `StackInputs::new`
  pub new_inputs : List Felt → Option StackInputs
  -- `StackOutputs::new`, from the elements, the top first, and the overflow addresses
  pub new_stack : List Felt → List Felt → Option StackOutputs
  pub get_stack_word : StackOutputs → ℕ → Option Word
  -- `AdviceMap::get`
  pub get : AdviceMap → Digest → Option (List Felt)
  -- `group_slice_elements`, which panics on a length that is not a multiple of four
  pub group_slice_elements : List Felt → Option (List Word)
  pub new_inputs_fits :
      (es : List Felt) → length es ≤ 16 → (s : StackInputs) × (new_inputs es ≡ some s)
  pub new_stack_fits :
      (es : List Felt) → length es ≤ 16 → (s : StackOutputs) × (new_stack es [] ≡ some s)
  pub get_stack_word-new_stack :
      (front back : List Felt) (w : Word) (s : StackOutputs)
      → new_stack (front ++ (on_stack w ++ back)) [] ≡ some s
      → get_stack_word s (length front) ≡ some w
  pub group-flatten : (words : List Word) → group_slice_elements (flatten words) ≡ some words
  pub group-some :
      (es : List Felt) (words : List Word)
      → group_slice_elements es ≡ some words
      → es ≡ flatten words
