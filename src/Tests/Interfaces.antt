-- ===== src/Tests/Interfaces.antt =====
-- Concrete instances of the interfaces that the host, the blocks and the streams use.
use restartx.Common.{ℕ, zero, suc, ◌+◌, ◌^◌, ◌<◌, ◌≡◌, refl, ap, arith, ◌==◌, ltb, if◌then◌else◌}
use restartx.Common.{
  Bool, true, false, ◌&&◌, ◌||◌, List, [], ◌∷◌, ◌++◌, length, take, drop, Option, none, some, ok,
  err,
}
use restartx.Common.Bytes.{take-append, drop-append}
use restartx.Common.Maps.{MapKey}
use restartx.Crypto.{Word, Digest, word_eq, word_eq_iff, empty_word}
use restartx.Merkle.{Mmr, MerklePaths}
use restartx.Notes.Script.{Assembler, DeserializationError}
use restartx.Host.Procedures.{AdviceProvider}
use restartx.Streams.{Streams, Reader}
use restartx.Tests.{fixed_digest}

abbrev less_at : ℕ → ℕ → Bool → Bool
less_at a b later = ltb a b || ((a == b) && later)

-- Words in the order of their elements.
abbrev pub word_less : Word → Word → Bool
word_less a b = less_at a.e0 b.e0 (less_at a.e1 b.e1 (less_at a.e2 b.e2 (ltb a.e3 b.e3)))

pub word_less_trans :
    (a b c : Word) → word_less a b ≡ true → word_less b c ≡ true → word_less a c ≡ true
word_less_trans a b c h k = ground (arith, h, k)

pub word_less_total :
    (a b : Word) → word_eq a b ≡ false → word_less a b ≡ false → word_less b a ≡ true
word_less_total a b h k = ground (arith, h, k)

pub word_less_irrefl : (a b : Word) → word_less a b ≡ true → word_eq a b ≡ false
word_less_irrefl a b h = ground (arith, h)

instance abbrev pub toy_key : MapKey Digest
toy_key = record {
  same = word_eq;
  less = word_less;
  same_iff = λ a b. word_eq_iff a b;
  less_trans = λ a b c. word_less_trans a b c;
  less_total = λ a b. word_less_total a b;
  less_irrefl = λ a b. word_less_irrefl a b;
}

instance abbrev pub toy_assembler : Assembler
toy_assembler = record { from_bytes = λ bs. ok tt }

-- No advice, storage of empty slots, and one procedure.
instance abbrev pub toy_advice : AdviceProvider
toy_advice = record {
  Provider = List ℕ;
  get_mapped_values = λ p k. none;
  get_tree_node = λ p root depth index. some empty_word;
  push_stack = λ p v. some (v ∷ p);
  get_store_node = λ p root i. if i == 0 then some fixed_digest else none;
}

-- A range as its number of leaves, all of them tracked.
instance abbrev pub toy_mmr : Mmr
toy_mmr = record {
  PartialMmr = ℕ;
  forest = λ m. m;
  is_tracked = λ m i. true;
  hash_peaks = λ m. fixed_digest;
  add = λ m leaf track. m + 1;
  forest-add = λ m leaf track. refl;
  is_tracked-add = λ m leaf track i h. refl;
}

pub small_index :
    (depth v : ℕ) → v < 2 ^ depth → (if ltb v (2 ^ depth) then some v else none) ≡ some v
small_index depth v h = ground (arith, h)

pub read_index :
    (depth v i : ℕ)
    → (if ltb v (2 ^ depth) then some v else none) ≡ some i
    → (i ≡ v) × (v < 2 ^ depth)
read_index depth v i h = ground (arith, h)

instance abbrev pub toy_paths : MerklePaths
toy_paths = record {
  MerklePath = ℕ;
  verify = λ p i leaf root. p == i;
  InnerNodes = Digest;
  inner_nodes = λ p i leaf. some leaf;
  NodeIndex = ℕ;
  index_of = λ depth v. if ltb v (2 ^ depth) then some v else none;
  index_value = λ i. i;
  index_of_small = λ depth v h. (v, small_index depth v h);
  index_value-index_of = λ depth v i h. read_index depth v i h;
}

-- Streams in which a number is one entry.
abbrev read_number : Reader ℕ
read_number [] = err DeserializationError.unexpected_eof
read_number (v ∷ rest) = ok (v, rest)

abbrev read_four : Reader Word
read_four (a ∷ b ∷ c ∷ d ∷ rest) = ok (record { e0 = a; e1 = b; e2 = c; e3 = d }, rest)
read_four _ = err DeserializationError.unexpected_eof

abbrev write_maybe : Option ℕ → List ℕ
write_maybe none = 0 ∷ []
write_maybe (some v) = 1 ∷ v ∷ []

abbrev read_maybe : Reader (Option ℕ)
read_maybe (zero ∷ rest) = ok (none, rest)
read_maybe (suc zero ∷ v ∷ rest) = ok (some v, rest)
read_maybe _ = err DeserializationError.unexpected_eof

pub vec_lem :
    (bytes rest : List ℕ)
    → ◌≡◌ {A = List ℕ × List ℕ}
        (take (length bytes) (bytes ++ rest), drop (length bytes) (bytes ++ rest))
        (bytes, rest)
vec_lem bytes rest = rw (take-append bytes rest, drop-append bytes rest) refl

instance abbrev pub toy_streams : Streams
toy_streams = record {
  write_int = λ w v. v ∷ [];
  read_int = λ w. read_number;
  write_felt = λ v. v ∷ [];
  read_felt = read_number;
  write_word = λ w. w.e0 ∷ w.e1 ∷ w.e2 ∷ w.e3 ∷ [];
  read_word = read_four;
  write_option = write_maybe;
  read_option = read_maybe;
  read_vec = λ n bytes. ok (take n bytes, drop n bytes);
  write_code = λ script. [];
  read_code = λ bytes. ok (tt, bytes);
  int_back = λ w v h rest. refl;
  felt_back = λ v h rest. refl;
  word_back = λ w h rest. refl;
  option_back = λ v h rest. refl;
  none_back = λ rest. refl;
  vec_back = λ bytes rest. ap ok (vec_lem bytes rest);
  code_back = λ script rest. refl;
}
