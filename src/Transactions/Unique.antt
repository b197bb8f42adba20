-- ===== src/Transactions/Unique.antt =====
-- The search for duplicates with a set of what was seen (the loops over a `BTreeSet` in
-- objects/src/transaction/inputs.rs and outputs.rs).
use restartx.Common.{◌≡◌, ◌↔◌, refl, arith, if◌then◌else◌}
use restartx.Common.{List, [], ◌∷◌, any, Distinct, Apart, Apart-nil, Apart-cons}
use restartx.Common.{Result, ok, err}
use restartx.Crypto.{Digest, word_eq}

-- The loop, with the digests seen, the last one first, and the error for a repeated one.
unfoldable pub check_unseen :
    {E : Type 0} → (Digest → E) → List Digest → List Digest → Result E (Unit {0})
check_unseen duplicate seen [] = ok tt
check_unseen duplicate seen (d ∷ ds) =
    let later = check_unseen duplicate (d ∷ seen) ds in
    if any (λ x. word_eq x d) seen then err (duplicate d) else later

check_unseen-Apart :
    {E : Type 0} (duplicate : Digest → E) (seen ds : List Digest)
    → (check_unseen duplicate seen ds ≡ ok tt) ↔ (Distinct word_eq ds × Apart word_eq seen ds)
unfolding check_unseen
check_unseen-Apart duplicate seen [] = (λ h. (tt, tt), λ h. refl)
check_unseen-Apart duplicate seen (d ∷ ds) =
    let later = check_unseen-Apart duplicate (d ∷ seen) ds in
    let apart = Apart-cons word_eq d seen ds in
    (
      λ h.
          let (x, a) = later.0 (ground (arith, h)) in
          let (one, others) = apart.0 a in ((one, x), (ground (arith, h), others)),
      λ h. ground (arith, h.1.0, later.1 (h.0.1, apart.1 (h.0.0, h.1.1))),
    )

pub check_unseen_iff :
    {E : Type 0} (duplicate : Digest → E) (ds : List Digest)
    → (check_unseen duplicate [] ds ≡ ok tt) ↔ Distinct word_eq ds
check_unseen_iff duplicate ds =
    let both = check_unseen-Apart duplicate [] ds in
    (λ h. (both.0 h).0, λ h. both.1 (h, Apart-nil word_eq ds))
