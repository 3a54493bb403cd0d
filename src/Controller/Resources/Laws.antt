-- ===== src/Controller/Resources/Laws.antt =====
-- getExistingResourcesFromKey: the loop that takes errors out of the slice from its end.
use lib_bucket_provisioner.Base.{
  ℕ, zero, suc, length, take, true, false, if◌then◌else◌, Bool-cases, inl, inr, List, [], ◌∷◌, ◌++◌,
  ◌≡◌, refl, sym, ◌∙◌, ap,
}
use lib_bucket_provisioner.Cluster.Error.{Error, is_not_found}
use lib_bucket_provisioner.Controller.Resources.{trim_not_found, not_found_at, without_at}

-- The errors that do not say that an object was not found, in their order.
unfoldable pub others : List Error → List Error
others [] = []
others (e ∷ errs) = let rest = others errs in if is_not_found e then rest else e ∷ rest

drop : ℕ → List Error → List Error
drop zero errs = errs
drop (suc i) [] = []
drop (suc i) (e ∷ errs) = drop i errs

take-without_at : (i : ℕ) (errs : List Error) → take i (without_at i errs) ≡ take i errs
unfolding without_at
take-without_at zero errs = refl
take-without_at (suc i) [] = refl
take-without_at (suc i) (e ∷ errs) = ap (λ (es : List Error). e ∷ es) (take-without_at i errs)

drop-without_at : (i : ℕ) (errs : List Error) → drop i (without_at i errs) ≡ drop (suc i) errs
unfolding without_at drop
drop-without_at zero [] = refl
drop-without_at zero (e ∷ errs) = refl
drop-without_at (suc i) [] = refl
drop-without_at (suc i) (e ∷ errs) = drop-without_at i errs

-- What the loop has left when it is at position `i`.
abbrev left : ℕ → List Error → List Error
left i errs = others (take i errs) ++ drop i errs

left-not_found :
    (i : ℕ) (errs : List Error)
    → not_found_at i errs ≡ true
    → others (take (suc i) errs) ≡ others (take i errs)
unfolding others not_found_at
left-not_found i [] h = cc
left-not_found zero (e ∷ errs) h = rw h refl
left-not_found (suc i) (e ∷ errs) h = rw (left-not_found i errs h) refl

left-other :
    (i : ℕ) (errs : List Error) → not_found_at i errs ≡ false → left (suc i) errs ≡ left i errs
unfolding others not_found_at drop
left-other zero [] h = refl
left-other (suc i) [] h = refl
left-other zero (e ∷ errs) h = rw h refl
left-other (suc i) (e ∷ errs) h = elim (Bool-cases (is_not_found e)) [
  | inl gone ↦ rw gone (left-other i errs h)
  | inr other ↦ rw other (ap (λ (es : List Error). e ∷ es) (left-other i errs h))
]

trim_not_found-left : (i : ℕ) (errs : List Error) → trim_not_found i errs ≡ left i errs
unfolding trim_not_found others drop
trim_not_found-left zero errs = refl
trim_not_found-left (suc i) errs = elim (Bool-cases (not_found_at i errs)) [
  | inl gone ↦ rw gone (
      trim_not_found-left i (without_at i errs)
      ∙ rw (take-without_at i errs, drop-without_at i errs, left-not_found i errs gone) refl)
  | inr other ↦ rw other (trim_not_found-left i errs ∙ sym (left-other i errs other))
]

left_all : (errs : List Error) → left (length errs) errs ≡ others errs
unfolding others drop
left_all [] = refl
left_all (e ∷ errs) = elim (Bool-cases (is_not_found e)) [
  | inl gone ↦ rw gone (left_all errs)
  | inr other ↦ rw other (ap (λ (es : List Error). e ∷ es) (left_all errs))
]

-- Run from the end of the slice to its start, the loop leaves exactly the errors that do not say
-- that an object was not found, in their order.
pub trim_not_found-others : (errs : List Error) → trim_not_found (length errs) errs ≡ others errs
trim_not_found-others errs = trim_not_found-left (length errs) errs ∙ left_all errs
