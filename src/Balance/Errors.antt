-- ===== src/Balance/Errors.antt =====
-- selectError of internal/balance/balance.go.
use evm_tools.Base.{
  ◌≡◌, refl, ap, ◌∙◌, Bool, true, false, Option, none, some, List, [], ◌∷◌, Text, if◌then◌else◌,
}

-- An error of a target's read, with whether a *permanentErr is in its chain.
pub record ReadError : Type 0 where
  pub permanent : Bool
  pub text : Text

abbrev pub or_first : Option ReadError → ReadError → Option ReadError
or_first none e = some e
or_first (some first) e = some first

-- The loop, with the first error so far.
unfoldable pub select_from : Option ReadError → List (Option ReadError) → Option ReadError
select_from first [] = first
select_from first (none ∷ errs) = select_from first errs
select_from first (some e ∷ errs) =
    let rest = select_from (or_first first e) errs in if e.permanent then some e else rest

-- selectError
unfoldable pub select_error : List (Option ReadError) → Option ReadError
select_error errs = select_from none errs

-- The first error of a list that has a property.
abbrev pub first_that : (ReadError → Bool) → List (Option ReadError) → Option ReadError
first_that test [] = none
first_that test (none ∷ errs) = first_that test errs
first_that test (some e ∷ errs) =
    let behind = first_that test errs in if test e then some e else behind

abbrev pub or_else : Option ReadError → Option ReadError → Option ReadError
or_else none other = other
or_else (some e) other = some e

first_kept :
    (first : Option ReadError) (e : ReadError) (o : Option ReadError)
    → or_else (or_first first e) o ≡ or_else first (some e)
first_kept none e o = refl
first_kept (some f) e o = refl

select_from-or_else :
    (first : Option ReadError) (errs : List (Option ReadError))
    → select_from first errs
      ≡ or_else (first_that (λ e. e.permanent) errs) (or_else first (first_that (λ e. true) errs))
unfolding select_from
select_from-or_else none [] = refl
select_from-or_else (some f) [] = refl
select_from-or_else first (none ∷ errs) = select_from-or_else first errs
select_from-or_else first (some e ∷ errs) = by_permanence e.permanent (
    select_from-or_else (or_first first e) errs
    ∙ ap (λ o. or_else (first_that (λ x. x.permanent) errs) o)
        (first_kept first e (first_that (λ x. true) errs)))
  where
    by_permanence :
        (b : Bool)
        → select_from (or_first first e) errs
          ≡ or_else (first_that (λ x. x.permanent) errs) (or_else first (some e))
        → (if b then some e else select_from (or_first first e) errs)
          ≡ or_else
              (if b then some e else first_that (λ e. e.permanent) errs)
              (or_else first (some e))
    by_permanence true rest = refl
    by_permanence false rest = rest

-- selectError gives the first permanent error of the targets, in their order, if there is one, and
-- else the first error; none exactly where no target failed.
pub select_error_lem :
    (errs : List (Option ReadError))
    → select_error errs ≡ or_else (first_that (λ e. e.permanent) errs) (first_that (λ e. true) errs)
unfolding select_error
select_error_lem errs = select_from-or_else none errs
