-- ===== src/Iam.antt =====
-- internal/domain/iam.go: the policy of who may enter a tailnet. The evaluator of the filters is
-- hashicorp's go-bexpr, a parameter. Maps with text keys are lists of entries.
use ionskale.Prelude.{
  String, List, [], ◌∷◌, Bool, true, false, ◌&&◌, Option, none, some, str_eq, contains, is_empty,
  if◌then◌else◌,
}

pub record IamPolicy : Type 0 where
  pub subs : List String
  pub emails : List String
  pub filters : List String
  pub roles : List (String × String)

-- `IAMPolicy{}`.
abbrev pub empty_policy : IamPolicy
empty_policy = record { subs = []; emails = []; filters = []; roles = [] }

-- domain.Identity; the attributes are what the evaluator reads.
pub record Identity {ℓ} (Attr : Type ℓ) : Type ℓ where
  pub user_id : String
  pub email : String
  pub attr : Attr

-- What a filter gives for some attributes: a text that is no filter, a result, also where an attribute
-- is not found, or another error.
pub data Verdict : Type 0 where
  malformed : Verdict
  evaluated : Bool → Verdict
  not_found : Bool → Verdict
  failed : Verdict

-- Of one filter: it admits, it leaves the question to the next, or the evaluation fails.
pub data Step : Type 0 where
  admits : Step
  passes_on : Step
  stops : Step

abbrev pub step_of : Verdict → Step
step_of malformed = stops
step_of (evaluated b) = if b then admits else passes_on
step_of (not_found b) = if b then admits else passes_on
step_of failed = stops

abbrev pub after_step : Step → Option Bool → Option Bool
after_step admits rest = some true
after_step passes_on rest = rest
after_step stops rest = none

-- `isEmptyIAMPolicy` of internal/handlers/authentication.go: neither subjects, emails nor filters.
unfoldable pub is_empty_iam_policy : IamPolicy → Bool
is_empty_iam_policy p = is_empty p.subs && is_empty p.emails && is_empty p.filters

module _ {ℓ} {Attr : Type ℓ} (evaluate : String → Attr → Verdict) where
  -- `none` is an error.
  unfoldable pub evaluate_filters : Attr → List String → Option Bool
  evaluate_filters attr [] = some false
  evaluate_filters attr (f ∷ fs) =
      let rest = evaluate_filters attr fs in
      if str_eq f "*" then some true else after_step (step_of (evaluate f attr)) rest

  unfoldable pub evaluate_policy : IamPolicy → Identity Attr → Option Bool
  unfolding contains evaluate_filters
  evaluate_policy p identity =
      if contains p.subs identity.user_id
      then some true
      else if contains p.emails identity.email
      then some true
      else evaluate_filters identity.attr p.filters
