-- ===== src/Registration/Followup.antt =====
-- internal/handlers/registration.go: the wait for a sign-in.
use ionskale.Prelude.{
  Option-cases, ℕ, List, [], ◌∷◌, Bool, true, false, not, Option, none, some, ◌≡◌, ◌⊎◌, inl, inr,
  refl, ap, sym, ◌∙◌, subst, arith, str_eq, if◌then◌else◌, Bool-cases,
}
use ionskale.Machine.{User}
use ionskale.Registration.{RegisterResponse, empty_response, RegistrationRequest}

-- One round of the wait, with the row of the machine key and the user that it names: A user that is
-- gone is a nil pointer that the code follows.
pub data Round : Type 0 where
  answers : RegisterResponse → Round
  waits : Round
  panics : Round

abbrev pub gone_wrong : RegisterResponse
gone_wrong = record empty_response { error = "something went wrong" }

unfoldable pub followup_round : (ℕ → Option User) → Option RegistrationRequest → Round
followup_round get_user none = answers gone_wrong
followup_round get_user (some m) =
    if m.authenticated
    then elim (get_user m.user_id) [
      | none ↦ panics
      | some u ↦ answers (record empty_response {
        machine_authorized = not (str_eq m.error "");
        error = m.error;
        user = some u;
      })
    ]
    else if not (str_eq m.error "")
    then answers
        (record empty_response { machine_authorized = not (str_eq m.error ""); error = m.error })
    else waits

abbrev pub then_wait : Round → Round → Round
then_wait (answers r) rest = answers r
then_wait waits rest = rest
then_wait panics rest = panics

-- The rows that the ticks find, until the connection is closed.
unfoldable pub followup : (ℕ → Option User) → List (Option RegistrationRequest) → Round
unfolding followup_round
followup get_user [] = waits
followup get_user (row ∷ rows) = then_wait (followup_round get_user row) (followup get_user rows)

answers_inj : {r s : RegisterResponse} → answers r ≡ answers s → r ≡ s
answers_inj h = cc

-- A reply that is authorized exactly where it carries an error.
carries_error :
    (q r : RegisterResponse)
    → q.machine_authorized ≡ not (str_eq q.error "")
    → answers q ≡ answers r
    → r.machine_authorized ≡ true
    → str_eq r.error "" ≡ false
carries_error q r e h accepted =
    subst (λ x. str_eq x.error "" ≡ false) (answers_inj h)
      (flip (str_eq q.error "") (sym e ∙ ap (λ x. x.machine_authorized) (answers_inj h) ∙ accepted))
  where
    flip : (b : Bool) → not b ≡ true → b ≡ false
    flip b f = ground arith

-- A round that waits leaves the answer to the rest.
round-error :
    (get_user : ℕ → Option User) (row : Option RegistrationRequest) (rest : Round)
    (r : RegisterResponse)
    → then_wait (followup_round get_user row) rest ≡ answers r
    → r.machine_authorized ≡ true
    → (str_eq r.error "" ≡ false) ⊎ (rest ≡ answers r)
unfolding followup_round
round-error get_user none rest r h accepted =
    absurd (let z : false ≡ true = ap (λ x. x.machine_authorized) (answers_inj h) ∙ accepted in cc)
round-error get_user (some m) rest r h accepted = elim (Bool-cases m.authenticated) [
  | inl e ↦ elim (Option-cases (get_user m.user_id)) [
    | inl none_found ↦ absurd (let z : panics ≡ answers r = rw (e, none_found) at h in cc)
    | inr (u, found) ↦ inl (carries_error _ r refl (rw (e, found) at h) accepted)
  ]
  | inr e ↦ elim (Bool-cases (str_eq m.error "")) [
    | inl blank ↦ inr (rw (e, blank) at h)
    | inr text ↦ inl (
        carries_error (record empty_response { machine_authorized = true; error = m.error }) r
          (rw text refl) (rw (e, text) at h) accepted)
  ]
]

-- A reply of the wait for a sign-in that says that the machine is authorized carries the text of an
-- error.
pub followup-error :
    (get_user : ℕ → Option User) (rows : List (Option RegistrationRequest)) (r : RegisterResponse)
    → followup get_user rows ≡ answers r
    → r.machine_authorized ≡ true
    → str_eq r.error "" ≡ false
unfolding followup
followup-error get_user [] r h accepted = absurd (let z : waits ≡ answers r = h in cc)
followup-error get_user (row ∷ rows) r h accepted =
    elim (round-error get_user row (followup get_user rows) r h accepted) [
      | inl e ↦ e
      | inr later ↦ followup-error get_user rows r later accepted
    ]
