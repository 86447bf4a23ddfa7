-- ===== src/Registration/Known.antt =====
-- internal/handlers/registration.go: what Register does to the rows of machines.
use ionskale.Prelude.{
  ℕ, String, List, true, false, not, ◌&&◌, ◌||◌, Option, none, some, ◌≡◌, ◌⊎◌, inl, inr, refl, ap,
  sym, ◌∙◌, subst, ltb, str_eq, Bool-cases, contains, ◌==◌,
}
use ionskale.Netip.{AddrText}
use ionskale.Machine.{Bytes, Machine, User, is_expired}
use ionskale.StringSet.Laws.{contains-append}
use ionskale.Lock.Tka.{TkaLib}
use ionskale.Lock.Db.{Db, get_machine_by_keys, save_machine}
use ionskale.Lock.Registration.{tailnet_lock_rotation_signature}
use ionskale.Store.Rows.{Row, Row-saved}
use ionskale.Registration.{
  RegisterRequest, lock_request, RegisterResponse, Env, replied, fails, hangs,
  supported_capability_version, RegistrationRequest,
}
use ionskale.Registration.Handlers.{register_known, updated_machine, sanitize_tags}
use ionskale.Registration.Answers.{replied_inj}
use ionskale.Registration.Entry.{lock_keeps, contains-sanitize_tags}
use ionskale.Registration.Followup.{Round, answers, waits, panics, followup, followup-error}
use ionskale.Registration.Register.{
  Rows, register, register_by, register_unknown, authenticate_machine, of_round,
}

module _ (tka : TkaLib) (env : Env) (machine_key : String) (net : AddrText) where
  updated_tags :
      (db : Db) (req : RegisterRequest) (m : Machine) (t : String)
      → contains (updated_machine tka env machine_key db req m).tags t
        ≡ (contains m.registered_tags t || contains req.request_tags t)
  unfolding updated_machine
  updated_tags db req m t =
      ap (λ ts. contains ts t)
        (lock_keeps (λ j. j.tags) tka db m.tailnet_id _ (lock_request req) (λ j s. refl)
          (λ j s. refl))
      ∙ contains-append m.registered_tags (sanitize_tags req.request_tags) t
      ∙ ap (λ b. contains m.registered_tags t || b) (contains-sanitize_tags req.request_tags t)

  register_known-save :
      (db : Db) (req : RegisterRequest) (m : Machine)
      → is_expired env.now m ≡ false
      → (not (req.expiry == 0) && ltb req.expiry env.now) ≡ false
      → (register_known tka env machine_key db req m).1
        ≡ save_machine db (updated_machine tka env machine_key db req m)
  unfolding register_known
  register_known-save db req m fresh stays = rw fresh (rw stays refl)

  register-by :
      (get_user : ℕ → Option User) (ticks : List (Option RegistrationRequest)) (rows : Rows)
      (req : RegisterRequest) (o : Option Machine)
      → get_machine_by_keys rows.db machine_key req.node_key ≡ o
      → ltb req.version supported_capability_version ≡ false
      → register tka env machine_key net get_user ticks rows req
        ≡ register_by tka env machine_key net get_user ticks rows req o
  unfolding register
  register-by get_user ticks rows req o found version =
      rw version (ap (register_by tka env machine_key net get_user ticks rows req) found)

  -- Where a machine is known by its keys, its key has not expired, the request does not log out, and the
  -- client is recent enough, Register leaves a row with exactly the tags that the machine registered
  -- with and the ones that the request asks for, whatever the policy says of their owners.
  pub register-contains :
      (get_user : ℕ → Option User) (ticks : List (Option RegistrationRequest)) (rows : Rows)
      (req : RegisterRequest) (m : Machine) (r : RegisterResponse) (rows' : Rows)
      → get_machine_by_keys rows.db machine_key req.node_key ≡ some m
      → ltb req.version supported_capability_version ≡ false
      → is_expired env.now m ≡ false
      → (not (req.expiry == 0) && ltb req.expiry env.now) ≡ false
      → register tka env machine_key net get_user ticks rows req ≡ replied r rows'
      → (m' : Machine) × Row m' rows'.db
        × ((t : String)
            → contains m'.tags t ≡ (contains m.registered_tags t || contains req.request_tags t))
  unfolding register
  register-contains get_user ticks rows req m r rows' found version fresh stays h =
      let (_, left) =
        replied_inj (sym (register-by get_user ticks rows req (some m) found version) ∙ h) in
      let saved = sym (register_known-save rows.db req m fresh stays) ∙ ap (λ s. s.db) left in
      let m' = updated_machine tka env machine_key rows.db req m in
      (m', subst (Row m') saved (Row-saved rows.db m'), updated_tags rows.db req m)

  abbrev Leaves : Rows → RegisterResponse → Rows → Type 0
  Leaves rows r rows' =
      (rows'.db ≡ rows.db) × ((r.machine_authorized ≡ false) ⊎ (str_eq r.error "" ≡ false))

  -- A reply that leaves the rows of machines, and is not authorized.
  replied-Leaves :
      (rows : Rows) (q r : RegisterResponse) (s rows' : Rows)
      → s.db ≡ rows.db
      → q.machine_authorized ≡ false
      → replied q s ≡ replied r rows'
      → Leaves rows r rows'
  replied-Leaves rows q r s rows' e f h =
      let (reply, left) = replied_inj h in
      (ap (λ x. x.db) (sym left) ∙ e, inl (ap (λ x. x.machine_authorized) (sym reply) ∙ f))

  round-Leaves :
      (get_user : ℕ → Option User) (ticks : List (Option RegistrationRequest)) (rows : Rows)
      (x : Round) (r : RegisterResponse) (rows' : Rows)
      → followup get_user ticks ≡ x
      → of_round rows x ≡ replied r rows'
      → Leaves rows r rows'
  round-Leaves get_user ticks rows (answers q) r rows' e h =
      let (reply, left) = replied_inj h in
      (
        ap (λ x. x.db) (sym left),
        elim (Bool-cases r.machine_authorized) [
          | inl accepted ↦ inr (followup-error get_user ticks r (e ∙ ap answers reply) accepted)
          | inr refused ↦ inl refused
        ],
      )
  round-Leaves get_user ticks rows waits r rows' e h =
      absurd (let z : hangs ≡ replied r rows' = h in cc)
  round-Leaves get_user ticks rows panics r rows' e h =
      absurd (let z : fails ≡ replied r rows' = h in cc)

  authenticate_machine-Leaves :
      (get_user : ℕ → Option User) (ticks : List (Option RegistrationRequest)) (rows : Rows)
      (req : RegisterRequest) (r : RegisterResponse) (rows' : Rows)
      → str_eq req.auth_key "" ≡ true
      → authenticate_machine tka env machine_key net get_user ticks rows req ≡ replied r rows'
      → Leaves rows r rows'
  unfolding authenticate_machine
  authenticate_machine-Leaves get_user ticks rows req r rows' no_key h =
      elim (Bool-cases (not (str_eq req.followup ""))) [
        | inl e ↦
            round-Leaves get_user ticks rows (followup get_user ticks) r rows' refl (rw e at h)
        | inr e ↦ replied-Leaves rows _ r _ rows' refl refl (rw (e, no_key) at h)
      ]

  register_unknown-Leaves :
      (get_user : ℕ → Option User) (ticks : List (Option RegistrationRequest)) (rows : Rows)
      (req : RegisterRequest) (o : Option Bytes) (r : RegisterResponse) (rows' : Rows)
      → str_eq req.auth_key "" ≡ true
      → register_unknown tka env machine_key net get_user ticks rows req o ≡ replied r rows'
      → Leaves rows r rows'
  register_unknown-Leaves get_user ticks rows req (some sig) r rows' no_key h =
      replied-Leaves rows _ r rows rows' refl refl h
  register_unknown-Leaves get_user ticks rows req none r rows' no_key h =
      authenticate_machine-Leaves get_user ticks rows req r rows' no_key h

  -- Where no machine is known by the two keys, and the request has no auth key, Register leaves the rows of
  -- machines and locks, and what it replies is not authorized or carries the text of an error.
  pub register-unchanged :
      (get_user : ℕ → Option User) (ticks : List (Option RegistrationRequest)) (rows : Rows)
      (req : RegisterRequest) (r : RegisterResponse) (rows' : Rows)
      → get_machine_by_keys rows.db machine_key req.node_key ≡ none
      → str_eq req.auth_key "" ≡ true
      → register tka env machine_key net get_user ticks rows req ≡ replied r rows'
      → (rows'.db ≡ rows.db) × ((r.machine_authorized ≡ false) ⊎ (str_eq r.error "" ≡ false))
  unfolding register
  register-unchanged get_user ticks rows req r rows' unknown no_key h =
      elim (Bool-cases (ltb req.version supported_capability_version)) [
        | inl old ↦ replied-Leaves rows _ r rows rows' refl refl (rw (register, old) at h)
        | inr recent ↦
            register_unknown-Leaves get_user ticks rows req
              (tailnet_lock_rotation_signature tka rows.db machine_key (lock_request req)) r rows'
              no_key (sym (register-by get_user ticks rows req none unknown recent) ∙ h)
      ]
