-- ===== src/SignIn/Owner.antt =====
-- internal/handlers/authentication.go and ssh_action.go: the check of a user before an SSH session,
-- from the callback of the sign-in to the answer that the machine gets.
use ionskale.Prelude.{
  ℕ, String, List, [], ◌∷◌, Bool, true, false, not, ◌&&◌, ◌≡◌, inl, inr, refl, ap, sym, subst, ◌∙◌,
  Option, none, some, Bool-cases, &&-eq-true, str_eq, eq_iff, ◌==◌, ==_iff, take_first,
  take_first-Any, arith, nil_of_empty, ◌≢◌,
}
use ionskale.Machine.{Machine, User, has_tags}
use ionskale.Store.{get_machine}
use ionskale.Tables.{
  Tables, Account, SshActionRequest, saved, where_text, account_of, get_or_create_account,
  get_ssh_action_request, save_ssh_action_request, delete_ssh_action_request, joined_user,
}
use ionskale.SshAction.{accepts, rejects, check_tick}
use ionskale.SignIn.{Site, OauthState, AuthUser, ssh_check_flow, login_name}
use ionskale.SignIn.Handlers.{has_account, owns_machine, ssh_checked, ssh_check, signed_in}

abbrev same_key : SshActionRequest → SshActionRequest → Bool
same_key b a = str_eq b.key a.key

saved-found :
    (rs : List SshActionRequest) (r : SshActionRequest)
    → take_first (λ b. str_eq b.key r.key) (saved same_key rs r) ≡ some r
saved-found [] r = rw ((eq_iff r.key r.key).1 refl) refl
saved-found (b ∷ rs) r = elim (Bool-cases (str_eq b.key r.key)) [
  | inl e ↦ rw e (rw ((eq_iff r.key r.key).1 refl) refl)
  | inr e ↦ rw e (rw e (saved-found rs r))
]

found_key :
    (rs : List SshActionRequest) (key : String) (r : SshActionRequest)
    → take_first (λ b. str_eq b.key key) rs ≡ some r
    → r.key ≡ key
found_key rs key r h = (eq_iff r.key key).0 (take_first-Any (λ b. str_eq b.key key) rs r h).1

relabelled-external_id :
    (a : Account) (w : Tables) (id : ℕ) (external_id organization login_name : String)
    → (account_of (some a) w id external_id organization login_name).1.external_id ≡ a.external_id
relabelled-external_id a w id external_id organization login_name =
    elim (Bool-cases (not (str_eq login_name "") && not (str_eq a.login_name login_name))) [
      | inl e ↦ rw e refl
      | inr e ↦ rw e refl
    ]

-- The account that a sign-in finds or makes is of the subject.
account_of-external_id :
    (o : Option Account) (w : Tables) (id : ℕ) (external_id organization login_name : String)
    → ((a : Account) → o ≡ some a → a.external_id ≡ external_id)
    → (account_of o w id external_id organization login_name).1.external_id ≡ external_id
account_of-external_id none w id external_id organization login_name h = refl
account_of-external_id (some a) w id external_id organization login_name h =
    relabelled-external_id a w id external_id organization login_name ∙ h a refl

get_or_create_account-external_id :
    (w : Tables) (id : ℕ) (external_id organization login_name : String)
    → str_eq external_id "" ≡ false
    → (get_or_create_account w id external_id organization login_name).1.external_id ≡ external_id
unfolding get_or_create_account
get_or_create_account-external_id w id external_id organization login_name h =
    account_of-external_id _ w id external_id organization login_name (λ a e.
      let (at, passes) = take_first-Any _ w.accounts a e in
      let (same, _) = &&-eq-true (where_text external_id a.external_id) _ passes in
      (eq_iff a.external_id external_id).0 (rw h at same))

account_of-requests :
    (o : Option Account) (w : Tables) (id : ℕ) (external_id organization login_name : String)
    → (account_of o w id external_id organization login_name).0.ssh_actions ≡ w.ssh_actions
account_of-requests none w id external_id organization login_name = refl
account_of-requests (some a) w id external_id organization login_name = refl

get_or_create_account-requests :
    (w : Tables) (id : ℕ) (external_id organization login_name key : String)
    → get_ssh_action_request (get_or_create_account w id external_id organization login_name).0 key
      ≡ get_ssh_action_request w key
unfolding get_or_create_account get_ssh_action_request
get_or_create_account-requests w id external_id organization login_name key =
    ap (take_first (λ r. str_eq r.key key))
      (account_of-requests _ w id external_id organization login_name)

-- The account owns the machine: it has no tags, and its user is the account's.
abbrev pub Owner : Tables → Account → Machine → Type 0
Owner w a m =
    (m.tags ≡ []) × ((v : User) × (joined_user w.store m ≡ some v) × (v.account_id ≡ some a.id))

account_is : (v : User) (id : ℕ) → has_account (some v) id ≡ true → v.account_id ≡ some id
account_is v id h = go v.account_id h
  where
    go : (o : Option ℕ) → elim o [ none ↦ false | some a ↦ a == id ] ≡ true → o ≡ some id
    go none h = cc
    go (some a) h = ap some ((==_iff a id).0 h)

has_account-id :
    (w : Tables) (m : Machine) (a : Account) (o : Option User)
    → joined_user w.store m ≡ o
    → has_account o a.id ≡ true
    → (v : User) × (joined_user w.store m ≡ some v) × (v.account_id ≡ some a.id)
has_account-id w m a none e h = cc
has_account-id w m a (some v) e h = (v, e, account_is v a.id h)

owns_machine-Owner :
    (w : Tables) (a : Account) (m : Machine) → owns_machine w a m ≡ true → Owner w a m
unfolding owns_machine has_tags
owns_machine-Owner w a m h =
    let (untagged, has) = &&-eq-true _ _ h in
    (nil_of_empty m.tags (ground arith), has_account-id w m a (joined_user w.store m) refl has)

-- What an answer that accepts tells of the source machine.
abbrev pub IsOwned : Tables → Account → SshActionRequest → Type 0
IsOwned w a r = (m : Machine) × (get_machine w.db r.src_machine_id ≡ some m) × Owner w a m

waits :
    (w v : Tables) (key : String) (r : SshActionRequest)
    → get_ssh_action_request w key ≡ some r
    → r.action ≡ ""
    → check_tick w key ≢ some (accepts, v)
unfolding check_tick
waits w v key r found fresh h = let z : none ≡ some (accepts, v) = rw (found, fresh) at h in cc

rejected :
    (w v : Tables) (key : String) (r : SshActionRequest)
    → get_ssh_action_request w key ≡ some r
    → r.action ≡ "reject"
    → check_tick w key ≢ some (accepts, v)
unfolding check_tick
rejected w v key r found fresh h =
    let z : some (rejects, delete_ssh_action_request w key) ≡ some (accepts, v) =
      rw (found, fresh) at h in
    cc

module _ {Attr : Type 0} (site : Site Attr) where
  checked-IsOwned :
      (w v : Tables) (r : SshActionRequest) (a : Account) (o : Option Machine)
      → get_machine w.db r.src_machine_id ≡ o
      → get_ssh_action_request w r.key ≡ some r
      → r.action ≡ ""
      → check_tick (ssh_checked site w r a o).1 r.key ≡ some (accepts, v)
      → IsOwned w a r
  unfolding get_ssh_action_request save_ssh_action_request
  checked-IsOwned w v r a none at found fresh h = absurd (waits w v r.key r found fresh h)
  checked-IsOwned w v r a (some m) at found fresh h = elim (Bool-cases (owns_machine w a m)) [
    | inl e ↦ (m, at, owns_machine-Owner w a m e)
    | inr e ↦
        let s : SshActionRequest = record r { action = "reject" } in
        absurd (
          rejected (save_ssh_action_request w s) v r.key s (saved-found w.ssh_actions s) refl
            (rw e at h))
  ]

  check-IsOwned :
      (w v : Tables) (key : String) (r : SshActionRequest) (a : Account)
      → get_ssh_action_request w key ≡ some r
      → r.action ≡ ""
      → check_tick (ssh_check site w a (get_ssh_action_request w key)).1 key ≡ some (accepts, v)
      → IsOwned w a r
  unfolding get_ssh_action_request
  check-IsOwned w v key r a found fresh h =
      let same : key ≡ r.key = sym (found_key w.ssh_actions key r found) in
      checked-IsOwned w v r a (get_machine w.db r.src_machine_id) refl
        (subst (λ k. get_ssh_action_request w k ≡ some r) same found) fresh
        (subst (λ k. check_tick (ssh_check site w a (some r)).1 k ≡ some (accepts, v)) same
          (subst (λ o. check_tick (ssh_check site w a o).1 key ≡ some (accepts, v)) found h))

  -- A callback of the flow of an SSH check, for an identity with an id, whose request is not decided: if the
  -- machine that waits is then told to accept, the machine that the request names exists and has no
  -- tags, and its user is of the account that the sign-in found or made, which is of that identity.
  pub check_tick-IsOwned :
      (w v : Tables) (state : OauthState) (u : AuthUser Attr) (r : SshActionRequest)
      → state.flow ≡ ssh_check_flow
      → str_eq u.id "" ≡ false
      → get_ssh_action_request w state.key ≡ some r
      → r.action ≡ ""
      → check_tick (signed_in site w state u).1 state.key ≡ some (accepts, v)
      → let (w1, a) = get_or_create_account w site.account_id u.id u.org (login_name u) in
        IsOwned w1 a r × (a.external_id ≡ u.id)
  unfolding signed_in
  check_tick-IsOwned w v state u r flow id found fresh h =
      let (w1, a) = get_or_create_account w site.account_id u.id u.org (login_name u) in
      let ssh : str_eq state.flow ssh_check_flow ≡ true =
        (eq_iff state.flow ssh_check_flow).1 flow in
      (
        check-IsOwned w1 v state.key r a
            (get_or_create_account-requests w site.account_id u.id u.org (login_name u) state.key
              ∙ found)
            fresh (rw ssh at h),
        get_or_create_account-external_id w site.account_id u.id u.org (login_name u) id,
      )
