-- ===== src/Service/Issued.antt =====
-- internal/service/auth_keys.go: what a call to `CreateAuthKey` that succeeded says of the new key.
use ionskale.Prelude.{
  nil_of_empty, ℕ, String, List, ◌≡◌, refl, ap, sym, Bool, true, false, not, ◌||◌, Option, none,
  some, All, any, is_empty, str_eq, some_inj, if◌then◌else◌,
}
use ionskale.Prelude.Options.{>>=-some}
use ionskale.Machine.{User, Tailnet}
use ionskale.Acl.{check_tag_owners, is_some}
use ionskale.Acl.Owners.{Owns, check_tag_owners-Owns}
use ionskale.Identity.{Principal, AuthKey, user_role_admin, is_system_admin, is_tailnet_admin}
use ionskale.Identity.Creation.{draw, create_auth_key}
use ionskale.Registration.Handlers.{sanitize_tags}
use ionskale.Service.{answer, crash, not_found, invalid_argument, or_refused, demand, allowed}
use ionskale.Service.Isolation.{allowed_tailnet}
use ionskale.Service.Answers.{>>=-answer, answer_inj, or_refused-answer, demand-true}
use ionskale.Service.AuthKeys.{
  KeyStore, KeyRequest, Draws, get_tailnet, owned_tags, saved_key, expires_at, issue,
  issue_auth_key,
}

-- A call that is allowed, and is no system administrator's, has a user.
allowed_user :
    (p : Principal) (t : ℕ) (user : Option User)
    → p.user ≡ user
    → allowed p t ≡ answer tt
    → is_system_admin p ≡ false
    → (u : User) × (user ≡ some u)
unfolding allowed is_tailnet_admin
allowed_user p t none e h person = absurd (let z : crash ≡ answer tt = (rw (person, e) at h) in cc)
allowed_user p t (some u) e h person = (u, refl)

owned_tags-Owns :
    (user : Option User) (u : User) (t : Tailnet) (tags : List String)
    → user ≡ some u
    → owned_tags user t tags ≡ answer tt
    → All (Owns t.acl_policy u) tags
owned_tags-Owns user u t tags e h =
    let clear =
      demand-true (is_empty (check_tag_owners t.acl_policy tags u)) invalid_argument tt
        (rw e at h) in
    check_tag_owners-Owns t.acl_policy tags u (nil_of_empty _ clear)

create_auth_key-made :
    (generate_hash : String → Option String) (key_draws pwd_draws : List ℕ) (id : ℕ)
    (tailnet : Tailnet) (user : User) (ephemeral pre_authorized : Bool) (tags : List String)
    (expires_at : Option ℕ) (value : String) (k : AuthKey)
    → create_auth_key generate_hash key_draws pwd_draws id tailnet user ephemeral pre_authorized
        tags expires_at
      ≡ some (value, k)
    → (k.tailnet ≡ tailnet) × (k.user ≡ user) × (k.tags ≡ tags)
unfolding create_auth_key
create_auth_key-made generate_hash key_draws pwd_draws id tailnet user ephemeral pre_authorized tags
      expires_at value k h =
    let (d, _, same) = >>=-some (draw generate_hash key_draws pwd_draws) _ (value, k) h in
    let pair = some_inj same in
    (ap (λ q. q.1.tailnet) (sym pair), ap (λ q. q.1.user) (sym pair), ap (λ q. q.1.tags) (sym pair))

saved_key-answer :
    (store after : KeyStore) (made : Option (String × AuthKey)) (value : String) (k : AuthKey)
    → saved_key store made ≡ answer (after, value, k)
    → made ≡ some (value, k)
saved_key-answer store after none value k h =
    absurd (let z : crash ≡ answer (after, value, k) = h in cc)
saved_key-answer store after (some (v, l)) value k h = ap (λ r. some (r.1, r.2)) (answer_inj h)

-- The part from the tailnet on.
issue-Owns :
    (p : Principal) (store : KeyStore) (check_tag : String → Bool)
    (generate_hash : String → Option String) (now : ℕ) (draws : Draws) (req : KeyRequest)
    (t : Tailnet) (u : User) (after : KeyStore) (value : String) (k : AuthKey)
    → issue p store check_tag generate_hash now draws req t ≡ answer (after, value, k)
    → p.user ≡ some u
    → is_system_admin p ≡ false
    → (k.tailnet ≡ t)
      × (k.user ≡ u)
      × (k.tags ≡ sanitize_tags req.tags)
      × All (Owns t.acl_policy u) req.tags
unfolding issue
issue-Owns p store check_tag generate_hash now draws req t u after value k h is person =
    let (_, owned, made) =
      >>=-answer (if is_system_admin p then answer tt else owned_tags p.user t req.tags) _
        (after, value, k) h in
    let made_for : saved_key store (
          create_auth_key generate_hash draws.key draws.pwd draws.key_id t u req.ephemeral
            req.pre_authorized (sanitize_tags req.tags) (expires_at now req.expiry))
        ≡ answer (after, value, k) =
      (rw is at made) in
    let (home, owner, tags) =
      create_auth_key-made generate_hash draws.key draws.pwd draws.key_id t u req.ephemeral
        req.pre_authorized (sanitize_tags req.tags) (expires_at now req.expiry) value k
        (saved_key-answer store after _ value k made_for) in
    (home, owner, tags, owned_tags-Owns p.user u t req.tags is (rw person at owned))

-- A new key that is not a system administrator's belongs to the principal's user, who administers
-- the tailnet of the request and owns each of the tags that were asked for, and these
-- are the tags of the key.
pub issue_auth_key-Owns :
    (p : Principal) (store : KeyStore) (check_tag : String → Bool)
    (generate_hash : String → Option String) (now : ℕ) (draws : Draws) (req : KeyRequest)
    (after : KeyStore) (value : String) (k : AuthKey)
    → issue_auth_key p store check_tag generate_hash now draws req ≡ answer (after, value, k)
    → is_system_admin p ≡ false
    → (u : User) × (t : Tailnet) × (p.user ≡ some u)
      × (u.tailnet_id ≡ req.tailnet_id)
      × (str_eq p.user_role user_role_admin ≡ true)
      × (get_tailnet store req.tailnet_id ≡ some t)
      × (k.tailnet ≡ t)
      × (k.user ≡ u)
      × (k.tags ≡ sanitize_tags req.tags)
      × All (Owns t.acl_policy u) req.tags
unfolding issue_auth_key
issue_auth_key-Owns p store check_tag generate_hash now draws req after value k h person =
    let result : KeyStore × String × AuthKey = (after, value, k) in
    let (_, granted, h1) = >>=-answer (allowed p req.tailnet_id) _ result h in
    let (_, _, h2) =
      >>=-answer (demand (is_some p.user || not (is_empty req.tags)) invalid_argument) _ result
        h1 in
    let (_, _, h3) =
      >>=-answer (demand (not (any (λ t. not (check_tag t)) req.tags)) invalid_argument) _ result
        h2 in
    let (t, found, h4) =
      >>=-answer (or_refused (get_tailnet store req.tailnet_id) not_found) _ result h3 in
    let (u, is) = allowed_user p req.tailnet_id p.user refl granted person in
    let (home, role) = allowed_tailnet p req.tailnet_id u is person granted in
    let (at, owner, tags, owns) =
      issue-Owns p store check_tag generate_hash now draws req t u after value k h4 is person in
    (
      u,
      t,
      is,
      home,
      role,
      or_refused-answer (get_tailnet store req.tailnet_id) not_found t found,
      at,
      owner,
      tags,
      owns,
    )
