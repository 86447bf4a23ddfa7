-- ===== src/Service/Users/Without.antt =====
-- internal/service/users.go: the tables without some users.
use ionskale.Prelude.{
  ℕ, List, [], ◌∷◌, Bool, true, false, not, ◌||◌, ◌≡◌, refl, sym, ap, ◌∙◌, ◌==◌, keep, any, arith,
  keep-keep, keep_same, keep_every,
}
use ionskale.Machine.{User}
use ionskale.Store.{delete_machine_by_user}
use ionskale.Tables.{Tables}
use ionskale.Service.Users.{
  delete_api_keys_by_user, delete_auth_keys_by_user, delete_user_row, delete_rows, notify_each,
  delete_all,
}

-- The tables without the rows of users that are gone; the log of notifications is apart.
pub record WithoutUsers (gone : ℕ → Bool) (w v : Tables) : Type 0 where
  pub machines : v.db.machines ≡ keep (λ m. not (gone m.user_id)) w.db.machines
  pub api_keys : v.store.keys.api_keys ≡ keep (λ k. not (gone k.user.id)) w.store.keys.api_keys
  pub auth_keys : v.store.keys.auth_keys ≡ keep (λ k. not (gone k.user.id)) w.store.keys.auth_keys
  pub system_api_keys : v.store.keys.system_api_keys ≡ w.store.keys.system_api_keys
  pub users : v.store.users ≡ keep (λ u. not (gone u.id)) w.store.users
  pub tailnets : v.store.tailnets ≡ w.store.tailnets
  pub accounts : v.accounts ≡ w.accounts

kept_twice {ℓ} :
    {A : Type ℓ} (id : A → ℕ) (f g h : ℕ → Bool) (xs ys zs : List A)
    → ((i : ℕ) → h i ≡ (f i || g i))
    → ys ≡ keep (λ x. not (f (id x))) xs
    → zs ≡ keep (λ x. not (g (id x))) ys
    → zs ≡ keep (λ x. not (h (id x))) xs
kept_twice id f g h xs ys zs same first second =
    second
    ∙ ap (keep (λ x. not (g (id x)))) first
    ∙ keep-keep (λ x. not (g (id x))) (λ x. not (f (id x))) xs
    ∙ keep_same _ _ xs (λ x. rw (same (id x)) (ground arith))

twice-WithoutUsers :
    (f g h : ℕ → Bool) (w v z : Tables)
    → ((i : ℕ) → h i ≡ (f i || g i))
    → WithoutUsers f w v
    → WithoutUsers g v z
    → WithoutUsers h w z
twice-WithoutUsers f g h w v z same a b = record {
  machines = kept_twice (λ m. m.user_id) f g h _ _ _ same a.machines b.machines;
  api_keys = kept_twice (λ k. k.user.id) f g h _ _ _ same a.api_keys b.api_keys;
  auth_keys = kept_twice (λ k. k.user.id) f g h _ _ _ same a.auth_keys b.auth_keys;
  system_api_keys = b.system_api_keys ∙ a.system_api_keys;
  users = kept_twice (λ u. u.id) f g h _ _ _ same a.users b.users;
  tailnets = b.tailnets ∙ a.tailnets;
  accounts = b.accounts ∙ a.accounts;
}

delete_rows-WithoutUsers : (w : Tables) (id : ℕ) → WithoutUsers (λ i. i == id) w (delete_rows w id)
unfolding delete_rows delete_machine_by_user delete_api_keys_by_user delete_auth_keys_by_user
    delete_user_row
delete_rows-WithoutUsers w id = record {
  machines = refl;
  api_keys = refl;
  auth_keys = refl;
  system_api_keys = refl;
  users = refl;
  tailnets = refl;
  accounts = refl;
}

nobody : {A : Type 0} (xs : List A) → xs ≡ keep (λ x. true) xs
nobody xs = sym (keep_every _ xs (λ x. refl))

none-WithoutUsers : (w : Tables) → WithoutUsers (λ i. false) w w
none-WithoutUsers w = record {
  machines = nobody w.db.machines;
  api_keys = nobody w.store.keys.api_keys;
  auth_keys = nobody w.store.keys.auth_keys;
  system_api_keys = refl;
  users = nobody w.store.users;
  tailnets = refl;
  accounts = refl;
}

pub same-WithoutUsers :
    (f g : ℕ → Bool) (w v : Tables)
    → ((i : ℕ) → f i ≡ g i)
    → WithoutUsers f w v
    → WithoutUsers g w v
same-WithoutUsers f g w v same a =
    twice-WithoutUsers f (λ i. false) g w v v (λ i. rw (sym (same i)) (ground arith)) a
      (none-WithoutUsers v)

pub delete_all-WithoutUsers :
    (w : Tables) (us : List User) → WithoutUsers (λ i. any (λ u. i == u.id) us) w (delete_all w us)
unfolding delete_all
delete_all-WithoutUsers w [] = none-WithoutUsers w
delete_all-WithoutUsers w (u ∷ us) =
    twice-WithoutUsers (λ i. i == u.id) (λ i. any (λ v. i == v.id) us) _ w (delete_rows w u.id) _
      (λ i. refl) (delete_rows-WithoutUsers w u.id)
      (delete_all-WithoutUsers (delete_rows w u.id) us)

pub notify_each-WithoutUsers :
    (gone : ℕ → Bool) (w v : Tables) (ts : List ℕ)
    → WithoutUsers gone w v
    → WithoutUsers gone w (notify_each v ts)
unfolding notify_each
notify_each-WithoutUsers gone w v [] h = h
notify_each-WithoutUsers gone w v (t ∷ ts) h = notify_each-WithoutUsers gone w _ ts record {
  machines = h.machines;
  api_keys = h.api_keys;
  auth_keys = h.auth_keys;
  system_api_keys = h.system_api_keys;
  users = h.users;
  tailnets = h.tailnets;
  accounts = h.accounts;
}
