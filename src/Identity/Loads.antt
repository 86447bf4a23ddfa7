-- ===== src/Identity/Loads.antt =====
-- internal/service/interceptors.go: what a load that succeeded says of
-- the key that it found.
use ionskale.Prelude.{
  ℕ, String, List, [], ◌∷◌, ◌+◌, ◌≤◌, ◌≡◌, ◌⊎◌, inl, inr, refl, Bool, true, false, not, ◌&&◌,
  Option, none, some, arith, Any, str_eq, if◌then◌else◌, eq_iff, ltb, ◌==◌, some_inj,
}
use ionskale.Identity.{
  Principal, SystemApiKey, Loaded, absent, loaded, crashed, is_past, ◌>>=◌, two_parts, three_parts,
  checked_system_api_key,
}
use ionskale.Identity.Tokens.{ServiceTokenEntry, is_timely, drift_compensation, last_match}

pub last_match-Any :
    (digest : String) (entries : List ServiceTokenEntry) (found : Option String) (name : String)
    → last_match digest entries found ≡ some name
    → (found ≡ some name) ⊎ Any (λ e. (str_eq digest e.digest ≡ true) × (e.name ≡ name)) entries
last_match-Any digest [] found name h = inl h
last_match-Any digest (e ∷ entries) found name h =
    elim (last_match-Any digest entries (if str_eq digest e.digest then some e.name else found) name
      h) [ inl now ↦ ground (arith, now) | inr later ↦ inr (inr later) ]

pub two_parts_eq : (ps : List String) (a b : String) → two_parts ps ≡ some (a, b) → ps ≡ a ∷ b ∷ []
two_parts_eq [] a b h = cc
two_parts_eq (x ∷ []) a b h = cc
two_parts_eq (x ∷ y ∷ []) a b h = let same = some_inj h in cc
two_parts_eq (x ∷ y ∷ z ∷ ps) a b h = cc

pub three_parts_eq :
    (ps : List String) (a b c : String) → three_parts ps ≡ some (a, b, c) → ps ≡ a ∷ b ∷ c ∷ []
three_parts_eq [] a b c h = cc
three_parts_eq (x ∷ []) a b c h = cc
three_parts_eq (x ∷ y ∷ []) a b c h = cc
three_parts_eq (x ∷ y ∷ z ∷ []) a b c h = let same = some_inj h in cc
three_parts_eq (x ∷ y ∷ z ∷ w ∷ ps) a b c h = cc

pub loaded_inj {ℓ} : {A : Type ℓ} {a b : A} → loaded a ≡ loaded b → a ≡ b
loaded_inj h = cc

pub named_key : (s t : String) → str_eq s t ≡ true → s ≡ t
named_key s t h = ground (arith, eq_iff s t)

pub >>=-loaded :
    {A B : Type 0} (o : Option A) (f : A → Loaded B) (b : B)
    → (o >>= f) ≡ loaded b
    → (a : A) × (o ≡ some a) × (f a ≡ loaded b)
>>=-loaded none f b h = absurd (let z : absent ≡ loaded b = h in cc)
>>=-loaded (some a) f b h = (a, refl, h)

-- What two guards let through.
pub guarded_load {ℓ} :
    {A : Type ℓ} (passes past : Bool) (m k : A)
    → (if passes then if past then absent else loaded m else absent) ≡ loaded k
    → (m ≡ k) × (passes ≡ true) × (past ≡ false)
guarded_load true true m k h = cc
guarded_load true false m k h = (loaded_inj h, refl, refl)
guarded_load false past m k h = cc

pub checked_system_api_key-loaded :
    (compare_hash : String → String → Bool) (now : ℕ) (password : String) (m k : SystemApiKey)
    (expiry : Option ℕ)
    → m.expires_at ≡ expiry
    → checked_system_api_key compare_hash now password m ≡ loaded k
    → (m ≡ k) × (compare_hash m.hash password ≡ true) × (is_past now expiry ≡ false)
unfolding is_past
checked_system_api_key-loaded compare_hash now password m k none e h =
    absurd (never (compare_hash m.hash password) (rw e at h))
  where
    never : (b : Bool) → (if b then crashed else absent) ≡ loaded k → ⊥
    never true g = cc
    never false g = cc
checked_system_api_key-loaded compare_hash now password m k (some t) e h =
    guarded_load (compare_hash m.hash password) (not (t == 0) && ltb t now) m k (rw e at h)

pub is_timely-bounds :
    (now t : ℕ)
    → is_timely now t ≡ true
    → (t ≤ now + drift_compensation) × (now ≤ t + drift_compensation)
unfolding is_timely
is_timely-bounds now t h = ground arith

pub guarded_row {ℓ} :
    {A : Type ℓ} {o : Option A} (b : Bool) (m : A)
    → (if b then o else none) ≡ some m
    → (b ≡ true) × (o ≡ some m)
guarded_row true m h = (refl, h)
guarded_row false m h = cc

pub bind_some {ℓ κ} :
    {A : Type ℓ} {B : Type κ} (o : Option A) (f : A → Option B) (b : B)
    → elim o [ none ↦ none | some a ↦ f a ] ≡ some b
    → (a : A) × (o ≡ some a) × (f a ≡ some b)
bind_some none f b h = absurd (let z : none ≡ some b = h in cc)
bind_some (some a) f b h = (a, refl, h)

pub unless_some {ℓ} :
    {A : Type ℓ} {o : Option A} (b : Bool) (a : A) → (if b then none else o) ≡ some a → o ≡ some a
unless_some true a h = cc
unless_some false a h = h

pub guarded_some {ℓ} :
    {A : Type ℓ} (b c : Bool) (a a' : A)
    → (if b && c then some a else none) ≡ some a'
    → (a ≡ a') × (c ≡ true)
guarded_some true true a a' h = (some_inj h, refl)
guarded_some true false a a' h = cc
guarded_some false c a a' h = cc

pub last_true : (a b c : Bool) → (a && b && c) ≡ true → c ≡ true
last_true a b c h = ground arith

pub branches :
    (b : Bool) (x y : Loaded Principal) (p : Principal)
    → (if b then x else y) ≡ loaded p
    → ((b ≡ true) × (x ≡ loaded p)) ⊎ ((b ≡ false) × (y ≡ loaded p))
branches true x y p h = inl (refl, h)
branches false x y p h = inr (refl, h)
