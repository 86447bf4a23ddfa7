-- ===== src/Acl/Owners.antt =====
-- internal/domain/acl.go: which tags a user may give to a machine.
use ionskale.Prelude.{
  String, List, [], ◌∷◌, true, ◌≡◌, ◌⊎◌, inl, inr, arith, eq_iff, Any, All, contains, lookup,
  Bool-cases,
}
use ionskale.Policy.{AclPolicy}
use ionskale.Machine.{User}
use ionskale.Acl.{owned_by_alias, is_tag_owner, check_tag_owners, or_nil, user_type_service}

-- A user owns a tag as a service, or by an owner of the tag that is its name or a group of it.
abbrev pub Owns : AclPolicy → User → String → Type 0
Owns a p tag =
    (p.user_type ≡ user_type_service)
    ⊎ Any (λ alias. (alias ≡ p.name) ⊎ (contains (or_nil (lookup alias a.groups)) p.name ≡ true))
        (or_nil (lookup tag a.tag_owners))

abbrev OwnsBy : AclPolicy → User → String → Type 0
OwnsBy a p alias = (alias ≡ p.name) ⊎ (contains (or_nil (lookup alias a.groups)) p.name ≡ true)

owned_by_alias-OwnsBy :
    (a : AclPolicy) (p : User) (aliases : List String)
    → owned_by_alias a p aliases ≡ true
    → Any (OwnsBy a p) aliases
unfolding owned_by_alias
owned_by_alias-OwnsBy a p [] h = cc
owned_by_alias-OwnsBy a p (alias ∷ aliases) h =
    ground (arith, eq_iff alias p.name, owned_by_alias-OwnsBy a p aliases)

is_tag_owner-Owns :
    (a : AclPolicy) (tag : String) (p : User) → is_tag_owner a tag p ≡ true → Owns a p tag
unfolding is_tag_owner
is_tag_owner-Owns a tag p h = ground (
  arith,
  eq_iff p.user_type user_type_service,
  owned_by_alias-OwnsBy a p (or_nil (lookup tag a.tag_owners)),
)

-- Where no tag is reported, the user is a service, or owns each tag by its name or by a group that
-- the policy declares and that lists it.
pub check_tag_owners-Owns :
    (a : AclPolicy) (tags : List String) (p : User)
    → check_tag_owners a tags p ≡ []
    → All (Owns a p) tags
unfolding check_tag_owners
check_tag_owners-Owns a [] p h = tt
check_tag_owners-Owns a (t ∷ ts) p h = elim (Bool-cases (is_tag_owner a t p)) [
  | inl e ↦ (is_tag_owner-Owns a t p e, check_tag_owners-Owns a ts p (ground arith))
  | inr e ↦ ground arith
]
