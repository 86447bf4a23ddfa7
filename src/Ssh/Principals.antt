-- ===== src/Ssh/Principals.antt =====
-- internal/domain/acl_ssh_policy.go: whose machines may open the sessions of a rule.
use ionskale.Prelude.{
  String, List, [], ◌∷◌, Bool, true, false, not, ◌&&◌, ◌||◌, ◌≡◌, refl, Option, none, some, arith,
  eq_iff, str_eq, contains, starts_with, &&-eq-true, any-guard, Any, Any-map, Any_witness, any,
  any-Any, any_swap, if◌then◌else◌,
}
use ionskale.Netip.{AddrText}
use ionskale.Policy.{AclPolicy}
use ionskale.StringSet.{StringSet, empty, add, items}
use ionskale.StringSet.Laws.{contains-items-add}
use ionskale.Machine.{Machine, User, has_tag, has_tags, has_user, ips}
use ionskale.Acl.{
  is_user_alias, machine_owned_by, is_group_member, auto_group_member, auto_group_members,
}
use ionskale.Ssh.{expand_ssh_src_alias, add_srcs, add_aliases, expand_src_aliases}

module _ (net : AddrText) (a : AclPolicy) (u : Option User) (x : String) where
  contains-add_srcs :
      (alias : String) (s : StringSet) (srcs : List Machine)
      → contains (items (add_srcs net a alias u s srcs)) x ≡ (
          contains (items s) x
          || any (λ src. contains (expand_ssh_src_alias net a src alias u) x) srcs)
  unfolding add_srcs
  contains-add_srcs alias s [] = ground arith
  contains-add_srcs alias s (src ∷ srcs) =
      let found = expand_ssh_src_alias net a src alias u in
      ground (arith, contains-add_srcs alias (add s found) srcs, contains-items-add s found x)

  -- An alias that the rule's action does not skip stands for the text at some source.
  abbrev pub names : String → Machine → String → Bool
  names action src alias =
      not (starts_with alias "tag:" && str_eq action "check")
      && contains (expand_ssh_src_alias net a src alias u) x

  contains-add_aliases :
      (srcs : List Machine) (action : String) (s : StringSet) (aliases : List String)
      → contains (items (add_aliases net a srcs action u s aliases)) x
        ≡ (contains (items s) x || any (λ alias. any (λ src. names action src alias) srcs) aliases)
  unfolding add_aliases
  contains-add_aliases srcs action s [] = ground arith
  contains-add_aliases srcs action s (alias ∷ aliases) =
      let skipped = starts_with alias "tag:" && str_eq action "check" in
      ground (
        arith,
        contains-add_aliases srcs action (if skipped then s else add_srcs net a alias u s srcs)
            aliases,
        contains-add_srcs alias s srcs,
        any-guard (not skipped) (λ src. contains (expand_ssh_src_alias net a src alias u) x) srcs,
      )

  -- A principal of the rule is the text of an alias of its sources at some machine.
  expand_src_aliases-names :
      (srcs : List Machine) (action : String) (aliases : List String)
      → contains (expand_src_aliases net a srcs aliases action u) x ≡ true
      → Any (λ src. any (names action src) aliases ≡ true) srcs
  unfolding expand_src_aliases items contains
  expand_src_aliases-names srcs action aliases h =
      any_swap (λ alias src. names action src alias) aliases srcs
        (rw (← contains-add_aliases srcs action empty aliases) h)

-- What a list of alternatives that all give the same texts gives.
four_ways :
    (b c d e : Bool) (texts : List String) (x : String)
    → contains
        (if b then texts else if c then texts else if d then texts else if e then texts else [])
        x
      ≡ true
    → (contains texts x ≡ true) × ((b || c || d || e) ≡ true)
unfolding contains
four_ways true c d e texts x h = (h, refl)
four_ways false true d e texts x h = (h, refl)
four_ways false false true e texts x h = (h, refl)
four_ways false false false true texts x h = (h, refl)
four_ways false false false false texts x h = cc

not-true : (b : Bool) → not b ≡ true → b ≡ false
not-true b e = ground arith

guarded :
    (b : Bool) (texts : List String) (x : String)
    → contains (if b then [] else texts) x ≡ true
    → (b ≡ false) × (contains texts x ≡ true)
unfolding contains
guarded true texts x h = cc
guarded false texts x h = (refl, h)

own_guard : (own tags : Bool) → (not own || tags) ≡ false → (tags ≡ false) × (own ≡ true)
own_guard own tags h = (ground arith, ground arith)

machine_owned_by-untagged :
    (net : AddrText) (a : AclPolicy) (alias : String) (m : Machine)
    → machine_owned_by net a alias m ≡ true
    → has_tags m ≡ false
unfolding machine_owned_by
machine_owned_by-untagged net a alias m h =
    not-true (has_tags m) (&&-eq-true _ _ (&&-eq-true _ _ h).0).1

abbrev is_member : String → Bool
is_member alias = str_eq alias auto_group_member || str_eq alias auto_group_members

-- An alternative that asks for no tags, is one of an owner, or is skipped.
untagged_way :
    (b tags owned group member tag held : Bool)
    → (owned ≡ true → tags ≡ false)
    → not (tag && true) ≡ true
    → (((b && not tags) || owned) || (group && not tags && member) || (tag && held)) ≡ true
    → tags ≡ false
untagged_way b tags owned group member tag held f h e = ground arith

module _ (net : AddrText) (a : AclPolicy) where
  own_source :
      (u : User) (x : String) (src : Machine) (alias : String)
      → contains (expand_ssh_src_alias net a src alias (some u)) x ≡ true
      → (has_tags src ≡ false) × (src.user.name ≡ u.name) × (contains (ips net src) x ≡ true)
  unfolding expand_ssh_src_alias
  own_source u x src alias h =
      let (own, texts) = guarded _ _ x h in
      let (untagged, user) = own_guard (has_user src u.name) (has_tags src) own in
      (
        untagged,
        (eq_iff src.user.name u.name).0 user,
        (four_ways (is_member alias) (is_user_alias net a alias && has_user src alias)
            (starts_with alias "group:" && is_group_member a alias src) false (ips net src) x
            texts).0,
      )

  untagged_source :
      (u : Option User) (x : String) (src : Machine) (alias : String)
      → names net a u x "check" src alias ≡ true
      → (has_tags src ≡ false) × (contains (ips net src) x ≡ true)
  unfolding expand_ssh_src_alias
  untagged_source none x src alias h =
      let (kept, found) = &&-eq-true _ _ h in
      let tagged = starts_with alias "tag:" in
      let grouped = starts_with alias "group:" in
      let member = is_group_member a alias src in
      let owned = machine_owned_by net a alias src in
      let (texts, way) =
        four_ways (is_member alias && not (has_tags src)) owned
          (grouped && not (has_tags src) && member) (tagged && has_tag src alias) (ips net src) x
          found in
      (
        untagged_way (is_member alias) (has_tags src) owned grouped member tagged
            (has_tag src alias) (machine_owned_by-untagged net a alias src) kept way,
        texts,
      )
  untagged_source (some u) x src alias h =
      let (untagged, _, texts) = own_source u x src alias (&&-eq-true _ _ h).1 in (untagged, texts)

  -- A rule whose sessions are checked has for principals only addresses of untagged machines.
  pub check_principals_untagged :
      (u : Option User) (srcs : List Machine) (aliases : List String) (x : String)
      → contains (expand_src_aliases net a srcs aliases "check" u) x ≡ true
      → Any (λ src. (has_tags src ≡ false) × (contains (ips net src) x ≡ true)) srcs
  check_principals_untagged u srcs aliases x h =
      Any-map srcs
        (λ src e.
          let (alias, _, found) = Any_witness aliases (any-Any _ aliases e) in
          untagged_source u x src alias found)
        (expand_src_aliases-names net a u x srcs "check" aliases h)

  -- Where a rule reaches the user's own machines, its principals are untagged machines of this user.
  pub self_principals :
      (u : User) (srcs : List Machine) (aliases : List String) (action x : String)
      → contains (expand_src_aliases net a srcs aliases action (some u)) x ≡ true
      → Any
          (λ src.
            (has_tags src ≡ false) × (src.user.name ≡ u.name) × (contains (ips net src) x ≡ true))
          srcs
  self_principals u srcs aliases action x h =
      Any-map srcs
        (λ src e.
          let (alias, _, found) = Any_witness aliases (any-Any _ aliases e) in
          own_source u x src alias (&&-eq-true _ _ found).1)
        (expand_src_aliases-names net a (some u) x srcs action aliases h)
