-- ===== src/Filter/Destinations.antt =====
-- internal/domain/acl_filter_rules.go: how the destinations of a rule are split into those that
-- only the user's own machines reach and the others.
use Prim.Native.String.{◌++◌ as append_text}
use text.Mathlib.TextLemmas.{cons-append}
use ionskale.Prelude.{
  String, List, [], ◌∷◌, Bool, true, false, not, ◌&&◌, ◌||◌, ◌≡◌, refl, sym, subst, ◌⊎◌, inl, inr,
  Option, none, some, arith, eq_iff, str_eq, Any, Any-map, Any_witness, any_of_Any, any,
  some-contains, not-empty_of_contains, contains, is_empty, Bool-cases, starts_with,
}
use ionskale.Netip.{AddrText}
use ionskale.Policy.{AclPolicy, NetPortRange, PortRange}
use ionskale.StringSet.{StringSet, empty, add, items}
use ionskale.StringSet.Laws.{contains-items-add}
use ionskale.Strconv.{split_last}
use ionskale.Machine.{Machine}
use ionskale.Acl.{auto_group_self}
use ionskale.Acl.Ports.{parse_port_ranges}
use ionskale.Filter.Aliases.{
  translate_destination_alias_to_machine_ips, collect_ips,
  translate_destination_aliases_to_machine_ips, cross, cross_ports, add_ranges,
  translation_destination_alias_to_machine_net_port_ranges,
  translate_destination_aliases_to_machine_net_port_ranges,
}
use ionskale.Filter.Rules.{normalize_ssh_recorders}

module _ (net : AddrText) (a : AclPolicy) (m : Machine) where
  abbrev stands_for : String → String → Bool
  stands_for x alias = contains (translate_destination_alias_to_machine_ips net a alias m) x

  contains-collect_ips :
      (self other : StringSet) (aliases : List String) (x : String)
      → (contains (items (collect_ips net a m self other aliases).0) x ≡ (
          contains (items self) x
          || any (λ alias. str_eq alias auto_group_self && stands_for x alias) aliases))
        × (contains (items (collect_ips net a m self other aliases).1) x ≡ (
            contains (items other) x
            || any (λ alias. not (str_eq alias auto_group_self) && stands_for x alias) aliases))
  unfolding collect_ips
  contains-collect_ips self other [] x = (ground arith, ground arith)
  contains-collect_ips self other (alias ∷ aliases) x =
      let found = translate_destination_alias_to_machine_ips net a alias m in
      elim (Bool-cases (str_eq alias auto_group_self)) [
        | inl e ↦ rw e (
            let ih = contains-collect_ips (add self found) other aliases x in
            (ground (arith, ih.0, contains-items-add self found x), ground (arith, ih.1)))
        | inr e ↦ rw e (
            let ih = contains-collect_ips self (add other found) aliases x in
            (ground (arith, ih.0), ground (arith, ih.1, contains-items-add other found x)))
      ]

  -- The addresses of a grant's destinations: `autogroup:self` gives the first list its texts, and
  -- all other aliases give theirs to the second.
  pub contains-translate_destination_aliases :
      (aliases : List String) (x : String)
      → (contains (translate_destination_aliases_to_machine_ips net a aliases m).0 x
          ≡ any (λ alias. str_eq alias auto_group_self && stands_for x alias) aliases)
        × (contains (translate_destination_aliases_to_machine_ips net a aliases m).1 x
            ≡ any (λ alias. not (str_eq alias auto_group_self) && stands_for x alias) aliases)
  unfolding translate_destination_aliases_to_machine_ips items contains
  contains-translate_destination_aliases aliases x = contains-collect_ips empty empty aliases x

split_last-append : (s : String) → split_last b':' (append_text s ":80") ≡ some (s, "80")
unfolding split_last
split_last-append String.[] = refl
split_last-append (String.◌∷◌ c s) = rw (cons-append, split_last-append s)

cross-is_empty :
    (ds : List String) (ports : List PortRange)
    → is_empty (cross ds ports) ≡ false
    → is_empty ds ≡ false
unfolding cross
cross-is_empty [] ports h = h
cross-is_empty (d ∷ ds) ports h = refl

cross_ports-is_empty :
    (ds : List String) (ports : Option (List PortRange))
    → is_empty (cross_ports ds ports) ≡ false
    → is_empty ds ≡ false
cross_ports-is_empty ds none h = cc
cross_ports-is_empty ds (some ports) h = cross-is_empty ds ports h

module _ (net : AddrText) (a : AclPolicy) (m : Machine) where
  -- A recorder that the rules for recorders reach.
  abbrev pub IsReachedRecorder : String → Type 0
  IsReachedRecorder alias =
      (starts_with alias "tag:" ≡ true)
      × (is_empty (translate_destination_alias_to_machine_ips net a alias m) ≡ false)

  recorder_port :
      (alias : String)
      → is_empty (
          translation_destination_alias_to_machine_net_port_ranges net a
            (append_text alias ":80")
            m)
        ≡ false
      → is_empty (translate_destination_alias_to_machine_ips net a alias m) ≡ false
  unfolding translation_destination_alias_to_machine_net_port_ranges
  recorder_port alias h =
      cross_ports-is_empty _ (parse_port_ranges "80") (rw (split_last-append alias) at h)

  add_ranges-other :
      (b : Bool) (ranges : List NetPortRange) (rest : List NetPortRange × List NetPortRange)
      → is_empty (add_ranges b ranges rest).1 ≡ false
      → (is_empty ranges ≡ false) ⊎ (is_empty rest.1 ≡ false)
  add_ranges-other true ranges (self, other) h = inr h
  add_ranges-other false [] (self, other) h = inr h
  add_ranges-other false (r ∷ rs) (self, other) h = inl refl

  -- Where the rules for recorders have a destination port, a recorder's tag stands for the machine.
  pub normalize_ssh_recorders-reached :
      (recorders : List String)
      → is_empty
          (translate_destination_aliases_to_machine_net_port_ranges net a
            (normalize_ssh_recorders recorders)
            m).1
        ≡ false
      → Any IsReachedRecorder recorders
  unfolding normalize_ssh_recorders translate_destination_aliases_to_machine_net_port_ranges
  normalize_ssh_recorders-reached [] h = cc
  normalize_ssh_recorders-reached (alias ∷ aliases) h =
      elim (Bool-cases (starts_with alias "tag:")) [
        | inl tagged ↦ elim (add_ranges-other _ _ _ (rw tagged at h)) [
          | inl here ↦ inl (tagged, recorder_port alias here)
          | inr later ↦ inr (normalize_ssh_recorders-reached aliases later)
        ]
        | inr other ↦ inr (normalize_ssh_recorders-reached aliases (rw other at h))
      ]

  not_self :
      (alias : String) → starts_with alias "tag:" ≡ true → str_eq alias auto_group_self ≡ false
  not_self alias h = elim (Bool-cases (str_eq alias auto_group_self)) [
    | inl e ↦ cc (rw ((eq_iff alias auto_group_self).0 e) at h)
    | inr e ↦ e
  ]

  is_other : String → String → Bool
  is_other x alias = not (str_eq alias auto_group_self) && stands_for net a m x alias

  recorder_is_other :
      (alias x : String)
      → starts_with alias "tag:" ≡ true
      → stands_for net a m x alias ≡ true
      → is_other x alias ≡ true
  unfolding is_other
  recorder_is_other alias x tagged found = rw (not_self alias tagged) found

  -- Such a recorder is among the other destinations of the recorders taken as they are written.
  pub recorder-other :
      (recorders : List String)
      → Any IsReachedRecorder recorders
      → is_empty (translate_destination_aliases_to_machine_ips net a recorders m).1 ≡ false
  unfolding is_other
  recorder-other recorders h =
      let (alias, at, (tagged, stands)) = Any_witness recorders h in
      let (x, found) = some-contains _ stands in
      let ok = recorder_is_other alias x tagged found in
      let here : Any (λ r. is_other x r ≡ true) recorders =
        Any-map recorders (λ r e. subst (λ s. is_other x s ≡ true) (sym e) ok) at in
      not-empty_of_contains _ x (
        rw (contains-translate_destination_aliases net a m recorders x).1
          (any_of_Any _ recorders here))
