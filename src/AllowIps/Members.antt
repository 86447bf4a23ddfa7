-- ===== src/AllowIps/Members.antt =====
-- internal/domain/machine.go: which prefixes are in an AllowIPsSet after its operations.
use ionskale.Prelude.{
  ==_iff, eq_iff, arith, ◌≡◌, refl, List, [], ◌∷◌, ◌++◌, Bool, true, false, not, ◌&&◌, ◌||◌,
  Bool-cases, inl, inr, eq_refl, sym, subst, ap,
}
use ionskale.Netip.{Addr, Prefix, same_prefix, same_addr, same_bool}
use ionskale.AllowIps.{has_prefix, put, put_all, drop, drop_all}

same_bool_iff : (a b : Bool) → same_bool a b ≡ true → a ≡ b
same_bool_iff a b h = ground arith

pub same_addr_eq : (a b : Addr) → same_addr a b ≡ true → a ≡ b
unfolding same_addr
same_addr_eq a b h =
    ground (arith, eq_iff a.zone b.zone, ==_iff a.value b.value, same_bool_iff a.is4 b.is4)

pub same_prefix_eq : (p q : Prefix) → same_prefix p q ≡ true → p ≡ q
unfolding same_addr
same_prefix_eq p q h = ground (arith, same_addr_eq p.addr q.addr, ==_iff p.bits q.bits)

pub same_prefix_refl : (p : Prefix) → same_prefix p p ≡ true
unfolding same_addr
same_prefix_refl p = ground (arith, eq_refl p.addr.zone)

has_prefix-append :
    (ps qs : List Prefix) (p : Prefix)
    → has_prefix (ps ++ qs) p ≡ (has_prefix ps p || has_prefix qs p)
unfolding has_prefix
has_prefix-append [] qs p = refl
has_prefix-append (x ∷ ps) qs p = ground (arith, has_prefix-append ps qs p)

has_prefix-put :
    (ps : List Prefix) (v p : Prefix)
    → has_prefix (put ps v) p ≡ (has_prefix ps p || same_prefix v p)
unfolding has_prefix
has_prefix-put ps v p = ground (arith, has_prefix-append ps (v ∷ []) p, same_prefix_eq v p)

pub has_prefix-put_all :
    (ps vs : List Prefix) (p : Prefix)
    → has_prefix (put_all ps vs) p ≡ (has_prefix ps p || has_prefix vs p)
unfolding has_prefix
has_prefix-put_all ps [] p = ground arith
has_prefix-put_all ps (v ∷ vs) p =
    ground (arith, has_prefix-put_all (put ps v) vs p, has_prefix-put ps v p)

same_key : (q v p : Prefix) → same_prefix q v ≡ true → same_prefix q p ≡ same_prefix v p
same_key q v p h = ap (λ r. same_prefix r p) (same_prefix_eq q v h)

same_as_both :
    (q v p : Prefix) → same_prefix q p ≡ true → same_prefix v p ≡ true → same_prefix q v ≡ true
same_as_both q v p h k = subst (λ r. same_prefix q r ≡ true) (sym (same_prefix_eq v p k)) h

-- One key dropped, and one kept.
dropped_key : (b c d rest : Bool) → b ≡ c → rest ≡ (d && not c) → rest ≡ ((b || d) && not c)
dropped_key b c d rest h e = ground arith

kept_key :
    (a b c d rest : Bool)
    → a ≡ false
    → (b ≡ true → c ≡ true → a ≡ true)
    → rest ≡ (d && not c)
    → (b || rest) ≡ ((b || d) && not c)
kept_key a b c d rest f h e = ground arith

has_prefix-drop :
    (ps : List Prefix) (v p : Prefix)
    → has_prefix (drop ps v) p ≡ (has_prefix ps p && not (same_prefix v p))
unfolding has_prefix
has_prefix-drop [] v p = refl
has_prefix-drop (q ∷ ps) v p = elim (Bool-cases (same_prefix q v)) [
  | inl e ↦ rw e (
      dropped_key (same_prefix q p) (same_prefix v p) (has_prefix ps p) (has_prefix (drop ps v) p)
        (same_key q v p e) (has_prefix-drop ps v p))
  | inr e ↦ rw e (
      kept_key (same_prefix q v) (same_prefix q p) (same_prefix v p) (has_prefix ps p)
        (has_prefix (drop ps v) p) e (same_as_both q v p) (has_prefix-drop ps v p))
]

pub has_prefix-drop_all :
    (ps vs : List Prefix) (p : Prefix)
    → has_prefix (drop_all ps vs) p ≡ (has_prefix ps p && not (has_prefix vs p))
unfolding has_prefix
has_prefix-drop_all ps [] p = ground arith
has_prefix-drop_all ps (v ∷ vs) p =
    ground (arith, has_prefix-drop_all (drop ps v) vs p, has_prefix-drop ps v p)
