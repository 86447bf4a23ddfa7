-- ===== src/Address/Search.antt =====
-- The search of internal/addr/addr.go for an address: it goes once round the range, from the random
-- number on, and ends at the first candidate that is free.
use native.Mathlib.Nat.{mod-lt, mod-eq_of_lt, mod-add-mod, add-mod_right}
use ionskale.Prelude.{
  ℕ, zero, suc, ◌+◌, ◌-◌, ◌%◌, ◌<◌, ◌≡◌, refl, sym, ap, subst, ◌∙◌, Bool, true, false, Option, some,
  ◌⊎◌, inl, inr, arith, leb, Bool-cases, Option-cases,
}
use ionskale.Netip.{Addr}
use ionskale.Address.{
  Range, Predicate, Selection, selected, failed, searching, validate_ip, select_from, select_ip4,
  select_ip, try_host, settle, with_ip6,
}

settled :
    (ip a : Addr) (b : Option Bool) (rest : Selection Addr)
    → settle ip b rest ≡ selected a
    → ((ip ≡ a) × (b ≡ some true)) ⊎ (rest ≡ selected a)
settled ip a b rest h = ground arith

module _ (range : Range) where
  open range use {ipv4_count, host_big, is_tailscale_ip, tailscale4_to6}

  -- The n-th address of the range passes the check of `validateIP`.
  abbrev pub IsFree : Option Predicate → ℕ → Type 0
  IsFree p n = (ip : Addr) × (host_big n ≡ some ip) × (validate_ip range ip p ≡ some true)

  -- `ip` is the candidate `d` steps after the n-th, it is free, and no candidate between is.
  abbrev pub IsFirstFree : Option Predicate → ℕ → ℕ → Addr → Type 0
  IsFirstFree p n d ip =
      (host_big ((n + d) % ipv4_count) ≡ some ip)
      × (validate_ip range ip p ≡ some true)
      × ((e : ℕ) → e < d → IsFree p ((n + e) % ipv4_count) → ⊥)

  -- Each number below the count has its address, and the check of no address is an error.
  abbrev pub NeverFails : Option Predicate → Type 0
  NeverFails p =
      ((n : ℕ) → n < ipv4_count → (ip : Addr) × (host_big n ≡ some ip))
      × ((ip : Addr) → (b : Bool) × (validate_ip range ip p ≡ some b))

  next_mod : (n e : ℕ) → ((n + 1) % ipv4_count + e) % ipv4_count ≡ (n + suc e) % ipv4_count
  next_mod n e =
      mod-add-mod (n + 1) ipv4_count e
      ∙ ap (λ k. k % ipv4_count) (let same : n + 1 + e ≡ n + suc e = omega arith in same)

  at_start : (n : ℕ) → n < ipv4_count → (n + 0) % ipv4_count ≡ n
  at_start n h =
      ap (λ k. k % ipv4_count) (let same : n + 0 ≡ n = omega arith in same) ∙ mod-eq_of_lt h

  not_free :
      (p : Option Predicate) (n : ℕ) (ip : Addr)
      → host_big n ≡ some ip
      → validate_ip range ip p ≡ some false
      → IsFree p n
      → ⊥
  not_free p n ip h v (other, g, w) = cc

  -- The rest of the search, where the candidate at its start is not free.
  first_after :
      (p : Option Predicate) (n d : ℕ) (ip : Addr)
      → n < ipv4_count
      → (IsFree p n → ⊥)
      → IsFirstFree p ((n + 1) % ipv4_count) d ip
      → IsFirstFree p n (suc d) ip
  first_after p n d ip h none_here (found, valid, none_between) =
      (ap host_big (sym (next_mod n d)) ∙ found, valid, earlier)
    where
      earlier : (e : ℕ) → e < suc d → IsFree p ((n + e) % ipv4_count) → ⊥
      earlier zero l f = none_here (subst (IsFree p) (at_start n h) f)
      earlier (suc e) l f = none_between e (omega arith) (subst (IsFree p) (sym (next_mod n e)) f)

  -- What the search gives, from the n-th candidate on.
  abbrev Finds : Option Predicate → ℕ → Selection Addr → Type 0
  Finds p n found = (e : ℕ) × (ip : Addr) × (found ≡ selected ip) × IsFirstFree p n e ip

  found_here :
      (p : Option Predicate) (n : ℕ) (ip : Addr) (rest : Selection Addr)
      → n < ipv4_count
      → host_big n ≡ some ip
      → validate_ip range ip p ≡ some true
      → Finds p n (try_host range p (host_big n) rest)
  unfolding try_host
  found_here p n ip rest h at valid =
      (0, ip, rw (at, valid), (ap host_big (at_start n h) ∙ at, valid, λ e l. absurd (omega arith)))

  found_later :
      (p : Option Predicate) (n : ℕ) (ip : Addr) (rest : Selection Addr)
      → n < ipv4_count
      → host_big n ≡ some ip
      → validate_ip range ip p ≡ some false
      → Finds p ((n + 1) % ipv4_count) rest
      → Finds p n (try_host range p (host_big n) rest)
  unfolding try_host
  found_later p n ip rest h at invalid (e, a, gives, first) =
      (suc e, a, rw (at, invalid) gives, first_after p n e a h (not_free p n ip at invalid) first)

  -- A round, where the candidates that follow are searched well.
  found_round :
      (p : Option Predicate) (fuel n : ℕ) (ip : Addr) (rest : Selection Addr)
      → n < ipv4_count
      → host_big n ≡ some ip
      → ((d : ℕ)
          → d < fuel
          → IsFree p (((n + 1) % ipv4_count + d) % ipv4_count)
          → Finds p ((n + 1) % ipv4_count) rest)
      → (b : Bool) → validate_ip range ip p ≡ some b
      → (d : ℕ) → d < suc fuel
      → IsFree p ((n + d) % ipv4_count)
      → Finds p n (try_host range p (host_big n) rest)
  found_round p fuel n ip rest h at more true valid d l f = found_here p n ip rest h at valid
  found_round p fuel n ip rest h at more false invalid zero l f =
      absurd (not_free p n ip at invalid (subst (IsFree p) (at_start n h) f))
  found_round p fuel n ip rest h at more false invalid (suc d) l f =
      found_later p n ip rest h at invalid
        (more d (omega arith) (subst (IsFree p) (sym (next_mod n d)) f))

  -- With a free candidate within the fuel, the search finds the first one.
  select_from-Finds :
      (p : Option Predicate) (fuel n : ℕ)
      → NeverFails p
      → n < ipv4_count
      → (d : ℕ) → d < fuel
      → IsFree p ((n + d) % ipv4_count)
      → Finds p n (select_from range p fuel n)
  unfolding select_from
  select_from-Finds p zero n safe h d l f = absurd (omega arith)
  select_from-Finds p (suc fuel) n safe h d l f =
      let next = (n + 1) % ipv4_count in
      let (ip, at) = (safe.0) n h in
      let (b, valid) = (safe.1) ip in
      found_round p fuel n ip (select_from range p fuel next) h at
        (select_from-Finds p fuel next safe (mod-lt (n + 1) (omega arith))) b valid d l f

  -- The steps from the n-th candidate to the k-th, once round the range at most.
  steps_to :
      (n k : ℕ)
      → n < ipv4_count
      → k < ipv4_count
      → (d : ℕ) × (d < ipv4_count) × ((n + d) % ipv4_count ≡ k)
  steps_to n k h l = elim (Bool-cases (leb n k)) [
    | inl e ↦ (
      k - n,
      omega arith,
      ap (λ j. j % ipv4_count) (let s : n + (k - n) ≡ k = ground arith in s) ∙ mod-eq_of_lt l,
    )
    | inr e ↦ (
      k + ipv4_count - n,
      ground arith,
      ap (λ j. j % ipv4_count)
            (let s : n + (k + ipv4_count - n) ≡ k + ipv4_count = omega arith in s)
          ∙ add-mod_right k ipv4_count
          ∙ mod-eq_of_lt l,
    )
  ]

  -- Where each number below the count has its address, the check of no address is an error, the
  -- random number is below the count, and some address of the range is free: `SelectIP` ends, and
  -- its IPv4 address is the first free one from the random number on, once round the range.
  pub select_ip-IsFirstFree :
      (p : Option Predicate) (n k : ℕ)
      → NeverFails p
      → n < ipv4_count
      → k < ipv4_count
      → IsFree p k
      → (d : ℕ) × (ip : Addr) × (select_ip range p n ≡ selected (ip, tailscale4_to6 ip))
        × IsFirstFree p n d ip
  unfolding select_ip
  select_ip-IsFirstFree p n k safe h l free =
      let (d, near, at) = steps_to n k h l in
      let (e, ip, gives, first) =
        select_from-Finds p ipv4_count n safe h d near (subst (IsFree p) (sym at) free) in
      (e, ip, rw gives refl, first)

  tried :
      (p : Option Predicate) (n : ℕ) (a : Addr) (rest : Selection Addr)
      → try_host range p (host_big n) rest ≡ selected a
      → ((host_big n ≡ some a) × (validate_ip range a p ≡ some true)) ⊎ (rest ≡ selected a)
  unfolding try_host
  tried p n a rest h = elim (Option-cases (host_big n)) [
    | inl e ↦ absurd (let z : failed ≡ selected a = rw e at h in cc)
    | inr (ip, e) ↦ elim (settled ip a (validate_ip range ip p) rest (rw e at h)) [
      | inl (same, valid) ↦
          inl (rw e (ap some same), subst (λ x. validate_ip range x p ≡ some true) same valid)
      | inr later ↦ inr later
    ]
  ]

  select_from-InRange :
      (p : Option Predicate) (fuel n : ℕ) (a : Addr)
      → n < ipv4_count
      → select_from range p fuel n ≡ selected a
      → (k : ℕ) × (k < ipv4_count) × (host_big k ≡ some a) × (validate_ip range a p ≡ some true)
  unfolding select_from
  select_from-InRange p zero n a h e = absurd (let z : searching ≡ selected a = e in cc)
  select_from-InRange p (suc fuel) n a h e =
      elim (tried p n a (select_from range p fuel ((n + 1) % ipv4_count)) e) [
        | inl (at, valid) ↦ (n, h, at, valid)
        | inr later ↦
            select_from-InRange p fuel ((n + 1) % ipv4_count) a (mod-lt (n + 1) (omega arith)) later
      ]

  valid_parts :
      (p : Predicate) (ip : Addr)
      → validate_ip range ip (some p) ≡ some true
      → (is_tailscale_ip ip ≡ true) × (p ip ≡ some true)
  unfolding validate_ip
  valid_parts p ip h = ground arith

  with_ip6-selected :
      (s : Selection Addr) (ip4 ip6 : Addr)
      → with_ip6 range s ≡ selected (ip4, ip6)
      → (s ≡ selected ip4) × (ip6 ≡ tailscale4_to6 ip4)
  with_ip6-selected s ip4 ip6 h = ground arith

  -- From a random number below the count, an IPv4 address that `SelectIP` gives is one of the
  -- range, is a Tailscale address and has passed the predicate, and the IPv6 address is made of it.
  pub select_ip-IsFree :
      (p : Predicate) (n : ℕ) (ip4 ip6 : Addr)
      → n < ipv4_count
      → select_ip range (some p) n ≡ selected (ip4, ip6)
      → ((k : ℕ) × (k < ipv4_count) × (host_big k ≡ some ip4))
        × (is_tailscale_ip ip4 ≡ true)
        × (p ip4 ≡ some true)
        × (ip6 ≡ tailscale4_to6 ip4)
  unfolding select_ip select_ip4
  select_ip-IsFree p n ip4 ip6 h e =
      let (found, made) = with_ip6-selected (select_from range (some p) ipv4_count n) ip4 ip6 e in
      let (k, below, at, valid) = select_from-InRange (some p) ipv4_count n ip4 h found in
      let (tailscale, passed) = valid_parts p ip4 valid in ((k, below, at), tailscale, passed, made)
