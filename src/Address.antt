-- ===== src/Address.antt =====
-- internal/addr/addr.go: the selection of a free address for a machine.
-- The range that init prepares, its number of addresses, the n-th of them (cidr.HostBig, `none` on
-- an error), and the two questions to tsaddr are fields of `Range`; the random number is an argument.
-- The loop runs on fuel, one unit for each candidate.
pub mod Search
use ionskale.Prelude.{ℕ, zero, suc, ◌+◌, ◌%◌, Bool, true, false, Option, none, some, if◌then◌else◌}
use ionskale.Netip.{Addr}

pub record Range : Type 0 where
  pub ipv4_count : ℕ
  pub host_big : ℕ → Option Addr
  pub is_tailscale_ip : Addr → Bool
  pub tailscale4_to6 : Addr → Addr

-- `Predicate`: `none` is an error.
abbrev pub Predicate : Type 0
Predicate = Addr → Option Bool

-- How the search for one address stands. `searching` is left only where the fuel ran out.
pub data Selection {ℓ} (A : Type ℓ) : Type ℓ where
  selected : A → Selection A
  failed : Selection A
  searching : Selection A

-- What one round does with a candidate and its check, `rest` being the rounds that follow.
abbrev pub settle : Addr → Option Bool → Selection Addr → Selection Addr
settle ip none rest = failed
settle ip (some true) rest = selected ip
settle ip (some false) rest = rest

module _ (range : Range) where
  open range use {ipv4_count, host_big, is_tailscale_ip, tailscale4_to6}

  -- The predicate is nil where the caller has none.
  unfoldable pub validate_ip : Addr → Option Predicate → Option Bool
  validate_ip ip none = if is_tailscale_ip ip then some true else some false
  validate_ip ip (some p) = if is_tailscale_ip ip then p ip else some false

  abbrev pub try_host : Option Predicate → Option Addr → Selection Addr → Selection Addr
  unfolding validate_ip
  try_host p none rest = failed
  try_host p (some ip) rest = settle ip (validate_ip ip p) rest

  unfoldable pub select_from : Option Predicate → ℕ → ℕ → Selection Addr
  unfolding validate_ip
  select_from p zero n = searching
  select_from p (suc fuel) n =
      let rest = select_from p fuel ((n + 1) % ipv4_count) in try_host p (host_big n) rest

  -- `selectIP`, with the number that `util.RandUint64(ipv4Count)` gave.
  unfoldable pub select_ip4 : Option Predicate → ℕ → Selection Addr
  unfolding select_from
  select_ip4 p n = select_from p ipv4_count n

  abbrev pub with_ip6 : Selection Addr → Selection (Addr × Addr)
  with_ip6 (selected ip4) = selected (ip4, tailscale4_to6 ip4)
  with_ip6 failed = failed
  with_ip6 searching = searching

  unfoldable pub select_ip : Option Predicate → ℕ → Selection (Addr × Addr)
  unfolding select_ip4
  select_ip p n = with_ip6 (select_ip4 p n)
