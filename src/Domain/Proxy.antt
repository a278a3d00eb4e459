-- ===== src/Domain/Proxy.antt =====
-- internal/domain/proxy.go: the proxy addresses, their expiry, the counts that the portal shows, and the
-- validation of an imported address.
pub mod Expiry
pub mod Stats
pub mod Input
pub mod Valid
use envoy_trade.Common.{
  ℕ, suc, ◌-◌, ◌^◌, Bool, true, false, ◌&&◌, ◌||◌, not, String, str_eq, contains, Option, none,
  some, List, [], ◌∷◌, ◌++◌, any, length, ℤ, pos, negsuc, ◌-ℤ◌, ltb_ℤ, leb_ℤ, Result, ok, err,
  other, ◌==◌, if◌then◌else◌,
}
use envoy_trade.Common.Fallible.{◌>>=◌, ◌>>◌, wrapped}
use envoy_trade.Common.Words.{
  to_lower, to_upper, trim_space, trim_suffix, is_blank, split_at, join_with,
}
use envoy_trade.Domain.Types.{Uuid, Instant}

-- What the file uses of the packages time and net: `float_days` is int(d.Hours() / 24) of a Duration in
-- nanoseconds, in float64; `parse_in_ist` and `parse` are time.ParseInLocation in IST and time.Parse;
-- `is_ip` tells whether net.ParseIP gives an address; `add_quarter` is AddDate(0, 3, 0).
pub record Library : Type 0 where
  pub float_days : ℤ → ℤ
  pub parse_in_ist : String → String → Result Instant
  pub parse : String → String → Result Instant
  pub rfc3339 : String
  pub rfc3339_nano : String
  pub is_ip : String → Bool
  pub add_quarter : Instant → Instant

-- ExpiryStatus's constants
abbrev pub expiry_active : String
expiry_active = "active"

abbrev pub expiring_soon : String
expiring_soon = "expiring_soon"

abbrev pub expired : String
expired = "expired"

-- ProxyIP
pub record ProxyIp : Type 0 where
  pub ip_address : String
  pub ip_type : String
  pub host : String
  pub port : ℤ
  pub username : String
  pub password : String
  pub whitelisted_brokers : String
  pub valid_from : Instant
  pub valid_until : Instant
  pub plan : String
  pub created_at : Instant
  pub is_assigned : Bool
  pub assigned_account_id : Option Uuid
  pub assigned_account_name : Option String
  pub days_remaining : ℤ
  pub expiry_status : String

-- ProxyIPInput
pub record ProxyIpInput : Type 0 where
  pub ip : String
  pub host : String
  pub port : ℤ
  pub user_id : String
  pub username : String
  pub password : String
  pub whitelisted_brokers : String
  pub whitelisted_brokers_camel : String
  pub whitelisted_ip : String
  pub valid_from : String
  pub valid_until : String
  pub plan : String
  pub status : String
  pub type : String

-- ProxyIPStats
pub record ProxyIpStats : Type 0 where
  pub total_count : ℕ
  pub assigned_count : ℕ
  pub available_count : ℕ
  pub ipv4_count : ℕ
  pub ipv6_count : ℕ
  pub expiring_soon_count : ℕ
  pub expired_count : ℕ
  pub assigned_expiring : ℕ

-- Time.Sub, which saturates
unfoldable pub duration : Instant → Instant → ℤ
duration a b =
    let d = pos a -ℤ pos b in
    if ltb_ℤ (pos (2 ^ 63 - 1)) d
    then pos (2 ^ 63 - 1)
    else if ltb_ℤ d (negsuc (2 ^ 63 - 1))
    then negsuc (2 ^ 63 - 1)
    else d

abbrev is_broker_zerodha : String → Bool
is_broker_zerodha lower = str_eq lower "zerodha" || str_eq lower "kite"

abbrev is_broker_test : String → Bool
is_broker_test lower = str_eq lower "testbroker" || str_eq lower "test_broker"

unfoldable pub normalized_name : String → String
normalized_name item =
    let lower = to_lower item in
    if is_broker_zerodha lower
    then "Zerodha"
    else if str_eq lower "dhan"
    then "Dhan"
    else if is_broker_test lower
    then "TestBroker"
    else item

unfoldable pub normalized_names : List String → List String
normalized_names [] = []
normalized_names (part ∷ parts) =
    let rest = normalized_names parts in
    let item = trim_space part in if is_blank item then rest else normalized_name item ∷ rest

-- NormalizeWhitelistedBrokers; a comma has the number 44
unfoldable pub normalize_whitelisted_brokers : String → String
normalize_whitelisted_brokers raw =
    let trimmed = trim_space raw in
    if is_blank trimmed then "" else join_with ", " (normalized_names (split_at 44 trimmed))

unfoldable pub broker_alias : String → String
broker_alias name =
    if str_eq name "kite"
    then "zerodha"
    else if str_eq name "test_broker"
    then "testbroker"
    else name

-- ProxyIP.MatchesBroker
unfoldable pub matches_broker : ProxyIp → String → Bool
matches_broker p broker =
    is_blank (trim_space p.whitelisted_brokers)
    || any
        (λ part.
          str_eq (broker_alias (to_lower (trim_space part)))
            (broker_alias (to_lower (trim_space broker))))
        (split_at 44 p.whitelisted_brokers)

-- ProxyIP.BrokerPriority
unfoldable pub broker_priority : ProxyIp → String → ℕ
broker_priority p broker =
    if not (matches_broker p broker)
    then 0
    else if not (is_blank (trim_space p.whitelisted_brokers))
    then 1
    else 2

module _ (L : Library) where
  -- ComputeExpiry
  unfoldable pub compute_expiry : Instant → Instant → ℤ × String
  compute_expiry valid_until now =
      let diff = duration valid_until now in
      let days = L.float_days diff in
      if valid_until == 0
      then (pos 0, expired)
      else if ltb_ℤ diff (pos 0)
      then (days, expired)
      else if leb_ℤ days (pos 15)
      then (days, expiring_soon)
      else (days, expiry_active)

  -- the expiry status by which an address is counted
  unfoldable pub counted_status : Instant → ProxyIp → String
  counted_status now ip =
      if is_blank ip.expiry_status && not (ip.valid_until == 0)
      then (compute_expiry ip.valid_until now).1
      else ip.expiry_status

  unfoldable pub count_assignment : ProxyIp → ProxyIpStats → ProxyIpStats
  count_assignment ip s =
      if ip.is_assigned
      then record s { assigned_count = suc s.assigned_count }
      else record s { available_count = suc s.available_count }

  unfoldable pub count_type : String → ProxyIpStats → ProxyIpStats
  count_type clean_type s =
      if str_eq clean_type "ipv4"
      then record s { ipv4_count = suc s.ipv4_count }
      else if str_eq clean_type "ipv6"
      then record s { ipv6_count = suc s.ipv6_count }
      else s

  unfoldable pub count_if_assigned : ProxyIp → ProxyIpStats → ProxyIpStats
  count_if_assigned ip s =
      if ip.is_assigned then record s { assigned_expiring = suc s.assigned_expiring } else s

  unfoldable pub count_expiry : ProxyIp → String → ProxyIpStats → ProxyIpStats
  count_expiry ip status s =
      if str_eq status expiring_soon
      then count_if_assigned ip (record s { expiring_soon_count = suc s.expiring_soon_count })
      else if str_eq status expired
      then count_if_assigned ip (record s { expired_count = suc s.expired_count })
      else s

  unfoldable pub count_ip : Instant → ProxyIp → ProxyIpStats → ProxyIpStats
  count_ip now ip s =
      count_expiry ip (counted_status now ip)
        (count_type (to_lower (trim_space ip.ip_type)) (count_assignment ip s))

  unfoldable pub count_ips : Instant → List ProxyIp → ProxyIpStats → ProxyIpStats
  count_ips now [] s = s
  count_ips now (ip ∷ ips) s = count_ips now ips (count_ip now ip s)

  abbrev pub no_stats : ℕ → ProxyIpStats
  no_stats total = record {
    total_count = total;
    assigned_count = 0;
    available_count = 0;
    ipv4_count = 0;
    ipv6_count = 0;
    expiring_soon_count = 0;
    expired_count = 0;
    assigned_expiring = 0;
  }

  -- refTime's first element, if it is set
  abbrev pub reference_time : Instant → List Instant → Instant
  reference_time clock [] = clock
  reference_time clock (t ∷ ts) = if t == 0 then clock else t

  -- ComputeProxyIPStats, with what time.Now() gives
  unfoldable pub compute_proxy_ip_stats : Instant → List ProxyIp → List Instant → ProxyIpStats
  compute_proxy_ip_stats clock ips ref_time =
      count_ips (reference_time clock ref_time) ips (no_stats (length ips))
