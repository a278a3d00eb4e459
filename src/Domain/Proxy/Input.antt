-- ===== src/Domain/Proxy/Input.antt =====
-- proxy.go: ParseProxyTimestamp and ParseAndValidateProxyIP.
use envoy_trade.Common.{
  false, ◌&&◌, not, String, str_eq, contains, Option, none, some, List, [], ◌∷◌, pos, leb_ℤ, Result,
  ok, err, other, ◌==◌, if◌then◌else◌,
}
use envoy_trade.Common.Fallible.{◌>>=◌, wrapped}
use envoy_trade.Common.Words.{to_lower, to_upper, trim_space, trim_suffix, is_blank}
use envoy_trade.Domain.Types.{Instant}
use envoy_trade.Domain.Proxy.{
  Library, ProxyIp, ProxyIpInput, normalize_whitelisted_brokers, compute_expiry,
}

module _ (L : Library) where
  unfoldable pub try_layouts : List String → String → Option Instant
  try_layouts [] s = none
  try_layouts (layout ∷ layouts) s =
      let rest = try_layouts layouts s in
      elim (L.parse_in_ist layout s) [ ok t ↦ some t | err e ↦ rest ]

  abbrev pub layouts : List String
  layouts = "2006-01-02 15:04:05" ∷ "2006-01-02 15:04" ∷ "2006-01-02" ∷ []

  unfoldable pub try_rfc3339 : String → Result Instant
  try_rfc3339 trimmed = elim (L.parse L.rfc3339 trimmed) [
    | ok t ↦ ok t
    | err e ↦ elim (L.parse L.rfc3339_nano trimmed) [
      | ok t ↦ ok t
      | err f ↦ err (other "unrecognized timestamp format")
    ]
  ]

  unfoldable pub parse_trimmed : String → Result Instant
  parse_trimmed trimmed =
      let clean = trim_space (trim_suffix (trim_suffix trimmed " (IST)") "(IST)") in
      elim (try_layouts layouts clean) [ some t ↦ ok t | none ↦ try_rfc3339 trimmed ]

  -- ParseProxyTimestamp
  unfoldable pub parse_proxy_timestamp : String → Result Instant
  parse_proxy_timestamp raw =
      let trimmed = trim_space raw in if is_blank trimmed then ok 0 else parse_trimmed trimmed

  unfoldable pub ip_type_of : String → String → Result String
  ip_type_of ip raw =
      let ip_type = to_lower (trim_space raw) in
      if is_blank ip_type
      then ok (if contains ip ":" then "ipv6" else "ipv4")
      else if not (str_eq ip_type "ipv4") && not (str_eq ip_type "ipv6")
      then err (other "invalid IP type, must be ipv4 or ipv6")
      else ok ip_type

  unfoldable pub required : String → String → Result String
  required s message = if is_blank s then err (other message) else ok s

  unfoldable pub checked_ip : String → Result String
  checked_ip ip = if L.is_ip ip then ok ip else err (other "invalid IP address format")

  -- the first text that is not blank, both trimmed
  abbrev pub first_of : String → String → String
  first_of a b = if is_blank (trim_space a) then trim_space b else trim_space a

  unfoldable pub plan_of : String → String
  plan_of raw = let plan = to_upper (trim_space raw) in if is_blank plan then "QUARTERLY" else plan

  unfoldable pub proxy_of :
      ProxyIpInput → Instant → String → String → String → Instant → Instant → ProxyIp
  proxy_of input now ip ip_type host valid_from valid_until = record {
    ip_address = ip;
    ip_type = ip_type;
    host = host;
    port = if leb_ℤ input.port (pos 0) then pos 443 else input.port;
    username = first_of input.user_id input.username;
    password = trim_space input.password;
    whitelisted_brokers =
        normalize_whitelisted_brokers
          (first_of input.whitelisted_brokers input.whitelisted_brokers_camel);
    valid_from = valid_from;
    valid_until = valid_until;
    plan = plan_of input.plan;
    created_at = now;
    is_assigned = false;
    assigned_account_id = none;
    assigned_account_name = none;
    days_remaining = (compute_expiry L valid_until now).0;
    expiry_status = (compute_expiry L valid_until now).1;
  }

  -- a zero instant is replaced
  abbrev pub or_default : Instant → Instant → Instant
  or_default t u = if t == 0 then u else t

  unfoldable pub with_until :
      ProxyIpInput → Instant → String → String → String → Instant → Instant → Result ProxyIp
  with_until input now ip ip_type host valid_from parsed_until = ok (
      proxy_of input now ip ip_type host valid_from
        (or_default parsed_until (L.add_quarter valid_from)))

  unfoldable pub with_from :
      ProxyIpInput → Instant → String → String → String → Instant → Result ProxyIp
  with_from input now ip ip_type host parsed_from =
      wrapped "invalid valid_until" (parse_proxy_timestamp input.valid_until)
      >>= with_until input now ip ip_type host (or_default parsed_from now)

  -- ParseAndValidateProxyIP
  unfoldable pub parse_and_validate_proxy_ip : ProxyIpInput → Instant → Result ProxyIp
  parse_and_validate_proxy_ip input now = do
    given ← required (trim_space input.ip) "IP address is required"
    ip ← checked_ip given
    ip_type ← ip_type_of ip input.type
    host ← required (trim_space input.host) "host is required"
    parsed_from ← wrapped "invalid valid_from" (parse_proxy_timestamp input.valid_from)
    with_from input now ip ip_type host parsed_from
