-- ===== src/Tests/Addresses.antt =====
-- Proxy addresses and account statuses.
use envoy_trade.Common.{
  ◌+◌, ◌≡◌, refl, Bool, true, false, String, none, List, [], ◌∷◌, pos, err, ok, other,
}
use envoy_trade.Common.Words.{to_lower, trim_space, split_at, join_with, is_blank}
use envoy_trade.Domain.Status.{IsClean, sanitize_auth_error, sanitize_auth_error-IsClean}
use envoy_trade.Domain.Proxy.{
  Library, ProxyIp, ProxyIpInput, normalize_whitelisted_brokers, normalized_names, normalized_name,
  matches_broker, broker_alias,
}

-- Every instant is ten days away, and every date is read.
abbrev pub library : Library
library = record {
  float_days = λ d. pos 10;
  parse_in_ist = λ layout s. ok 1000;
  parse = λ layout s. err (other "no");
  rfc3339 = "2006-01-02T15:04:05Z07:00";
  rfc3339_nano = "2006-01-02T15:04:05.999999999Z07:00";
  is_ip = λ s. true;
  add_quarter = λ t. t + 90;
}

abbrev input : ProxyIpInput
input = record {
  ip = " 10.0.0.7 ";
  host = "proxy.example";
  port = pos 0;
  user_id = "";
  username = "u";
  password = "p";
  whitelisted_brokers = "kite, dhan,,Other";
  whitelisted_brokers_camel = "";
  whitelisted_ip = "";
  valid_from = "2026-01-02";
  valid_until = "";
  plan = "";
  status = "";
  type = "";
}

abbrev pub address : String → Bool → String → ProxyIp
address type assigned status = record {
  ip_address = "10.0.0.7";
  ip_type = type;
  host = "proxy.example";
  port = pos 443;
  username = "";
  password = "";
  whitelisted_brokers = "kite, dhan,,Other";
  valid_from = 1;
  valid_until = 90;
  plan = "QUARTERLY";
  created_at = 1;
  is_assigned = assigned;
  assigned_account_id = none;
  assigned_account_name = none;
  days_remaining = pos 0;
  expiry_status = status;
}

abbrev addresses : List ProxyIp
addresses =
    address "IPv4" true "" ∷ address "ipv6" false "expired" ∷ address "ipv5" true "active" ∷ []

sanitize_auth_error-IsClean_example :
    IsClean (sanitize_auth_error " POST https://api.kite.trade/session/token: 401 ")
sanitize_auth_error-IsClean_example =
    sanitize_auth_error-IsClean " POST https://api.kite.trade/session/token: 401 "

names : normalize_whitelisted_brokers "kite, dhan,,Other" ≡ "Zerodha, Dhan, Other"
unfolding normalize_whitelisted_brokers normalized_names normalized_name to_lower trim_space
    split_at join_with is_blank
names = refl

kite_matches : matches_broker (address "ipv4" true "") " Kite " ≡ true
unfolding matches_broker broker_alias to_lower trim_space split_at is_blank
kite_matches = refl
