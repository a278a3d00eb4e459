-- ===== src/Domain/Proxy/Valid.antt =====
-- What ParseAndValidateProxyIP lets in.
use envoy_trade.Common.{◌≡◌, true, false, ◌⊎◌, pos, leb_ℤ, Result, ok, err}
use envoy_trade.Common.Words.{is_blank, has_ink}
use envoy_trade.Domain.Types.{Instant}
use envoy_trade.Domain.Proxy.{Library, ProxyIp, ProxyIpInput}
use envoy_trade.Domain.Proxy.Expiry.{status_at}

module _ (L : Library) (input : ProxyIpInput) (now : Instant) where
  -- What an accepted address satisfies.
  pub record IsValid (p : ProxyIp) : Type 0 where
    pub an_ip : L.is_ip p.ip_address ≡ true
    pub named : has_ink p.ip_address ≡ true
    pub typed : (p.ip_type ≡ "ipv4") ⊎ (p.ip_type ≡ "ipv6")
    pub hosted : has_ink p.host ≡ true
    pub open_port : leb_ℤ p.port (pos 0) ≡ false
    pub planned : is_blank p.plan ≡ false
    pub expiry : p.expiry_status ≡ status_at L now p.valid_until

  abbrev pub Accepted : Result ProxyIp → Type 0
  Accepted (err e) = Unit
  Accepted (ok p) = IsValid p
