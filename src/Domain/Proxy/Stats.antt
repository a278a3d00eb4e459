-- ===== src/Domain/Proxy/Stats.antt =====
-- ComputeProxyIPStats counts what it says, address by address.
use envoy_trade.Common.{
  ℕ, suc, ◌+◌, ◌≡◌, refl, sym, ap, subst, ◌∙◌, arith, Bool, true, false, ◌&&◌, ◌||◌, String, str_eq,
  eq_iff, List, [], ◌∷◌, length, count_if, if◌then◌else◌, not,
}
use envoy_trade.Common.Words.{to_lower, trim_space, is_blank}
use envoy_trade.Domain.Types.{Instant}
use envoy_trade.Domain.Proxy.Expiry.{has_status, counted_status_is}
use envoy_trade.Domain.Proxy.{
  Library, expiring_soon, expired, ProxyIp, ProxyIpStats, counted_status, count_assignment,
  count_type, count_if_assigned, count_expiry, count_ip, count_ips, no_stats,
}

abbrev pub has_type : String → ProxyIp → Bool
has_type type ip = str_eq (to_lower (trim_space ip.ip_type)) type

str_eq_other : (s a b : String) → str_eq a b ≡ false → str_eq s a ≡ true → str_eq s b ≡ false
str_eq_other s a b h e = subst (λ t. str_eq t b ≡ false) (sym ((eq_iff s a).0 e)) h

module _ (L : Library) (now : Instant) where
  abbrev pub needs_renewal : ProxyIp → Bool
  needs_renewal ip =
      ip.is_assigned && (has_status L now expiring_soon ip || has_status L now expired ip)

  -- The counts of the addresses that are of each kind.
  pub record Counts (ips : List ProxyIp) (s : ProxyIpStats) : Type 0 where
    pub all : s.total_count ≡ length ips
    pub halves : s.assigned_count + s.available_count ≡ length ips
    pub assigned : s.assigned_count ≡ count_if (λ (ip : ProxyIp). ip.is_assigned) ips
    pub ipv4 : s.ipv4_count ≡ count_if (has_type "ipv4") ips
    pub ipv6 : s.ipv6_count ≡ count_if (has_type "ipv6") ips
    pub soon : s.expiring_soon_count ≡ count_if (has_status L now expiring_soon) ips
    pub over : s.expired_count ≡ count_if (has_status L now expired) ips
    pub renewals : s.assigned_expiring ≡ count_if needs_renewal ips

  measured :
      (f : ProxyIpStats → ℕ) (p : ProxyIp → Bool)
      → ((ip : ProxyIp) (s : ProxyIpStats)
          → f (count_ip L now ip s) ≡ (if p ip then suc (f s) else f s))
      → (ips : List ProxyIp) (s : ProxyIpStats) → f (count_ips L now ips s) ≡ f s + count_if p ips
  unfolding count_ips
  measured f p h [] s = omega arith
  measured f p h (ip ∷ ips) s = ground (arith, h ip s, measured f p h ips (count_ip L now ip s))

  counted :
      (f : ProxyIpStats → ℕ) (p : ProxyIp → Bool) (ips : List ProxyIp)
      → ((ip : ProxyIp) (s : ProxyIpStats)
          → f (count_ip L now ip s) ≡ (if p ip then suc (f s) else f s))
      → f (no_stats L (length ips)) ≡ 0
      → f (count_ips L now ips (no_stats L (length ips))) ≡ count_if p ips
  counted f p ips h z = omega (arith, z, measured f p h ips (no_stats L (length ips)))

  total_step : (ip : ProxyIp) (s : ProxyIpStats) → (count_ip L now ip s).total_count ≡ s.total_count
  unfolding count_ip count_expiry count_type count_assignment count_if_assigned
  total_step ip s = ground arith

  assigned_step :
      (ip : ProxyIp) (s : ProxyIpStats)
      → (count_ip L now ip s).assigned_count
        ≡ (if ip.is_assigned then suc s.assigned_count else s.assigned_count)
  unfolding count_ip count_expiry count_type count_assignment count_if_assigned
  assigned_step ip s = ground arith

  available_step :
      (ip : ProxyIp) (s : ProxyIpStats)
      → (count_ip L now ip s).available_count
        ≡ (if not ip.is_assigned then suc s.available_count else s.available_count)
  unfolding count_ip count_expiry count_type count_assignment count_if_assigned
  available_step ip s = ground arith

  ipv4_step :
      (ip : ProxyIp) (s : ProxyIpStats)
      → (count_ip L now ip s).ipv4_count
        ≡ (if has_type "ipv4" ip then suc s.ipv4_count else s.ipv4_count)
  unfolding count_ip count_expiry count_type count_assignment count_if_assigned
  ipv4_step ip s = ground arith

  ipv6_step :
      (ip : ProxyIp) (s : ProxyIpStats)
      → (count_ip L now ip s).ipv6_count
        ≡ (if has_type "ipv6" ip then suc s.ipv6_count else s.ipv6_count)
  unfolding count_ip count_expiry count_type count_assignment count_if_assigned
  ipv6_step ip s =
      ground (arith, str_eq_other (to_lower (trim_space ip.ip_type)) "ipv4" "ipv6" refl)

  soon_step :
      (ip : ProxyIp) (s : ProxyIpStats)
      → (count_ip L now ip s).expiring_soon_count ≡ (
          if has_status L now expiring_soon ip
          then suc s.expiring_soon_count
          else s.expiring_soon_count)
  unfolding count_ip count_expiry count_type count_assignment count_if_assigned is_blank
  soon_step ip s =
      subst
        (λ b.
          (count_ip L now ip s).expiring_soon_count
          ≡ (if b then suc s.expiring_soon_count else s.expiring_soon_count))
        (counted_status_is L now expiring_soon ip refl) (ground arith)

  over_step :
      (ip : ProxyIp) (s : ProxyIpStats)
      → (count_ip L now ip s).expired_count
        ≡ (if has_status L now expired ip then suc s.expired_count else s.expired_count)
  unfolding count_ip count_expiry count_type count_assignment count_if_assigned is_blank
  over_step ip s =
      subst
        (λ b.
          (count_ip L now ip s).expired_count
          ≡ (if b then suc s.expired_count else s.expired_count))
        (counted_status_is L now expired ip refl)
        (ground (arith, str_eq_other (counted_status L now ip) expiring_soon expired refl))

  renewal_step :
      (ip : ProxyIp) (s : ProxyIpStats)
      → (count_ip L now ip s).assigned_expiring
        ≡ (if needs_renewal ip then suc s.assigned_expiring else s.assigned_expiring)
  unfolding count_ip count_expiry count_type count_assignment count_if_assigned is_blank
  renewal_step ip s =
      subst
        (λ b.
          (count_ip L now ip s).assigned_expiring
          ≡ (if ip.is_assigned && b then suc s.assigned_expiring else s.assigned_expiring))
        (ap (λ b. b || str_eq (counted_status L now ip) expired)
            (counted_status_is L now expiring_soon ip refl)
          ∙ ap (λ b. has_status L now expiring_soon ip || b)
              (counted_status_is L now expired ip refl))
        (ground arith)

  total_kept :
      (ips : List ProxyIp) (s : ProxyIpStats) → (count_ips L now ips s).total_count ≡ s.total_count
  unfolding count_ips
  total_kept [] s = refl
  total_kept (ip ∷ ips) s = total_kept ips (count_ip L now ip s) ∙ total_step ip s

  halves_make_all :
      (p : ProxyIp → Bool) (ips : List ProxyIp)
      → count_if p ips + count_if (λ ip. not (p ip)) ips ≡ length ips
  halves_make_all p [] = omega arith
  halves_make_all p (ip ∷ ips) = ground (arith, halves_make_all p ips)

  pub count_ips-Counts :
      (ips : List ProxyIp) → Counts ips (count_ips L now ips (no_stats L (length ips)))
  count_ips-Counts ips =
      let is_assigned = λ (ip : ProxyIp). ip.is_assigned in
      let assigned = counted (λ t. t.assigned_count) is_assigned ips assigned_step refl in
      record {
        all = total_kept ips (no_stats L (length ips));
        halves = omega (
          arith,
          assigned,
          halves_make_all is_assigned ips,
          counted (λ t. t.available_count) (λ ip. not (is_assigned ip)) ips available_step refl,
        );
        assigned = assigned;
        ipv4 = counted (λ t. t.ipv4_count) (has_type "ipv4") ips ipv4_step refl;
        ipv6 = counted (λ t. t.ipv6_count) (has_type "ipv6") ips ipv6_step refl;
        soon =
            counted (λ t. t.expiring_soon_count) (has_status L now expiring_soon) ips soon_step
              refl;
        over = counted (λ t. t.expired_count) (has_status L now expired) ips over_step refl;
        renewals = counted (λ t. t.assigned_expiring) needs_renewal ips renewal_step refl;
      }
