-- ===== src/Domain/Proxy/Expiry.antt =====
-- What an address's end of validity says at a time.
use envoy_trade.Common.{
  zero, suc, List, [], ◌∷◌, ◌≡◌, arith, Bool, String, ◌||◌, ◌&&◌, not, str_eq, eq_iff, pos, leb_ℤ,
  ltb_ℤ, ltb, ◌-ℤ◌, Bool-cases, inl, inr, refl, ◌==◌, false, if◌then◌else◌,
}
use envoy_trade.Common.Words.{is_blank}
use envoy_trade.Domain.Types.{Instant}
use envoy_trade.Domain.Proxy.{
  Library, expiring_soon, expired, expiry_active, ProxyIp, duration, compute_expiry, counted_status,
}

module _ (L : Library) (now : Instant) where
  -- Without an end, or with an end before now, it is expired; else it expires soon where 15 days or less
  -- are left.
  abbrev pub status_at : Instant → String
  status_at until =
      if until == 0 || ltb until now
      then expired
      else if leb_ℤ (L.float_days (duration until now)) (pos 15)
      then expiring_soon
      else expiry_active

  past : (until : Instant) → ltb_ℤ (duration until now) (pos 0) ≡ ltb until now
  unfolding duration ◌-ℤ◌
  past until = ground arith

  pub compute_expiry_status : (until : Instant) → (compute_expiry L until now).1 ≡ status_at until
  unfolding compute_expiry
  compute_expiry_status until = elim (Bool-cases (until == 0)) [
    | inl z ↦ rw z refl
    | inr n ↦ elim (Bool-cases (ltb until now)) [
      | inl b ↦ rw (n, past until, b) refl
      | inr b ↦
          rw (n, past until, b)
            (elim (Bool-cases (leb_ℤ (L.float_days (duration until now)) (pos 15))) [
              | inl d ↦ rw d refl
              | inr d ↦ rw d refl
            ])
    ]
  ]

  -- The status is the one that is stored, or none is stored and the end that is set gives it.
  abbrev pub has_status : String → ProxyIp → Bool
  has_status status ip =
      str_eq ip.expiry_status status
      || (str_eq ip.expiry_status ""
          && not (ip.valid_until == 0)
          && str_eq (status_at ip.valid_until) status)

  pub counted_status_is :
      (status : String) (ip : ProxyIp)
      → is_blank status ≡ false
      → str_eq (counted_status L now ip) status ≡ has_status status ip
  unfolding counted_status is_blank
  counted_status_is status ip h = ground (
    arith,
    h,
    eq_iff ip.expiry_status "",
    eq_iff status "",
    eq_iff ip.expiry_status status,
    compute_expiry_status ip.valid_until,
  )

-- The time as of which is counted: the first one given, if it is set, else the clock's.
abbrev pub as_of : Instant → List Instant → Instant
as_of clock [] = clock
as_of clock (zero ∷ ts) = clock
as_of clock (suc t ∷ ts) = suc t
