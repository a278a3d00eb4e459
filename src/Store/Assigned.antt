-- ===== src/Store/Assigned.antt =====
-- What the operations on proxy addresses keep.
use envoy_trade.Common.{
  ◌≡◌, refl, sym, arith, true, false, ◌&&◌, not, String, str_eq, eq_iff, Option, none, some, List,
  [], ◌∷◌, any, Result, ok, err, not_found, conflict, if_cases, if◌then◌else◌,
}
use envoy_trade.Common.Fallible.{◌>>=◌}
use envoy_trade.Domain.Types.{Uuid, Instant}
use envoy_trade.Domain.Proxy.{Library, ProxyIp}
use envoy_trade.Store.Addresses.{
  ProxyRow, AccountRow, Tables, BulkUploadResult, find_row, drop_row, has_row, is_ip_type, upserted,
  upsert_rows, upsert_row, is_port, with_rows, upsert_proxy_ip, count_row, upsert_each, committed,
  upsert_proxy_ips_batch, changed, if_there, update_proxy_ip, replaced, full_row, row_of,
  update_proxy_ip_full, holds, delete_proxy_ip, is_account, is_taken, with_address,
  set_account_ip_address, find_live, soft_deleted, is_followed, is_linked, delete_live,
  delete_found, delete_account,
}
use envoy_trade.Store.Pool.{
  UniqueRows, upsert-UniqueRows, change-UniqueRows, drop-UniqueRows, find-drop,
}
use envoy_trade.Store.Holders.{UniqueHolders, change-UniqueHolders}

-- An operation, with the clock where it reads it.
pub data PoolEvent : Type 0 where
  upserts : Instant → ProxyIp → PoolEvent
  upserts_batch : Instant → List ProxyIp → PoolEvent
  updates : Instant → String → Instant → String → String → PoolEvent
  updates_full : Instant → ProxyIp → PoolEvent
  deletes : Instant → String → PoolEvent
  assigns : Uuid → String → PoolEvent
  deletes_account : Uuid → PoolEvent

unfoldable pub pool_step : Library → PoolEvent → Tables → Tables
pool_step L (upserts now p) t = (upsert_proxy_ip L now p t).1
pool_step L (upserts_batch now ps) t = (upsert_proxy_ips_batch L now ps t).1
pool_step L (updates now ip until password plan) t =
    (update_proxy_ip L now ip until password plan t).1
pool_step L (updates_full now p) t = (update_proxy_ip_full L now p t).1
pool_step L (deletes now ip) t = (delete_proxy_ip L now ip t).1
pool_step L (assigns id ip) t = (set_account_ip_address id ip t).1
pool_step L (deletes_account id) t = (delete_account id t).1

unfoldable pub pool_run : Library → List PoolEvent → Tables → Tables
pool_run L [] t = t
pool_run L (e ∷ es) t = pool_run L es (pool_step L e t)

-- Each address has one row, and one account at most, and each account one row.
pub record OneToOne (t : Tables) : Type 0 where
  pub rows : UniqueRows t.proxies
  pub holders : UniqueHolders t.accounts

module _ (L : Library) (now : Instant) where
  AreUnique : Result (List ProxyRow) → Type 0
  AreUnique (err e) = Unit
  AreUnique (ok rs) = UniqueRows rs

  upsert_rows-AreUnique :
      (row : ProxyRow) (rs : List ProxyRow) → UniqueRows rs → AreUnique (upsert_rows L now row rs)
  unfolding upsert_rows AreUnique
  upsert_rows-AreUnique row rs u =
      if_cases AreUnique (not (is_port row.port)) _ _ (λ _. tt)
        (λ _.
          if_cases AreUnique (is_ip_type row.ip_type) (ok (upsert_row row rs)) _
            (λ _. upsert-UniqueRows row rs u) (λ _. tt))

  with_rows-OneToOne :
      (t : Tables) (r : Result (List ProxyRow))
      → AreUnique r
      → OneToOne t
      → OneToOne (with_rows L now t r).1
  unfolding AreUnique
  with_rows-OneToOne t (err e) h o = o
  with_rows-OneToOne t (ok rs) h o = record { rows = h; holders = o.holders }

  BatchUnique : Result (BulkUploadResult × List ProxyRow) → Type 0
  BatchUnique (err e) = Unit
  BatchUnique (ok (r, rs)) = UniqueRows rs

  bind-BatchUnique :
      (a : Result (List ProxyRow)) (k : List ProxyRow → Result (BulkUploadResult × List ProxyRow))
      → AreUnique a
      → ((rs : List ProxyRow) → UniqueRows rs → BatchUnique (k rs))
      → BatchUnique (a >>= k)
  unfolding AreUnique BatchUnique
  bind-BatchUnique (err e) k h f = tt
  bind-BatchUnique (ok rs) k h f = f rs h

  upsert_each-BatchUnique :
      (ps : List ProxyIp) (r : BulkUploadResult) (rs : List ProxyRow)
      → UniqueRows rs
      → BatchUnique (upsert_each L now ps r rs)
  unfolding upsert_each
  upsert_each-BatchUnique [] r rs u = unfold BatchUnique in u
  upsert_each-BatchUnique (p ∷ ps) r rs u =
      bind-BatchUnique (upsert_rows L now (upserted L now p) rs)
        (upsert_each L now ps (count_row L now (has_row p.ip_address rs) r))
        (upsert_rows-AreUnique (upserted L now p) rs u)
        (upsert_each-BatchUnique ps (count_row L now (has_row p.ip_address rs) r))

  committed-OneToOne :
      (t : Tables) (r : Result (BulkUploadResult × List ProxyRow))
      → BatchUnique r
      → OneToOne t
      → OneToOne (committed L now t r).1
  unfolding BatchUnique
  committed-OneToOne t (err e) h o = o
  committed-OneToOne t (ok (r, rs)) h o = record { rows = h; holders = o.holders }

  if_there-OneToOne :
      (ip : String) (t : Tables) (rs : List ProxyRow)
      → UniqueRows rs
      → OneToOne t
      → OneToOne (if_there L now ip t rs).1
  if_there-OneToOne ip t rs u o =
      if_cases (λ (r : Result (Unit {0}) × Tables). OneToOne r.1) (has_row ip t.proxies)
        (ok tt, record t { proxies = rs }) (err not_found, t)
        (λ _. record { rows = u; holders = o.holders }) (λ _. o)

  update-OneToOne :
      (ip : String) (until : Instant) (password plan : String) (t : Tables)
      → OneToOne t
      → OneToOne (update_proxy_ip L now ip until password plan t).1
  unfolding update_proxy_ip changed
  update-OneToOne ip until password plan t o =
      if_there-OneToOne ip t _
        (change-UniqueRows ip (changed L now until password plan) (λ r e. refl) t.proxies o.rows) o

  update_full-OneToOne :
      (p : ProxyIp) (t : Tables) → OneToOne t → OneToOne (update_proxy_ip_full L now p t).1
  unfolding update_proxy_ip_full row_of
  update_full-OneToOne p t o =
      if_cases (λ (r : Result (Unit {0}) × Tables). OneToOne r.1)
        (not (is_port (full_row L now p).port)) _ _ (λ _. o)
        (λ _.
          if_cases (λ (r : Result (Unit {0}) × Tables). OneToOne r.1)
            (has_row p.ip_address t.proxies && not (is_ip_type (full_row L now p).ip_type)) _ _
            (λ _. o)
            (λ _.
              if_there-OneToOne p.ip_address t _
                (change-UniqueRows p.ip_address (replaced L now (full_row L now p))
                  (λ r e. sym ((eq_iff r.ip_address p.ip_address).0 e)) t.proxies o.rows)
                o))

  delete-OneToOne :
      (ip : String) (t : Tables) → OneToOne t → OneToOne (delete_proxy_ip L now ip t).1
  unfolding delete_proxy_ip
  delete-OneToOne ip t o =
      if_cases (λ (r : Result (Unit {0}) × Tables). OneToOne r.1) (any (holds L now ip) t.accounts)
        (err conflict, t) _ (λ _. o)
        (λ _.
          if_there-OneToOne ip t (drop_row ip t.proxies) (drop-UniqueRows ip t.proxies o.rows) o)

assign-OneToOne :
    (id : Uuid) (ip : String) (t : Tables)
    → OneToOne t
    → OneToOne (set_account_ip_address id ip t).1
unfolding set_account_ip_address
assign-OneToOne id ip t o =
    if_cases (λ (r : Result (Unit {0}) × Tables). OneToOne r.1)
      (not (any (is_account id) t.accounts)) _ _ (λ _. o)
      (λ _.
        if_cases (λ (r : Result (Unit {0}) × Tables). OneToOne r.1)
          (not (str_eq ip "") && is_taken id ip t.accounts) _ _ (λ _. o)
          (λ h. record {
            rows = o.rows;
            holders =
                change-UniqueHolders id ip (with_address ip) (λ a. refl) (λ a. refl) t.accounts
                  (ground (arith, h)) o.holders;
          }))

delete_live-OneToOne :
    (id : Uuid) (a : AccountRow) (t : Tables) → OneToOne t → OneToOne (delete_live id a t).1
unfolding delete_live
delete_live-OneToOne id a t o =
    let holders =
      change-UniqueHolders id "" soft_deleted (λ b. refl) (λ b. refl) t.accounts refl o.holders in
    if_cases (λ (r : Result (Unit {0}) × Tables). OneToOne r.1) (str_eq a.role "master") _ _
      (λ _.
        if_cases (λ (r : Result (Unit {0}) × Tables). OneToOne r.1) (is_followed id t)
          (err conflict, t) _ (λ _. o) (λ _. record { rows = o.rows; holders = holders }))
      (λ _.
        if_cases (λ (r : Result (Unit {0}) × Tables). OneToOne r.1) (is_linked id t)
          (err conflict, t) _ (λ _. o) (λ _. record { rows = o.rows; holders = holders }))

delete_found-OneToOne :
    (id : Uuid) (a : Option AccountRow) (t : Tables) → OneToOne t → OneToOne (delete_found id a t).1
unfolding delete_found
delete_found-OneToOne id none t o = o
delete_found-OneToOne id (some a) t o = delete_live-OneToOne id a t o

delete_account-OneToOne : (id : Uuid) (t : Tables) → OneToOne t → OneToOne (delete_account id t).1
unfolding delete_account
delete_account-OneToOne id t o = delete_found-OneToOne id (find_live id t.accounts) t o

step-OneToOne : (L : Library) (e : PoolEvent) (t : Tables) → OneToOne t → OneToOne (pool_step L e t)
unfolding pool_step upsert_proxy_ip upsert_proxy_ips_batch
step-OneToOne L (upserts now p) t o =
    with_rows-OneToOne L now t (upsert_rows L now (upserted L now p) t.proxies)
      (upsert_rows-AreUnique L now (upserted L now p) t.proxies o.rows) o
step-OneToOne L (upserts_batch now ps) t o =
    committed-OneToOne L now t (upsert_each L now ps _ t.proxies)
      (upsert_each-BatchUnique L now ps _ t.proxies o.rows) o
step-OneToOne L (updates now ip until password plan) t o =
    update-OneToOne L now ip until password plan t o
step-OneToOne L (updates_full now p) t o = update_full-OneToOne L now p t o
step-OneToOne L (deletes now ip) t o = delete-OneToOne L now ip t o
step-OneToOne L (assigns id ip) t o = assign-OneToOne id ip t o
step-OneToOne L (deletes_account id) t o = delete_account-OneToOne id t o

-- Over any sequence of writes of the proxy addresses, assignments and deletions of accounts, errors among
-- them, from tables in which each address has one row and one account at most, each address still has one row
-- and one account at most; the empty address may have several accounts.
pub pool_run-OneToOne :
    (L : Library) (es : List PoolEvent) (t : Tables) → OneToOne t → OneToOne (pool_run L es t)
unfolding pool_run
pool_run-OneToOne L [] t o = o
pool_run-OneToOne L (e ∷ es) t o = pool_run-OneToOne L es (pool_step L e t) (step-OneToOne L e t o)

module _ (L : Library) (now : Instant) where
  -- DeleteProxyIP has refused and changed nothing, or has removed the row of an address that no live account has.
  abbrev pub Removed : String → Tables → Result (Unit {0}) × Tables → Type 0
  Removed ip t (err e, u) = u ≡ t
  Removed ip t (ok v, u) =
      (any (holds L now ip) t.accounts ≡ false)
      × (has_row ip t.proxies ≡ true)
      × (u.accounts ≡ t.accounts)
      × ((k : String) → find_row k u.proxies ≡ (if str_eq ip k then none else find_row k t.proxies))

  -- With one row for each address, DeleteProxyIP returns an error and changes nothing, or the address had a
  -- row and no account that is not deleted, the row is gone, and every other address has the row it had.
  pub delete_proxy_ip-Removed :
      (ip : String) (t : Tables) → UniqueRows t.proxies → Removed ip t (delete_proxy_ip L now ip t)
  unfolding delete_proxy_ip
  delete_proxy_ip-Removed ip t u =
      if_cases (Removed ip t) (any (holds L now ip) t.accounts) (err conflict, t) _ (λ _. refl)
        (λ free.
          if_cases (Removed ip t) (has_row ip t.proxies)
            (ok tt, record t { proxies = drop_row ip t.proxies }) (err not_found, t)
            (λ there. (free, there, refl, λ k. find-drop ip k t.proxies u)) (λ _. refl))
