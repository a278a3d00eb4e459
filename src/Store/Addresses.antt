-- ===== src/Store/Addresses.antt =====
-- internal/store/postgres/proxy_ips.go, and store.go: SetAccountIPAddress and DeleteAccount. The tables
-- proxy_ips and accounts, the latter less what these do not read, and the links of followers. A failed
-- transaction leaves the tables as they were.
use envoy_trade.Common.{
  ℕ, suc, ◌-◌, ◌^◌, Bool, true, false, ◌&&◌, ◌||◌, not, String, str_eq, contains, Option, none,
  some, List, [], ◌∷◌, any, length, ℤ, pos, negsuc, leb_ℤ, eqb_ℤ, Result, ok, err, Error, not_found,
  conflict, ip_already_assigned, other, ◌==◌, if◌then◌else◌,
}
use envoy_trade.Common.Fallible.{◌>>=◌}
use envoy_trade.Domain.Types.{Uuid, Instant}
use envoy_trade.Domain.Proxy.{Library, ProxyIp}

-- a row of proxy_ips
pub record ProxyRow : Type 0 where
  pub ip_address : String
  pub ip_type : String
  pub host : String
  pub port : ℤ
  pub username : String
  pub password : String
  pub whitelisted_brokers : String
  pub valid_from : Instant
  pub valid_until : Instant
  pub plan : String
  pub created_at : Instant

-- a row of accounts; one with a deleted_at is deleted
pub record AccountRow : Type 0 where
  pub id : Uuid
  pub role : String
  pub ip_address : String
  pub active : Bool
  pub deleted : Bool

-- `links` holds each follower with its master, and `groups` the masters that have a group.
pub record Tables : Type 0 where
  pub proxies : List ProxyRow
  pub accounts : List AccountRow
  pub links : List (Uuid × Uuid)
  pub groups : List Uuid

-- BulkUploadResult, whose errors this code leaves empty
pub record BulkUploadResult : Type 0 where
  pub total : ℕ
  pub inserted : ℕ
  pub updated : ℕ

abbrev pub at_address : String → ProxyRow → Bool
at_address ip r = str_eq r.ip_address ip

unfoldable pub find_row : String → List ProxyRow → Option ProxyRow
find_row ip [] = none
find_row ip (r ∷ rs) = if at_address ip r then some r else find_row ip rs

-- ProxyIPByAddress, which gives what the row holds
unfoldable pub proxy_ip_by_address : String → Tables → Result ProxyRow
proxy_ip_by_address ip t = elim (find_row ip t.proxies) [ none ↦ err not_found | some r ↦ ok r ]

abbrev given_or : String → String → String
given_or s default = if str_eq s "" then default else s

abbrev set_or : Instant → Instant → Instant
set_or i default = if i == 0 then default else i

-- INSERT … ON CONFLICT (ip_address) DO UPDATE, which keeps the row's creation
unfoldable pub upsert_row : ProxyRow → List ProxyRow → List ProxyRow
upsert_row row [] = row ∷ []
upsert_row row (r ∷ rs) =
    let rest = upsert_row row rs in
    if at_address row.ip_address r then record row { created_at = r.created_at } ∷ rs else r ∷ rest

-- UPDATE … WHERE ip_address = $1
unfoldable pub change_row : String → (ProxyRow → ProxyRow) → List ProxyRow → List ProxyRow
change_row ip f [] = []
change_row ip f (r ∷ rs) =
    let rest = change_row ip f rs in if at_address ip r then f r ∷ rs else r ∷ rest

-- DELETE … WHERE ip_address = $1
unfoldable pub drop_row : String → List ProxyRow → List ProxyRow
drop_row ip [] = []
drop_row ip (r ∷ rs) = let rest = drop_row ip rs in if at_address ip r then rs else r ∷ rest

unfoldable pub has_row : String → List ProxyRow → Bool
has_row ip rs = any (at_address ip) rs

-- The table's check of ip_type.
unfoldable pub is_ip_type : String → Bool
is_ip_type s = str_eq s "ipv4" || str_eq s "ipv6"

-- The values of the column port, an integer of 32 bits.
abbrev pub is_port : ℤ → Bool
is_port port = leb_ℤ (negsuc (2 ^ 31 - 1)) port && leb_ℤ port (pos (2 ^ 31 - 1))

abbrev port_error : Error
port_error = other "failed to encode port: value is out of range for int4"

abbrev pub check_violation : Error
check_violation = other "new row for relation \"proxy_ips\" violates check constraint"

module _ (L : Library) (now : Instant) where
  -- The values of an address that is written, with the given port.
  unfoldable pub row_of : ProxyIp → ℤ → ProxyRow
  row_of p port =
      let valid_from = set_or p.valid_from now in
      record {
        ip_address = p.ip_address;
        ip_type = given_or p.ip_type (if contains p.ip_address ":" then "ipv6" else "ipv4");
        host = p.host;
        port = port;
        username = p.username;
        password = p.password;
        whitelisted_brokers = p.whitelisted_brokers;
        valid_from = valid_from;
        valid_until = set_or p.valid_until (L.add_quarter valid_from);
        plan = given_or p.plan "QUARTERLY";
        created_at = now;
      }

  abbrev pub upserted : ProxyIp → ProxyRow
  upserted p = row_of p (if eqb_ℤ p.port (pos 0) then pos 443 else p.port)

  unfoldable pub upsert_rows : ProxyRow → List ProxyRow → Result (List ProxyRow)
  upsert_rows row rs =
      if not (is_port row.port)
      then err port_error
      else if is_ip_type row.ip_type
      then ok (upsert_row row rs)
      else err check_violation

  abbrev pub with_rows : Tables → Result (List ProxyRow) → Result (Unit {0}) × Tables
  with_rows t (err e) = (err e, t)
  with_rows t (ok rs) = (ok tt, record t { proxies = rs })

  -- UpsertProxyIP
  unfoldable pub upsert_proxy_ip : ProxyIp → Tables → Result (Unit {0}) × Tables
  upsert_proxy_ip p t = with_rows t (upsert_rows (upserted p) t.proxies)

  abbrev pub count_row : Bool → BulkUploadResult → BulkUploadResult
  count_row true r = record r { updated = suc r.updated }
  count_row false r = record r { inserted = suc r.inserted }

  -- The loop of the batch, within its transaction.
  unfoldable pub upsert_each :
      List ProxyIp → BulkUploadResult → List ProxyRow → Result (BulkUploadResult × List ProxyRow)
  upsert_each [] r rs = ok (r, rs)
  upsert_each (p ∷ ps) r rs =
      upsert_rows (upserted p) rs >>= upsert_each ps (count_row (has_row p.ip_address rs) r)

  abbrev pub committed :
      Tables → Result (BulkUploadResult × List ProxyRow) → Result BulkUploadResult × Tables
  committed t (err e) = (err e, t)
  committed t (ok (r, rs)) = (ok r, record t { proxies = rs })

  -- UpsertProxyIPsBatch
  unfoldable pub upsert_proxy_ips_batch : List ProxyIp → Tables → Result BulkUploadResult × Tables
  upsert_proxy_ips_batch ps t =
      committed t
        (upsert_each ps (record { total = length ps; inserted = 0; updated = 0 }) t.proxies)

  unfoldable pub changed : Instant → String → String → ProxyRow → ProxyRow
  changed valid_until password plan r = record r {
    valid_until = set_or valid_until r.valid_until;
    password = given_or password r.password;
    plan = given_or plan r.plan;
  }

  abbrev pub if_there : String → Tables → List ProxyRow → Result (Unit {0}) × Tables
  if_there ip t rs =
      if has_row ip t.proxies then (ok tt, record t { proxies = rs }) else (err not_found, t)

  -- UpdateProxyIP
  unfoldable pub update_proxy_ip :
      String → Instant → String → String → Tables → Result (Unit {0}) × Tables
  update_proxy_ip ip valid_until password plan t =
      if_there ip t (change_row ip (changed valid_until password plan) t.proxies)

  abbrev pub replaced : ProxyRow → ProxyRow → ProxyRow
  replaced row r = record row {
    password = given_or row.password r.password;
    created_at = r.created_at;
  }

  abbrev pub full_row : ProxyIp → ProxyRow
  full_row p = row_of p (if leb_ℤ p.port (pos 0) then pos 443 else p.port)

  -- UpdateProxyIPFull; a check is made only where there is a row
  unfoldable pub update_proxy_ip_full : ProxyIp → Tables → Result (Unit {0}) × Tables
  update_proxy_ip_full p t =
      if not (is_port (full_row p).port)
      then (err port_error, t)
      else if has_row p.ip_address t.proxies && not (is_ip_type (full_row p).ip_type)
      then (err check_violation, t)
      else if_there p.ip_address t (change_row p.ip_address (replaced (full_row p)) t.proxies)

  abbrev pub holds : String → AccountRow → Bool
  holds ip a = str_eq a.ip_address ip && not a.deleted

  -- DeleteProxyIP
  unfoldable pub delete_proxy_ip : String → Tables → Result (Unit {0}) × Tables
  delete_proxy_ip ip t =
      if any (holds ip) t.accounts then (err conflict, t) else if_there ip t (drop_row ip t.proxies)

abbrev pub is_account : Uuid → AccountRow → Bool
is_account id a = a.id == id

unfoldable pub change_account : Uuid → (AccountRow → AccountRow) → List AccountRow → List AccountRow
change_account id f [] = []
change_account id f (a ∷ rows) =
    let rest = change_account id f rows in if is_account id a then f a ∷ rows else a ∷ rest

-- The unique index of accounts: another account has the address.
unfoldable pub is_taken : Uuid → String → List AccountRow → Bool
is_taken id ip rows = any (λ (a : AccountRow). str_eq a.ip_address ip && not (is_account id a)) rows

abbrev pub with_address : String → AccountRow → AccountRow
with_address ip a = record a { ip_address = ip }

-- SetAccountIPAddress
unfoldable pub set_account_ip_address : Uuid → String → Tables → Result (Unit {0}) × Tables
set_account_ip_address id ip t =
    if not (any (is_account id) t.accounts)
    then (err not_found, t)
    else if not (str_eq ip "") && is_taken id ip t.accounts
    then (err ip_already_assigned, t)
    else (ok tt, record t { accounts = change_account id (with_address ip) t.accounts })

unfoldable pub find_live : Uuid → List AccountRow → Option AccountRow
find_live id [] = none
find_live id (a ∷ rows) = if is_account id a && not a.deleted then some a else find_live id rows

abbrev pub soft_deleted : AccountRow → AccountRow
soft_deleted a = record a { deleted = true; ip_address = ""; active = false }

unfoldable pub without_group : Uuid → List Uuid → List Uuid
without_group id [] = []
without_group id (g ∷ gs) = let rest = without_group id gs in if g == id then rest else g ∷ rest

abbrev pub is_followed : Uuid → Tables → Bool
is_followed id t = any (λ (l : Uuid × Uuid). l.1 == id) t.links

abbrev pub is_linked : Uuid → Tables → Bool
is_linked id t = any (λ (l : Uuid × Uuid). l.0 == id) t.links

unfoldable pub delete_live : Uuid → AccountRow → Tables → Result (Unit {0}) × Tables
delete_live id a t =
    let rows = change_account id soft_deleted t.accounts in
    if str_eq a.role "master"
    then (if is_followed id t
        then (err conflict, t)
        else (ok tt, record t { accounts = rows; groups = without_group id t.groups }))
    else if is_linked id t
    then (err conflict, t)
    else (ok tt, record t { accounts = rows })

unfoldable pub delete_found : Uuid → Option AccountRow → Tables → Result (Unit {0}) × Tables
delete_found id none t = (err not_found, t)
delete_found id (some a) t = delete_live id a t

-- DeleteAccount
unfoldable pub delete_account : Uuid → Tables → Result (Unit {0}) × Tables
delete_account id t = delete_found id (find_live id t.accounts) t
