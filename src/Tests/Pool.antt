-- ===== src/Tests/Pool.antt =====
-- Proxy addresses under two accounts.
use envoy_trade.Common.{
  ℕ, ◌≡◌, refl, true, false, List, [], ◌∷◌, err, ok, conflict, ip_already_assigned,
}
use envoy_trade.Store.Addresses.{
  AccountRow, Tables, upsert_proxy_ip, upsert_rows, upsert_row, row_of, is_ip_type, has_row,
  change_account, is_taken, set_account_ip_address, find_live, delete_live, delete_found,
  delete_account, delete_proxy_ip,
}
use envoy_trade.Store.Pool.{UniqueRows}
use envoy_trade.Store.Holders.{UniqueHolders}
use envoy_trade.Store.Assigned.{
  PoolEvent, upserts, assigns, deletes, deletes_account, pool_run, OneToOne, pool_run-OneToOne,
  Removed, delete_proxy_ip-Removed,
}
use envoy_trade.Tests.Addresses.{library, address}

abbrev account : ℕ → AccountRow
account id = record { id = id; role = "follower"; ip_address = ""; active = true; deleted = false }

abbrev two_accounts : Tables
two_accounts = record {
  proxies = [];
  accounts = account 1 ∷ account 2 ∷ [];
  links = [];
  groups = [];
}

two_accounts-OneToOne : OneToOne two_accounts
unfolding UniqueRows UniqueHolders
two_accounts-OneToOne = record { rows = tt; holders = (refl, refl, (refl, refl, tt)) }

-- The second account asks for the address of the first, which is then deleted.
abbrev events : List PoolEvent
events =
    upserts 50 (address "ipv4" false "")
    ∷ assigns 1 "10.0.0.7"
    ∷ assigns 2 "10.0.0.7"
    ∷ deletes 60 "10.0.0.7"
    ∷ deletes_account 1
    ∷ assigns 2 "10.0.0.7"
    ∷ []

pool_run-OneToOne_example : OneToOne (pool_run library events two_accounts)
pool_run-OneToOne_example = pool_run-OneToOne library events two_accounts two_accounts-OneToOne

abbrev one_address : Tables
one_address = (upsert_proxy_ip library 50 (address "ipv4" false "") two_accounts).1

one_address-UniqueRows : UniqueRows one_address.proxies
unfolding UniqueRows upsert_proxy_ip upsert_rows upsert_row row_of is_ip_type has_row
one_address-UniqueRows = (refl, tt)

delete_proxy_ip-Removed_example :
    Removed library 60 "10.0.0.7" one_address (delete_proxy_ip library 60 "10.0.0.7" one_address)
delete_proxy_ip-Removed_example =
    delete_proxy_ip-Removed library 60 "10.0.0.7" one_address one_address-UniqueRows

answers :
    let t = (set_account_ip_address 1 "10.0.0.7" one_address).1 in
    ((set_account_ip_address 2 "10.0.0.7" t).0 ≡ err ip_already_assigned)
    × ((delete_proxy_ip library 60 "10.0.0.7" t).0 ≡ err conflict)
    × ((delete_account 1 t).0 ≡ ok tt)
unfolding upsert_proxy_ip upsert_rows upsert_row row_of is_ip_type set_account_ip_address
    change_account is_taken delete_proxy_ip delete_account delete_found find_live delete_live
answers = (refl, refl, refl)
