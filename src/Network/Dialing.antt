-- ===== src/Network/Dialing.antt =====
-- restrictedDialContext of services/safehttp/safehttp.go. `split` is net.SplitHostPort (the host),
-- `parse_ip` net.ParseIP, `lookup` the resolver and `connect` whether a connection is made. The
-- result comes with the addresses that have been dialed.
use news_feed_backend.Prelude.{
  String, Bool, not, Option, none, some, List, [], ◌∷◌, exists, if◌then◌else◌,
}
use news_feed_backend.Network.Addresses.{Ip, is_public_addr}

pub data Dialed : Type 0 where
  connected : Ip → Dialed
  blocked_destination : Dialed
  network_failure : Dialed

abbrev pub with_attempt : Ip → Dialed × List Ip → Dialed × List Ip
with_attempt ip (r, ips) = (r, ip ∷ ips)

module _ (split : String → Option String) (parse_ip : String → Option Ip)
    (lookup : String → Option (List Ip)) (connect : Ip → Bool) where
  -- The loop over the approved addresses.
  unfoldable pub dial_first : List Ip → Dialed × List Ip
  dial_first [] = (network_failure, [])
  dial_first (ip ∷ ips) =
      let rest = dial_first ips in
      if connect ip then (connected ip, ip ∷ []) else with_attempt ip rest

  abbrev pub dial_literal : Ip → Dialed × List Ip
  dial_literal ip = if is_public_addr ip then dial_first (ip ∷ []) else (blocked_destination, [])

  abbrev pub dial_approved : List Ip → Dialed × List Ip
  dial_approved [] = (blocked_destination, [])
  dial_approved (ip ∷ ips) = dial_first (ip ∷ ips)

  abbrev pub dial_candidates : Option (List Ip) → Dialed × List Ip
  dial_candidates none = (network_failure, [])
  dial_candidates (some ips) =
      if exists (λ (ip : Ip). not (is_public_addr ip)) ips
      then (blocked_destination, [])
      else dial_approved ips

  abbrev pub dial_host : String → Option Ip → Dialed × List Ip
  dial_host host (some ip) = dial_literal ip
  dial_host host none = dial_candidates (lookup host)

  abbrev pub dial_split : Option String → Dialed × List Ip
  dial_split none = (network_failure, [])
  dial_split (some host) = dial_host host (parse_ip host)

  unfoldable pub restricted_dial : String → Dialed × List Ip
  unfolding dial_first
  restricted_dial addr = dial_split (split addr)
