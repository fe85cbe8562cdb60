-- ===== src/Network/Safety.antt =====
-- What is dialed, and when a dial connects.
use news_feed_backend.Prelude.{
  String, ◌≡◌, subst, refl, Bool, true, false, not, Option, none, some, List, [], ◌∷◌, exists, All,
  All-map, All-exists, Bool-cases, inl, inr, arith,
}
use news_feed_backend.Network.Addresses.{Ip, is_public_addr}
use news_feed_backend.Network.Dialing
use news_feed_backend.Network.Dialing.{
  Dialed, connected, blocked_destination, network_failure, with_attempt, dial_first,
  restricted_dial,
}

module _ (split : String → Option String) (parse_ip : String → Option Ip)
    (lookup : String → Option (List Ip)) (connect : Ip → Bool) where
  abbrev IsPublic : Ip → Type 0
  IsPublic ip = is_public_addr ip ≡ true

  -- Only public addresses are dialed, and so is the one that is connected to.
  pub record IsSafe (r : Dialed × List Ip) : Type 0 where
    pub dialed : All IsPublic r.1
    pub connection : (ip : Ip) → r.0 ≡ connected ip → IsPublic ip

  nothing_dialed : (r : Dialed) → ((ip : Ip) → r ≡ connected ip → ⊥) → IsSafe (r, [])
  nothing_dialed r h = record { dialed = tt; connection = λ ip e. absurd (h ip e) }

  connected_inj : (x y : Ip) → connected x ≡ connected y → x ≡ y
  connected_inj x y e = cc

  dial_first-IsSafe :
      (ips : List Ip) → All IsPublic ips → IsSafe (dial_first split parse_ip lookup connect ips)
  unfolding dial_first
  dial_first-IsSafe [] h = nothing_dialed network_failure (λ ip e. ground arith)
  dial_first-IsSafe (ip ∷ ips) (p, h) = elim (Bool-cases (connect ip)) [
    | inl made ↦ rw made (record {
      dialed = (p, tt);
      connection = λ other e. subst IsPublic (connected_inj ip other e) p;
    })
    | inr refused ↦ rw refused (further (dial_first-IsSafe ips h))
  ]
    where
      further : {r : Dialed × List Ip} → IsSafe r → IsSafe (with_attempt ip r)
      further s = record { dialed = (p, s.dialed); connection = s.connection }

  candidates-IsSafe :
      (o : Option (List Ip)) → IsSafe (Dialing.dial_candidates split parse_ip lookup connect o)
  candidates-IsSafe none = nothing_dialed network_failure (λ ip e. ground arith)
  candidates-IsSafe (some ips) =
      elim (Bool-cases (exists (λ (ip : Ip). not (is_public_addr ip)) ips)) [
        | inl private ↦ rw private (nothing_dialed blocked_destination (λ ip e. ground arith))
        | inr public ↦
            rw public
              (approved ips (All-map _ _ (λ ip h. ground arith) ips (All-exists _ ips public)))
      ]
    where
      approved :
          (ips : List Ip)
          → All IsPublic ips
          → IsSafe (Dialing.dial_approved split parse_ip lookup connect ips)
      approved [] h = nothing_dialed blocked_destination (λ ip e. ground arith)
      approved (ip ∷ ips) h = dial_first-IsSafe (ip ∷ ips) h

  -- Whatever the resolver answers and whichever connections are made, a dial reaches public
  -- addresses only.
  pub restricted_dial-IsSafe :
      (addr : String) → IsSafe (restricted_dial split parse_ip lookup connect addr)
  unfolding restricted_dial
  restricted_dial-IsSafe addr = at_split (split addr)
    where
      literal : (ip : Ip) → IsSafe (Dialing.dial_literal split parse_ip lookup connect ip)
      literal ip = elim (Bool-cases (is_public_addr ip)) [
        | inl public ↦ rw public (dial_first-IsSafe (ip ∷ []) (public, tt))
        | inr private ↦ rw private (nothing_dialed blocked_destination (λ ip e. ground arith))
      ]

      at_host :
          (host : String) (o : Option Ip)
          → IsSafe (Dialing.dial_host split parse_ip lookup connect host o)
      at_host host (some ip) = literal ip
      at_host host none = candidates-IsSafe (lookup host)

      at_split : (o : Option String) → IsSafe (Dialing.dial_split split parse_ip lookup connect o)
      at_split none = nothing_dialed network_failure (λ ip e. ground arith)
      at_split (some host) = at_host host (parse_ip host)

  accepted :
      (ips : List Ip)
      → exists connect ips ≡ true
      → (ip : Ip) × ((dial_first split parse_ip lookup connect ips).0 ≡ connected ip)
  unfolding dial_first exists
  accepted [] h = absurd (ground arith)
  accepted (ip ∷ ips) h = elim (Bool-cases (connect ip)) [
    | inl made ↦ (ip, rw made refl)
    | inr refused ↦
        let r = accepted ips (ground arith) in
        (r.0, rw refused (later r.0 ip (dial_first split parse_ip lookup connect ips) r.1))
  ]
    where
      later :
          (x ip : Ip) (r : Dialed × List Ip)
          → r.0 ≡ connected x
          → (with_attempt ip r).0 ≡ connected x
      later x ip (d, ips) e = e

  -- A host with only public addresses is reached, when a connection to one of them is made.
  pub restricted_dial-connects :
      (addr host : String) (ips : List Ip)
      → split addr ≡ some host
      → parse_ip host ≡ none
      → lookup host ≡ some ips
      → exists (λ (ip : Ip). not (is_public_addr ip)) ips ≡ false
      → exists connect ips ≡ true
      → (ip : Ip) × ((restricted_dial split parse_ip lookup connect addr).0 ≡ connected ip)
  unfolding restricted_dial exists
  restricted_dial-connects addr host ips named unparsed found public made =
      rw (named, unparsed, found, public) (go ips made)
    where
      go :
          (ips : List Ip)
          → exists connect ips ≡ true
          → (ip : Ip) × ((Dialing.dial_approved split parse_ip lookup connect ips).0 ≡ connected ip)
      go [] h = absurd (ground arith)
      go (ip ∷ ips) h = accepted (ip ∷ ips) h
