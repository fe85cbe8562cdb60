-- ===== src/Examples/Addresses.antt =====
-- Addresses of a name that has two public ones.
use news_feed_backend.Prelude.{
  String, ◌≡◌, refl, Bool, true, false, not, Option, none, some, List, [], ◌∷◌, ◌==◌, exists, arith,
}
use news_feed_backend.Network.Addresses.{Ip, byte, is_public_addr}
use news_feed_backend.Network.Dialing.{connected, restricted_dial}
use news_feed_backend.Network.Reserved.{is_reserved, address, mapped, is_public_addr_lem}
use news_feed_backend.Network.Safety.{IsSafe, restricted_dial-IsSafe, restricted_dial-connects}

is_public_addr_lem_example :
    (is_public_addr (169 ∷ 254 ∷ 169 ∷ 254 ∷ []) ≡ not (is_reserved (address 169 254 169 254)))
    × (is_public_addr (mapped 169 254 169 254) ≡ not (is_reserved (address 169 254 169 254)))
is_public_addr_lem_example =
    is_public_addr_lem 169 254 169 254 (omega arith) (omega arith) (omega arith) (omega arith)

-- The metadata endpoint is refused, a public address is not, in both versions.
metadata_refused : is_public_addr (169 ∷ 254 ∷ 169 ∷ 254 ∷ []) ≡ false
unfolding is_public_addr
metadata_refused = refl

public_allowed :
    is_public_addr (0x26 ∷ 0x06 ∷ 0x47 ∷ 0 ∷ 0 ∷ 0 ∷ 0 ∷ 0 ∷ 0 ∷ 0 ∷ 0 ∷ 0 ∷ 0 ∷ 0 ∷ 0 ∷ 1 ∷ [])
    ≡ true
unfolding is_public_addr
public_allowed = refl

loopback_refused :
    is_public_addr (0 ∷ 0 ∷ 0 ∷ 0 ∷ 0 ∷ 0 ∷ 0 ∷ 0 ∷ 0 ∷ 0 ∷ 0 ∷ 0 ∷ 0 ∷ 0 ∷ 0 ∷ 1 ∷ []) ≡ false
unfolding is_public_addr
loopback_refused = refl

abbrev split_host : String → Option String
split_host addr = some "paper.example"

abbrev no_literal : String → Option Ip
no_literal host = none

abbrev two_addresses : String → Option (List Ip)
two_addresses host = some ((93 ∷ 184 ∷ 215 ∷ 14 ∷ []) ∷ (93 ∷ 184 ∷ 215 ∷ 15 ∷ []) ∷ [])

-- Only the second address answers.
abbrev second_answers : Ip → Bool
second_answers ip = byte 3 ip == 15

restricted_dial-IsSafe_example :
    IsSafe split_host no_literal two_addresses second_answers
      (restricted_dial split_host no_literal two_addresses second_answers "paper.example:80")
restricted_dial-IsSafe_example =
    restricted_dial-IsSafe split_host no_literal two_addresses second_answers "paper.example:80"

restricted_dial-connects_example :
    (ip : Ip) × ((restricted_dial split_host no_literal two_addresses second_answers
        "paper.example:80").0
      ≡ connected ip)
unfolding exists is_public_addr
restricted_dial-connects_example =
    restricted_dial-connects split_host no_literal two_addresses second_answers "paper.example:80"
      "paper.example" ((93 ∷ 184 ∷ 215 ∷ 14 ∷ []) ∷ (93 ∷ 184 ∷ 215 ∷ 15 ∷ []) ∷ []) refl refl refl
      refl refl
