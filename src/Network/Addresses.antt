-- ===== src/Network/Addresses.antt =====
-- IsPublicAddr of services/safehttp/safehttp.go, with the methods of net.IP that it calls. An
-- address is the list of its bytes, 4 or 16 of them; nil is the empty list.
use news_feed_backend.Prelude.{
  ℕ, zero, suc, ◌/◌, Bool, true, false, not, ◌&&◌, ◌||◌, ◌==◌, leb, Option, none, some, List, [],
  ◌∷◌, length, take, drop, if◌then◌else◌,
}

abbrev pub Ip : Type 0
Ip = List ℕ

abbrev pub byte : ℕ → Ip → ℕ
byte n [] = 0
byte zero (b ∷ bs) = b
byte (suc n) (b ∷ bs) = byte n bs

abbrev pub is_zeros : Ip → Bool
is_zeros [] = true
is_zeros (b ∷ bs) = b == 0 && is_zeros bs

-- An address of version 6 that stands for one of version 4.
abbrev pub is_mapped : Ip → Bool
is_mapped ip =
    length ip == 16 && (is_zeros (take 10 ip) && (byte 10 ip == 0xff && byte 11 ip == 0xff))

-- To4
abbrev pub to4 : Ip → Option Ip
to4 ip = if length ip == 4 then some ip else if is_mapped ip then some (drop 12 ip) else none

-- Equal, with the address that has these four bytes.
abbrev pub equals4 : ℕ → Option Ip → Bool
equals4 b none = false
equals4 b (some v4) = byte 0 v4 == b && (byte 1 v4 == b && (byte 2 v4 == b && byte 3 v4 == b))

abbrev pub is_unspecified : Ip → Bool
is_unspecified ip = equals4 0 (to4 ip) || (length ip == 16 && is_zeros ip)

abbrev pub is_loopback : Ip → Option Ip → Bool
is_loopback ip (some v4) = byte 0 v4 == 127
is_loopback ip none = length ip == 16 && (is_zeros (take 15 ip) && byte 15 ip == 1)

-- `ip[0]&0xf0 == 0xe0` of a byte is that its upper half is 14, and so on.
abbrev pub is_multicast : Ip → Option Ip → Bool
is_multicast ip (some v4) = byte 0 v4 / 16 == 14
is_multicast ip none = length ip == 16 && byte 0 ip == 0xff

abbrev pub is_link_local_unicast : Ip → Option Ip → Bool
is_link_local_unicast ip (some v4) = byte 0 v4 == 169 && byte 1 v4 == 254
is_link_local_unicast ip none = length ip == 16 && (byte 0 ip == 0xfe && byte 1 ip / 64 == 2)

abbrev pub is_global_unicast : Ip → Bool
is_global_unicast ip =
    (length ip == 4 || length ip == 16)
    && (not (equals4 255 (to4 ip))
        && (not (is_unspecified ip)
            && (not (is_loopback ip (to4 ip))
                && (not (is_multicast ip (to4 ip)) && not (is_link_local_unicast ip (to4 ip))))))

abbrev pub is_private : Ip → Option Ip → Bool
is_private ip (some v4) =
    byte 0 v4 == 10
    || ((byte 0 v4 == 172 && byte 1 v4 / 16 == 1) || (byte 0 v4 == 192 && byte 1 v4 == 168))
is_private ip none = length ip == 16 && byte 0 ip / 2 == 126

-- The switch over the bytes of an address of version 4.
abbrev pub is_allowed4 : Option Ip → Bool
is_allowed4 none = true
is_allowed4 (some v4) =
    if byte 0 v4 == 0
    then false
    else if byte 0 v4 == 100 && (leb 64 (byte 1 v4) && leb (byte 1 v4) 127)
    then false
    else not (leb 240 (byte 0 v4))

unfoldable pub is_public_addr : Ip → Bool
is_public_addr ip =
    if is_global_unicast ip
    then if is_private ip (to4 ip) then false else is_allowed4 (to4 ip)
    else false
