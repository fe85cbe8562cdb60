-- ===== src/Network/Reserved.antt =====
-- Which addresses of version 4 are public: an independent description of IsPublicAddr.
use news_feed_backend.Prelude.{
  ℕ, ◌+◌, ◌*◌, ◌/◌, ◌<◌, ◌≡◌, ◌∙◌, refl, Bool, not, ◌&&◌, ◌||◌, ◌==◌, leb, [], ◌∷◌, arith,
}
use news_feed_backend.Network.Addresses.{Ip, is_public_addr}

-- The number that the four bytes spell.
abbrev pub address : ℕ → ℕ → ℕ → ℕ → ℕ
address a b c d = ((a * 256 + b) * 256 + c) * 256 + d

abbrev within : ℕ → ℕ → ℕ → Bool
within first last n = leb first n && leb n last

-- The blocks 0/8, 10/8, 100.64/10, 127/8, 169.254/16, 172.16/12, 192.168/16, 224/4 and 240/4.
unfoldable pub is_reserved : ℕ → Bool
is_reserved n =
    within 0x0000_0000 0x00ff_ffff n
    || (within 0x0a00_0000 0x0aff_ffff n
        || (within 0x6440_0000 0x647f_ffff n
            || (within 0x7f00_0000 0x7fff_ffff n
                || (within 0xa9fe_0000 0xa9fe_ffff n
                    || (within 0xac10_0000 0xac1f_ffff n
                        || (within 0xc0a8_0000 0xc0a8_ffff n
                            || within 0xe000_0000 0xffff_ffff n))))))

-- The address of version 6 that stands for one of version 4.
abbrev pub mapped : ℕ → ℕ → ℕ → ℕ → Ip
mapped a b c d = 0 ∷ 0 ∷ 0 ∷ 0 ∷ 0 ∷ 0 ∷ 0 ∷ 0 ∷ 0 ∷ 0 ∷ 0xff ∷ 0xff ∷ a ∷ b ∷ c ∷ d ∷ []

mapped-is_public_addr :
    (a b c d : ℕ) → is_public_addr (mapped a b c d) ≡ is_public_addr (a ∷ b ∷ c ∷ d ∷ [])
unfolding is_public_addr
mapped-is_public_addr a b c d = refl

module _ (a b c d : ℕ) (ha : a < 256) (hb : b < 256) (hc : c < 256) (hd : d < 256) where
  block8 :
      (x : ℕ) → within (x * 0x100_0000) (x * 0x100_0000 + 0xff_ffff) (address a b c d) ≡ (a == x)
  block8 x = ground arith

  block16 :
      (x y : ℕ)
      → y < 256
      → within
          (x * 0x100_0000 + y * 0x1_0000)
          (x * 0x100_0000 + y * 0x1_0000 + 0xffff)
          (address a b c d)
        ≡ (a == x && b == y)
  block16 x y hy = ground arith

  block10 : within 0x6440_0000 0x647f_ffff (address a b c d) ≡ (a == 100 && (leb 64 b && leb b 127))
  block10 = ground arith

  block12 : within 0xac10_0000 0xac1f_ffff (address a b c d) ≡ (a == 172 && b / 16 == 1)
  block12 = ground arith

  upper : within 0xe000_0000 0xffff_ffff (address a b c d) ≡ leb 224 a
  upper = ground arith

  verdict :
      is_public_addr (a ∷ b ∷ c ∷ d ∷ [])
      ≡ not (
          a == 0
          || (a == 10
              || ((a == 100 && (leb 64 b && leb b 127))
                  || (a == 127
                      || ((a == 169 && b == 254)
                          || ((a == 172 && b / 16 == 1)
                              || ((a == 192 && b == 168) || leb 224 a)))))))
  unfolding is_public_addr
  verdict = ground arith

  -- An address of version 4, written with 4 bytes or as a mapped address with 16, is public exactly
  -- when its number is outside the blocks above, 0/8 to 240/4.
  pub is_public_addr_lem :
      (is_public_addr (a ∷ b ∷ c ∷ d ∷ []) ≡ not (is_reserved (address a b c d)))
      × (is_public_addr (mapped a b c d) ≡ not (is_reserved (address a b c d)))
  unfolding is_reserved
  is_public_addr_lem = (outside, mapped-is_public_addr a b c d ∙ outside)
    where
      outside : is_public_addr (a ∷ b ∷ c ∷ d ∷ []) ≡ not (is_reserved (address a b c d))
      outside =
          rw
            (
              block8 0,
              block8 10,
              block10,
              block8 127,
              block16 169 254 (omega arith),
              block12,
              block16 192 168 (omega arith),
              upper,
            )
            verdict
