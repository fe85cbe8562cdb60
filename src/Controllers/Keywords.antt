-- ===== src/Controllers/Keywords.antt =====
-- normalizeKeywords, encodeKeywords and DecodeKeywords of services/controllers/articles.go. Text is
-- a sequence of code points. `lower` is unicode.ToLower, a table of the language's library.
use Prim.Native.Char.{Char, code}
use Prim.Native.String.{String, [], ◌∷◌}
use news_feed_backend.Prelude.{ℕ, Bool, true, false, ◌&&◌, ◌||◌, ◌==◌, leb, if◌then◌else◌, map}
use news_feed_backend.Prelude.{List as Seq}

-- unicode.IsSpace
unfoldable pub is_space : ℕ → Bool
is_space c =
    (leb 9 c && leb c 13)
    || (c == 0x20
        || (c == 0x85
            || (c == 0xa0
                || (c == 0x1680
                    || ((leb 0x2000 c && leb c 0x200a)
                        || (c == 0x2028
                            || (c == 0x2029 || (c == 0x202f || (c == 0x205f || c == 0x3000)))))))))

unfoldable pub trim_left : String → String
trim_left [] = []
trim_left (c ∷ s) = if is_space (code c) then trim_left s else c ∷ s

unfoldable pub is_empty : String → Bool
is_empty [] = true
is_empty (c ∷ s) = false

unfoldable pub trim_right : String → String
trim_right [] = []
trim_right (c ∷ s) =
    let rest = trim_right s in if is_space (code c) && is_empty rest then [] else c ∷ rest

-- strings.TrimSpace
unfoldable pub trim_space : String → String
unfolding is_space trim_left is_empty trim_right
trim_space s = trim_right (trim_left s)

module _ (lower : Char → Char) where
  -- strings.ToLower
  unfoldable pub to_lower : String → String
  to_lower [] = []
  to_lower (c ∷ s) = lower c ∷ to_lower s

  normalize_keyword : String → String
  unfolding to_lower trim_space
  normalize_keyword k = to_lower (trim_space k)

  unfoldable pub normalize_keywords : Seq String → Seq String
  unfolding normalize_keyword
  normalize_keywords keywords = map normalize_keyword keywords

  -- The JSON array of the column is the list of its texts, which decoding gives back.
  unfoldable pub encode_keywords : Seq String → Seq String
  unfolding normalize_keywords
  encode_keywords keywords = normalize_keywords keywords
