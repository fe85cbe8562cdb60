-- ===== src/Outbound/Hrefs.antt =====
-- The hrefs of outbound links: InternalHref, toStored, isURLBoundary and expand of
-- services/outboundlinks/outboundlinks.go.
use Prim.Native.Char.{code}
use Prim.Native.String.{String, [], ◌∷◌, ◌++◌}
use news_feed_backend.Prelude.{
  ℕ, zero, suc, Bool, true, false, ◌||◌, ◌==◌, Option, none, some, str_eq, if◌then◌else◌,
}

abbrev pub client_url_token : String
client_url_token = "{CLIENT_URL}"

unfoldable pub internal_href_prefix : String
internal_href_prefix = client_url_token ++ "/articles/"

unfoldable pub internal_href : String → String
internal_href article_id = internal_href_prefix ++ article_id

-- strings.HasPrefix and the slice behind the prefix.
unfoldable pub strip_prefix : String → String → Option String
strip_prefix [] s = some s
strip_prefix (p ∷ ps) [] = none
strip_prefix (p ∷ ps) (c ∷ cs) = if code p == code c then strip_prefix ps cs else none

-- The bytes '/', '?' and '#'.
unfoldable pub is_url_boundary : String → Bool
is_url_boundary [] = true
is_url_boundary (c ∷ rest) = code c == 0x2f || (code c == 0x3f || code c == 0x23)

abbrev pub token_form : String → Option String → String
token_form href none = href
token_form href (some rest) = if is_url_boundary rest then client_url_token ++ rest else href

unfoldable pub to_stored : String → String → String
to_stored href client_url =
    if str_eq client_url "" then href else token_form href (strip_prefix client_url href)

abbrev pub is_some : Option String → Bool
is_some none = false
is_some (some s) = true

-- How many characters of the token are behind its first one.
abbrev pub token_tail : ℕ
token_tail = 11

-- strings.ReplaceAll of the token: `skip` characters of an occurrence are still to be passed over.
unfoldable pub replace_token : String → ℕ → String → String
replace_token client_url skip [] = []
replace_token client_url (suc skip) (c ∷ s) = replace_token client_url skip s
replace_token client_url zero (c ∷ s) =
    let hit = is_some (strip_prefix client_url_token (c ∷ s)) in
    let rest = replace_token client_url (if hit then token_tail else zero) s in
    if hit then client_url ++ rest else c ∷ rest

unfoldable pub expand : String → String → String
expand stored client_url = replace_token client_url zero stored

-- strings.Contains of the token.
unfoldable pub has_token : String → Bool
has_token [] = false
has_token (c ∷ s) = is_some (strip_prefix client_url_token (c ∷ s)) || has_token s
