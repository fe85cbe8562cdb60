-- ===== src/Outbound/RoundTrip.antt =====
-- What is stored of an href, and what is served of it.
use Prim.Native.Char.{Char, code}
use Prim.Native.String.{String, [], ◌∷◌, ◌++◌, count}
use news_feed_backend.Prelude.{
  zero, ◌≡◌, ◌∙◌, refl, ap, sym, Bool, true, false, ◌==◌, Option, none, some, str_eq, arith,
  Bool-cases, inl, inr, if◌then◌else◌,
}
use mathlib.Core.Option.{some-injective}
use text.Mathlib.TextLemmas.{nil-append, cons-append, length-cons}
use text.Mathlib.TextEquality.{Char-path}
use news_feed_backend.Outbound.Hrefs.{
  client_url_token, strip_prefix, is_url_boundary, token_form, to_stored, is_some, replace_token,
  expand, has_token,
}

-- Text without the token is served as it is.
plain : (client_url s : String) → has_token s ≡ false → expand s client_url ≡ s
unfolding expand replace_token has_token
plain client_url [] h = refl
plain client_url (c ∷ s) h = elim (Bool-cases (is_some (strip_prefix client_url_token (c ∷ s)))) [
  | inl hit ↦ absurd (ground arith)
  | inr miss ↦ rw miss (ap (λ r. c ∷ r) (plain client_url s (ground arith)))
]

pub strip_self : (p rest : String) → strip_prefix p (p ++ rest) ≡ some rest
unfolding strip_prefix
strip_self [] rest = ap some (nil-append rest)
strip_self (p ∷ ps) rest =
    let same : code p == code p ≡ true = ground arith in
    rw (cons-append p ps rest, same) (strip_self ps rest)

pass_over :
    (client_url p rest : String)
    → replace_token client_url (count p) (p ++ rest) ≡ replace_token client_url zero rest
unfolding replace_token
pass_over client_url [] rest = ap (replace_token client_url zero) (nil-append rest)
pass_over client_url (p ∷ ps) rest =
    rw (cons-append p ps rest, length-cons p ps) (pass_over client_url ps rest)

-- The token in front is replaced.
token_first :
    (client_url rest : String)
    → expand (client_url_token ++ rest) client_url ≡ client_url ++ expand rest client_url
unfolding expand replace_token
token_first client_url rest =
    let apart : client_url_token ++ rest ≡ "{" ∷ ("CLIENT_URL}" ++ rest) =
      cons-append "{" "CLIENT_URL}" rest in
    let h : strip_prefix client_url_token ("{" ∷ ("CLIENT_URL}" ++ rest)) ≡ some rest =
      rw apart at (strip_self client_url_token rest) in
    rw (apart, h) (ap (λ r. client_url ++ r) (pass_over client_url "CLIENT_URL}" rest))

strip-append : (p s rest : String) → strip_prefix p s ≡ some rest → p ++ rest ≡ s
unfolding strip_prefix
strip-append [] s rest h = nil-append rest ∙ sym (some-injective s rest h)
strip-append (p ∷ ps) [] rest h = absurd (ground arith)
strip-append (p ∷ ps) (c ∷ s) rest h = elim (Bool-cases (code p == code c)) [
  | inl same ↦
      cons-append p ps rest
      ∙ ap (λ r. p ∷ r) (strip-append ps s rest (rw same at h))
      ∙ ap (λ x. x ∷ s) (Char-path p c (ground arith))
  | inr other ↦ absurd (ground arith)
]

has_token_behind : (p rest : String) → has_token (p ++ rest) ≡ false → has_token rest ≡ false
unfolding has_token
has_token_behind [] rest h = rw (nil-append rest) at h
has_token_behind (p ∷ ps) rest h =
    has_token_behind ps rest (tail_plain p (ps ++ rest) (rw (cons-append p ps rest) at h))
  where
    tail_plain : (c : Char) (s : String) → has_token (c ∷ s) ≡ false → has_token s ≡ false
    tail_plain c s k = ground arith

-- An href that does not contain the token is served as it was written, whatever the client URL is.
pub expand-to_stored :
    (href client_url : String)
    → has_token href ≡ false
    → expand (to_stored href client_url) client_url ≡ href
unfolding to_stored
expand-to_stored href client_url h = elim (Bool-cases (str_eq client_url "")) [
  | inl empty ↦ rw empty (plain client_url href h)
  | inr set ↦ rw set (served (strip_prefix client_url href) refl)
]
  where
    under :
        (rest : String) (b : Bool)
        → client_url ++ rest ≡ href
        → expand (if b then client_url_token ++ rest else href) client_url ≡ href
    under rest false e = plain client_url href h
    under rest true e =
        token_first client_url rest
        ∙ ap (λ r. client_url ++ r)
            (plain client_url rest (has_token_behind client_url rest (rw e h)))
        ∙ e

    served :
        (o : Option String)
        → strip_prefix client_url href ≡ o
        → expand (token_form href o) client_url ≡ href
    served none e = plain client_url href h
    served (some rest) e = under rest (is_url_boundary rest) (strip-append client_url href rest e)

-- When the client URL changes from `old` to `new`, a link under the old one follows, if `old` is
-- not empty, the rest of the link begins with a boundary of a URL or is empty, and it has no token.
pub expand-to_stored_moved :
    (old new rest : String)
    → str_eq old "" ≡ false
    → is_url_boundary rest ≡ true
    → has_token rest ≡ false
    → expand (to_stored (old ++ rest) old) new ≡ new ++ rest
unfolding to_stored
expand-to_stored_moved old new rest set boundary h =
    rw (set, strip_self old rest, boundary)
      (token_first new rest ∙ ap (λ r. new ++ r) (plain new rest h))

-- When it changes, a link that only starts with the text of the old one, as one to a host with a
-- longer name, stays as it is, if it has no token.
pub expand-to_stored_kept :
    (old new rest : String)
    → is_url_boundary rest ≡ false
    → has_token (old ++ rest) ≡ false
    → expand (to_stored (old ++ rest) old) new ≡ old ++ rest
unfolding to_stored
expand-to_stored_kept old new rest outside h = elim (Bool-cases (str_eq old "")) [
  | inl empty ↦ rw empty (plain new (old ++ rest) h)
  | inr set ↦ rw (set, strip_self old rest, outside) (plain new (old ++ rest) h)
]
