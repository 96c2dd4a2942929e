-- ===== src/Lsp/Uri.antt =====
-- `file://` URIs: `path_to_file_uri` of crates/henka-lsp/src/session.rs, and `uri_to_path` and
-- `uri_path` of crates/henka-lsp/src/convert.rs.
pub mod RoundTrip
use henka.Common.{
  ℕ, ◌+◌, ◌-◌, ◌*◌, Bool, ◌&&◌, ◌||◌, List, [], ◌∷◌, ◌++◌, Option, none, some, leb, ◌==◌, nat_eq,
  if◌then◌else◌,
}
use henka.Text.{Text, codes}
use henka.Text.Search.{strip_prefix}
use henka.FilePath.{FilePath, display, of_text}

abbrev pub scheme : Text
scheme = codes "file://"

-- The loop of `path_to_file_uri`.
unfoldable pub encode : Text → Text
encode [] = []
encode (c ∷ t) =
    if c == b' '
    then codes "%20" ++ encode t
    else (if c == b'#'
        then codes "%23" ++ encode t
        else (if c == b'?' then codes "%3F" ++ encode t else c ∷ encode t))

unfoldable pub path_to_file_uri : FilePath → Text
unfolding encode
path_to_file_uri path = scheme ++ encode (display path)

-- `char::to_digit(16)`
abbrev pub hex_digit : ℕ → Option ℕ
hex_digit c =
    if leb b'0' c && leb c b'9'
    then some (c - b'0')
    else (if leb b'a' c && leb c b'f'
        then some (c - b'a' + 10)
        else (if leb b'A' c && leb c b'F' then some (c - b'A' + 10) else none))

abbrev two_digits : Option ℕ → Option ℕ → Option ℕ
two_digits (some hi) (some lo) = some (hi * 16 + lo)
two_digits _ _ = none

-- `u8::from_str_radix` of two characters, the first of which may be a plus sign.
abbrev pub hex_byte : ℕ → ℕ → Option ℕ
hex_byte hi lo = if hi == b'+' then hex_digit lo else two_digits (hex_digit hi) (hex_digit lo)

abbrev decoded : ℕ → ℕ → ℕ → Option ℕ → Text → Text
decoded c hi lo none rest = c ∷ hi ∷ lo ∷ rest
decoded c hi lo (some byte) rest = byte ∷ rest

-- The loop of `uri_to_path`: a `%` takes the two characters that follow, or what there is of them.
unfoldable pub decode : Text → Text
decode [] = []
decode (c ∷ []) = c ∷ []
decode (c ∷ hi ∷ []) = c ∷ hi ∷ []
decode (c ∷ hi ∷ lo ∷ t) =
    let escaped = decoded c hi lo (hex_byte hi lo) (decode t) in
    let plain = c ∷ decode (hi ∷ lo ∷ t) in if c == b'%' then escaped else plain

abbrev or_whole : Text → Option Text → Text
or_whole t none = t
or_whole t (some rest) = rest

unfoldable pub uri_to_path : Text → FilePath
unfolding decode
uri_to_path uri = of_text (decode (or_whole uri (strip_prefix uri scheme)))

-- What stands in front of a query string or a fragment.
unfoldable pub uri_path : Text → Text
uri_path [] = []
uri_path (c ∷ t) = if c == b'?' || c == b'#' then [] else c ∷ uri_path t
