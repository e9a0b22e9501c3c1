-- ===== src/Uri/Types.antt =====
-- include/lsp/URI.h and src/lsp/URI.cpp: the object, its parts, and `init` (without the branches of
-- Windows).
use slang_server_verilator.Prelude.{
  ℕ, ◌+◌, Bool, true, false, not, ◌||◌, [], ◌∷◌, ◌++◌, if◌then◌else◌, ◌==◌, Bytes, length, take,
  drop, list_eqb,
}
use slang_server_verilator.Text.{codes}

-- A position in the text and a size
abbrev pub Span : Type 0
Span = ℕ × ℕ

-- `URI`, without the cache of `getPath`
pub record Uri : Type 0 where
  pub underlying : Bytes
  pub scheme_span : Span
  pub authority_span : Span
  pub path_span : Span
  pub query_span : Span
  pub fragment_span : Span

-- `URI()`
abbrev pub empty_uri : Uri
empty_uri = record {
  underlying = [];
  scheme_span = (0, 0);
  authority_span = (0, 0);
  path_span = (0, 0);
  query_span = (0, 0);
  fragment_span = (0, 0);
}

-- `std::string_view(underlying_.data() + span.first, span.second)`
unfoldable pub slice : Span → Bytes → Bytes
slice s u = take s.1 (drop s.0 u)

unfoldable pub scheme : Uri → Bytes
scheme u = slice u.scheme_span u.underlying

unfoldable pub authority : Uri → Bytes
authority u = slice u.authority_span u.underlying

unfoldable pub path : Uri → Bytes
path u = slice u.path_span u.underlying

unfoldable pub query : Uri → Bytes
query u = slice u.query_span u.underlying

unfoldable pub fragment : Uri → Bytes
fragment u = slice u.fragment_span u.underlying

-- `str`, and `reflection`
unfoldable pub str : Uri → Bytes
str u = u.underlying

-- `getPath`
unfoldable pub get_path : Uri → Bytes
get_path u = path u

-- `operator==`
unfoldable pub uri_eqb : Uri → Uri → Bool
uri_eqb a b = list_eqb a.underlying b.underlying

abbrev pub is_empty : Bytes → Bool
is_empty [] = true
is_empty (c ∷ s) = false

-- The leading slash of the path
unfoldable pub with_slash : Bytes → Bytes
with_slash [] = b'/' ∷ []
with_slash (c ∷ s) = if c == b'/' then c ∷ s else b'/' ∷ c ∷ s

-- The object that `init` fills, and its local `pos`
pub record Build : Type 0 where
  pub uri : Uri
  pub pos : ℕ

unfoldable pub put_scheme : Bytes → Build → Build
put_scheme s b = if is_empty s then b else record {
  uri = record b.uri {
    underlying = b.uri.underlying ++ (s ++ b':' ∷ []);
    scheme_span = (b.pos, length s);
  };
  pos = b.pos + length s + 1;
}

-- `if (!authority.empty() || scheme == "file")`
unfoldable pub put_slashes : Bool → Build → Build
put_slashes wanted b =
    if wanted
    then record {
      uri = record b.uri { underlying = b.uri.underlying ++ b'/' ∷ b'/' ∷ [] };
      pos = b.pos + 2;
    }
    else b

unfoldable pub put_authority : Bytes → Build → Build
put_authority a b = if is_empty a then b else record {
  uri = record b.uri { underlying = b.uri.underlying ++ a; authority_span = (b.pos, length a) };
  pos = b.pos + length a;
}

unfoldable pub put_path : Bytes → Build → Build
put_path p b = record {
  uri = record b.uri { underlying = b.uri.underlying ++ p; path_span = (b.pos, length p) };
  pos = b.pos + length p;
}

unfoldable pub put_query : Bytes → Build → Build
put_query q b = if is_empty q then b else record {
  uri = record b.uri {
    underlying = b.uri.underlying ++ b'?' ∷ q;
    query_span = (b.pos + 1, length q);
  };
  pos = b.pos + (1 + length q);
}

unfoldable pub put_fragment : Bytes → Build → Build
put_fragment f b = if is_empty f then b else record {
  uri = record b.uri {
    underlying = b.uri.underlying ++ b'#' ∷ f;
    fragment_span = (b.pos + 1, length f);
  };
  pos = b.pos + (1 + length f);
}

unfoldable pub has_slashes : Bytes → Bytes → Bool
has_slashes s a = not (is_empty a) || list_eqb s (codes "file")

-- `init`, on a new object
unfoldable pub init : Bytes → Bytes → Bytes → Bytes → Bytes → Uri
init s a p q f =
    let b0 : Build = record { uri = empty_uri; pos = 0 } in
    let b1 = put_authority a (put_slashes (has_slashes s a) (put_scheme s b0)) in
    (put_fragment f (put_query q (put_path (with_slash p) b1))).uri

-- `fromFile`, of `file.generic_string()`
unfoldable pub from_file : Bytes → Uri
from_file p = if is_empty p then empty_uri else init (codes "file") [] p [] []
