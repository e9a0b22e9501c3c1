-- ===== src/Uri/Parse.antt =====
-- src/lsp/URI.cpp: `uriPattern` and the constructor from a string. Every string matches the
-- pattern: its parts are found from left to right, and the possessive quantifiers take all that
-- their class allows.
use slang_server_verilator.Prelude.{
  ℕ, Bool, true, not, ◌&&◌, [], ◌∷◌, ◌++◌, Option, none, some, if◌then◌else◌, ◌==◌, Bytes,
}
use slang_server_verilator.Text.{codes}
use slang_server_verilator.Uri.Percent.{decode}
use slang_server_verilator.Uri.Types.{Uri, init, is_empty}

-- The longest prefix of the class, and the rest
unfoldable pub span : (ℕ → Bool) → Bytes → Bytes × Bytes
span ok [] = ([], [])
span ok (c ∷ s) = let rest = span ok s in if ok c then (c ∷ rest.0, rest.1) else ([], c ∷ s)

-- `[^:/?#]`, `[^/?#]`, `[^?#]` and `[^#]`
unfoldable pub in_query : ℕ → Bool
in_query c = not (c == b'#')

unfoldable pub in_path : ℕ → Bool
in_path c = not (c == b'?') && in_query c

unfoldable pub in_authority : ℕ → Bool
in_authority c = not (c == b'/') && in_path c

unfoldable pub in_scheme : ℕ → Bool
in_scheme c = not (c == b':') && in_authority c

-- What an optional group matches: its text, and the rest
unfoldable pub after : ℕ → (ℕ → Bool) → Bytes → Bytes × Bytes
after d ok [] = ([], [])
after d ok (c ∷ s) = if c == d then span ok s else ([], c ∷ s)

colon_behind : Bytes → Bytes → Bytes → Bytes × Bytes
colon_behind s m [] = ([], s)
colon_behind s m (c ∷ rest) = if not (is_empty m) && (c == b':') then (m, rest) else ([], s)

-- `(([^:/?#]++):)?`
unfoldable pub match_scheme : Bytes → Bytes × Bytes
unfolding colon_behind
match_scheme s = let m = span in_scheme s in colon_behind s m.0 m.1

-- `(//([^/?#]*+))?`
unfoldable pub match_authority : Bytes → Bytes × Bytes
match_authority (c ∷ d ∷ s) =
    if (c == b'/') && (d == b'/') then span in_authority s else ([], c ∷ d ∷ s)
match_authority s = ([], s)

pub record Parts : Type 0 where
  pub scheme_part : Bytes
  pub authority_part : Bytes
  pub path_part : Bytes
  pub query_part : Bytes
  pub fragment_part : Bytes

-- `uriPattern`
unfoldable pub match_uri : Bytes → Parts
match_uri text =
    let s = match_scheme text in
    let a = match_authority s.1 in
    let p = span in_path a.1 in
    let q = after b'?' in_query p.1 in
    let f = after b'#' (λ c. true) q.1 in
    record {
      scheme_part = s.0;
      authority_part = a.0;
      path_part = p.0;
      query_part = q.0;
      fragment_part = f.0;
    }

assemble : Bytes → Option Bytes → Option Bytes → Option Bytes → Option Bytes → Option Uri
assemble s (some a) (some p) (some q) (some f) = some (init s a p q f)
assemble s _ _ _ _ = none

-- `URI(const std::string&)`; `none` when a decoding throws
unfoldable pub of_string : Bytes → Option Uri
unfolding assemble
of_string text =
    let m = match_uri text in
    assemble m.scheme_part (decode m.authority_part) (decode m.path_part) (decode m.query_part)
      (decode m.fragment_part)

-- `fromWeb`
unfoldable pub from_web : Bytes → Option Uri
from_web url = of_string (codes "https://" ++ url)
