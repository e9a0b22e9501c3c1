-- ===== src/Uri/Round.antt =====
-- src/lsp/URI.cpp: a URI is read back from its text, if no part has a delimiter or a percent sign.
use slang_server_verilator.Prelude.{
  ℕ, Bool, true, false, not, [], ◌∷◌, ◌++◌, ◌≡◌, refl, subst, ◌∙◌, some, arith, ◌==◌, Bytes,
  list_eqb, append-nil,
}
use slang_server_verilator.Text.{codes, all_of}
use slang_server_verilator.Uri.Layout.{init-parts}
use slang_server_verilator.Uri.Parse.{
  in_query, in_path, in_authority, in_scheme, after, match_scheme, match_authority, match_uri,
  of_string,
}
use slang_server_verilator.Uri.Percent.{decode_plain}
use slang_server_verilator.Uri.Types.{
  str, get_path, is_empty, with_slash, has_slashes, init, from_file,
}
use slang_server_verilator.Uri.Written.{Plain, stops, span-append, optional, tail, text, str-init}

match_scheme-text :
    (s r : Bytes)
    → is_empty s ≡ false
    → all_of in_scheme s ≡ true
    → match_scheme (s ++ b':' ∷ r) ≡ (s, r)
unfolding match_scheme in_scheme
match_scheme-text s r h k = rw (span-append in_scheme s (b':' ∷ r) k (unfold stops in refl), h) refl

-- An optional part and what stands behind it
after-optional :
    (d : ℕ) (ok : ℕ → Bool) (t r : Bytes)
    → all_of ok t ≡ true
    → stops ok r ≡ true
    → stops (λ c. c == d) r ≡ true
    → after d ok (optional d t ++ r) ≡ (t, r)
unfolding after stops
after-optional d ok [] [] h k m = refl
after-optional d ok [] (c ∷ r) h k m = ground arith
after-optional d ok (c ∷ t) r h k m = ground (arith, span-append ok (c ∷ t) r)

-- `.*+` takes everything.
all_of_everything : (s : Bytes) → all_of (λ c. true) s ≡ true
unfolding all_of
all_of_everything [] = refl
all_of_everything (c ∷ s) = all_of_everything s

stops_fragment : (f : Bytes) → stops in_query (optional b'#' f) ≡ true
unfolding stops in_query
stops_fragment [] = refl
stops_fragment (c ∷ f) = refl

stops_query : (f : Bytes) → stops (λ c. c == b'?') (optional b'#' f) ≡ true
unfolding stops
stops_query [] = refl
stops_query (c ∷ f) = refl

stops-tail : (q f : Bytes) → stops in_path (tail q f) ≡ true
unfolding stops in_path in_query
stops-tail (c ∷ q) f = refl
stops-tail [] (c ∷ f) = refl
stops-tail [] [] = refl

stops_path : (p r : Bytes) → with_slash p ≡ p → stops in_authority (p ++ r) ≡ true
unfolding stops in_authority with_slash
stops_path [] r h = ground arith
stops_path (c ∷ p) r h = ground arith

match_fragment : (f : Bytes) → after b'#' (λ c. true) (optional b'#' f) ≡ (f, [])
unfolding stops
match_fragment f =
    subst (λ t. after b'#' (λ c. true) t ≡ (f, [])) (append-nil (optional b'#' f))
      (after-optional b'#' (λ c. true) f [] (all_of_everything f) refl refl)

match_uri-text :
    (s a p q f : Bytes)
    → Plain s a p q f
    → match_uri (text s a p q f) ≡ record {
      scheme_part = s;
      authority_part = a;
      path_part = p;
      query_part = q;
      fragment_part = f;
    }
unfolding match_uri text match_authority
match_uri-text s a p q f h =
    rw
      (
        match_scheme-text s (b'/' ∷ b'/' ∷ (a ++ (p ++ tail q f))) h.scheme_there h.scheme_plain,
        span-append in_authority a (p ++ tail q f) h.authority_plain
            (stops_path p (tail q f) h.path_slash),
        span-append in_path p (tail q f) h.path_plain (stops-tail q f),
        after-optional b'?' in_query q (optional b'#' f) h.query_plain (stops_fragment f)
            (stops_query f),
        match_fragment f,
      )
      refl

-- The text of a URI with a scheme, an absolute path, and an authority or the scheme of files is
-- read as that URI, if no part has a delimiter that ends it or a percent sign.
pub of_string-str :
    (s a p q f : Bytes) → Plain s a p q f → of_string (str (init s a p q f)) ≡ some (init s a p q f)
unfolding of_string
of_string-str s a p q f h =
    rw
      (
        str-init s a p q f h,
        match_uri-text s a p q f h,
        decode_plain a h.authority_decoded,
        decode_plain p h.path_decoded,
        decode_plain q h.query_decoded,
        decode_plain f h.fragment_decoded,
      )
      refl

-- The URI of a file at an absolute path with no question mark, hash or percent sign is read back
-- from its text, and leads to that path.
pub of_string-from_file :
    (p : Bytes)
    → with_slash p ≡ p
    → all_of in_path p ≡ true
    → all_of (λ c. not (c == b'%')) p ≡ true
    → (of_string (str (from_file p)) ≡ some (from_file p)) × (get_path (from_file p) ≡ p)
unfolding from_file get_path with_slash all_of in_scheme in_authority in_path in_query has_slashes
    list_eqb
of_string-from_file [] h k l = ground arith
of_string-from_file (c ∷ p) h k l = (
  of_string-str (codes "file") [] (c ∷ p) [] [] file_plain,
  (init-parts (codes "file") [] (c ∷ p) [] []).2 ∙ h,
)
  where
    file_plain : Plain (codes "file") [] (c ∷ p) [] []
    file_plain = record {
      scheme_there = refl;
      scheme_plain = refl;
      slashes_there = refl;
      authority_plain = refl;
      path_slash = h;
      path_plain = k;
      query_plain = refl;
      authority_decoded = refl;
      path_decoded = l;
      query_decoded = refl;
      fragment_decoded = refl;
    }
