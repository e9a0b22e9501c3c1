-- ===== src/Uri/Written.antt =====
-- src/lsp/URI.cpp: the text of a URI whose parts are plain.
use slang_server_verilator.Prelude.{
  ℕ, Bool, true, false, not, [], ◌∷◌, ◌++◌, ◌≡◌, refl, sym, arith, ◌==◌, Bytes, append_assoc,
  append-nil,
}
use slang_server_verilator.Text.{all_of}
use slang_server_verilator.Uri.Parse.{span, in_query, in_path, in_authority, in_scheme}
use slang_server_verilator.Uri.Types.{
  empty_uri, str, is_empty, with_slash, Build, put_scheme, put_slashes, put_authority, put_path,
  put_query, put_fragment, has_slashes, init,
}

-- Parts that have no delimiter of their own and no percent sign: an absolute path, a scheme, and
-- an authority or the scheme of files
pub record Plain (s a p q f : Bytes) : Type 0 where
  pub scheme_there : is_empty s ≡ false
  pub scheme_plain : all_of in_scheme s ≡ true
  pub slashes_there : has_slashes s a ≡ true
  pub authority_plain : all_of in_authority a ≡ true
  pub path_slash : with_slash p ≡ p
  pub path_plain : all_of in_path p ≡ true
  pub query_plain : all_of in_query q ≡ true
  pub authority_decoded : all_of (λ c. not (c == b'%')) a ≡ true
  pub path_decoded : all_of (λ c. not (c == b'%')) p ≡ true
  pub query_decoded : all_of (λ c. not (c == b'%')) q ≡ true
  pub fragment_decoded : all_of (λ c. not (c == b'%')) f ≡ true

unfoldable pub stops : (ℕ → Bool) → Bytes → Bool
stops ok [] = true
stops ok (c ∷ r) = not (ok c)

pub span-append :
    (ok : ℕ → Bool) (a r : Bytes)
    → all_of ok a ≡ true
    → stops ok r ≡ true
    → span ok (a ++ r) ≡ (a, r)
unfolding span all_of stops
span-append ok [] [] h k = refl
span-append ok [] (c ∷ r) h k = ground arith
span-append ok (x ∷ a) r h k = ground (arith, span-append ok a r)

-- An optional part behind its delimiter
abbrev pub optional : ℕ → Bytes → Bytes
optional d [] = []
optional d (c ∷ s) = d ∷ c ∷ s

abbrev pub tail : Bytes → Bytes → Bytes
tail q f = optional b'?' q ++ optional b'#' f

-- The text of a URI
unfoldable pub text : Bytes → Bytes → Bytes → Bytes → Bytes → Bytes
text s a p q f = s ++ (b':' ∷ b'/' ∷ b'/' ∷ (a ++ (p ++ tail q f)))

pub put_authority_text :
    (a : Bytes) (b : Build) → (put_authority a b).uri.underlying ≡ b.uri.underlying ++ a
unfolding put_authority
put_authority_text [] b = sym (append-nil b.uri.underlying)
put_authority_text (c ∷ a) b = refl

pub put_query_text :
    (q : Bytes) (b : Build) → (put_query q b).uri.underlying ≡ b.uri.underlying ++ optional b'?' q
unfolding put_query
put_query_text [] b = sym (append-nil b.uri.underlying)
put_query_text (c ∷ a) b = refl

pub put_fragment_text :
    (f : Bytes) (b : Build)
    → (put_fragment f b).uri.underlying ≡ b.uri.underlying ++ optional b'#' f
unfolding put_fragment
put_fragment_text [] b = sym (append-nil b.uri.underlying)
put_fragment_text (c ∷ a) b = refl

pub put_scheme_text :
    (s : Bytes) (b : Build)
    → is_empty s ≡ false
    → (put_scheme s b).uri.underlying ≡ b.uri.underlying ++ (s ++ b':' ∷ [])
unfolding put_scheme
put_scheme_text s b h = ground arith

pub put_slashes_text :
    (w : Bool) (b : Build)
    → w ≡ true
    → (put_slashes w b).uri.underlying ≡ b.uri.underlying ++ b'/' ∷ b'/' ∷ []
unfolding put_slashes
put_slashes_text w b h = ground arith

pub str-init : (s a p q f : Bytes) → Plain s a p q f → str (init s a p q f) ≡ text s a p q f
unfolding str init text put_path
str-init s a p q f h =
    let b0 : Build = record { uri = empty_uri; pos = 0 } in
    let b1 = put_scheme s b0 in
    let b2 = put_slashes (has_slashes s a) b1 in
    let b3 = put_authority a b2 in
    let b4 = put_path (with_slash p) b3 in
    let b5 = put_query q b4 in
    rw
      (
        put_fragment_text f b5,
        put_query_text q b4,
        put_authority_text a b2,
        put_slashes_text (has_slashes s a) b1 h.slashes_there,
        put_scheme_text s b0 h.scheme_there,
        h.path_slash,
      )
      (simp append_assoc refl)
