-- ===== src/Uri/Layout.antt =====
-- src/lsp/URI.cpp: the spans that `init` keeps lead to the parts of the text.
use slang_server_verilator.Prelude.{
  ℕ, ◌+◌, Bool, true, false, [], ◌∷◌, ◌++◌, ◌≡◌, refl, subst, sym, ap, ◌∙◌, arith, Bytes, length,
  take, drop, length-append, append_assoc, append-nil,
}
use slang_server_verilator.Uri.Types.{
  Span, empty_uri, slice, scheme, authority, path, query, fragment, with_slash, Build, put_scheme,
  put_slashes, put_authority, put_path, put_query, put_fragment, has_slashes, init,
}

-- The span leads to `t`, inside the text.
record Holds (s : Span) (t u : Bytes) : Type 0 where
  before : Bytes
  behind : Bytes
  splits : u ≡ before ++ (t ++ behind)
  spans : s ≡ (length before, length t)

drop-length : (a b : Bytes) → drop (length a) (a ++ b) ≡ b
drop-length [] b = refl
drop-length (x ∷ a) b = drop-length a b

take-length : (a b : Bytes) → take (length a) (a ++ b) ≡ a
take-length [] b = refl
take-length (x ∷ a) b = ap (◌∷◌ x) (take-length a b)

Holds-slice : {s : Span} {t u : Bytes} → Holds s t u → slice s u ≡ t
unfolding slice
Holds-slice {t = t} h =
    rw (h.splits, h.spans, drop-length h.before (t ++ h.behind)) (take-length t h.behind)

Holds-append : {s : Span} {t u : Bytes} (x : Bytes) → Holds s t u → Holds s t (u ++ x)
Holds-append {t = t} x h = record {
  before = h.before;
  behind = h.behind ++ x;
  splits =
      ap (λ u. u ++ x) h.splits
      ∙ append_assoc h.before (t ++ h.behind) x
      ∙ ap (λ y. h.before ++ y) (append_assoc t h.behind x);
  spans = h.spans;
}

-- A part that is put behind `u` and `d`
Holds-new :
    (n : ℕ) (u d t e : Bytes)
    → n ≡ length u + length d
    → Holds (n, length t) t (u ++ (d ++ (t ++ e)))
Holds-new n u d t e h = record {
  before = u ++ d;
  behind = e;
  splits = sym (append_assoc u d (t ++ e));
  spans = ap (λ n. (n, length t)) (h ∙ sym (length-append u d));
}

-- What `init` has put so far
record Laid (s a p q f : Bytes) (b : Build) : Type 0 where
  at_end : b.pos ≡ length b.uri.underlying
  scheme_laid : Holds b.uri.scheme_span s b.uri.underlying
  authority_laid : Holds b.uri.authority_span a b.uri.underlying
  path_laid : Holds b.uri.path_span p b.uri.underlying
  query_laid : Holds b.uri.query_span q b.uri.underlying
  fragment_laid : Holds b.uri.fragment_span f b.uri.underlying

start-Laid : Laid [] [] [] [] [] (record { uri = empty_uri; pos = 0 })
start-Laid = record {
  at_end = refl;
  scheme_laid = nothing_laid;
  authority_laid = nothing_laid;
  path_laid = nothing_laid;
  query_laid = nothing_laid;
  fragment_laid = nothing_laid;
}
  where
    nothing_laid : Holds (0, 0) [] []
    nothing_laid = record { before = []; behind = []; splits = refl; spans = refl }

-- More text leaves every part where it is.
grow :
    (s a p q f : Bytes) (b : Build) (x : Bytes) (n : ℕ)
    → n ≡ b.pos + length x
    → Laid s a p q f b
    → Laid s a p q f (record { uri = record b.uri { underlying = b.uri.underlying ++ x }; pos = n })
grow s a p q f b x n e h = record {
  at_end = omega (arith, e, h.at_end, length-append b.uri.underlying x);
  scheme_laid = Holds-append x h.scheme_laid;
  authority_laid = Holds-append x h.authority_laid;
  path_laid = Holds-append x h.path_laid;
  query_laid = Holds-append x h.query_laid;
  fragment_laid = Holds-append x h.fragment_laid;
}

put_scheme-Laid :
    (s : Bytes) (b : Build) → Laid [] [] [] [] [] b → Laid s [] [] [] [] (put_scheme s b)
unfolding put_scheme
put_scheme-Laid [] b h = h
put_scheme-Laid (y ∷ t) b h =
    let u = b.uri.underlying in
    let part : Bytes = y ∷ t in
    let more : Bytes = part ++ b':' ∷ [] in
    let g =
      grow [] [] [] [] [] b more (b.pos + length part + 1)
        (omega (arith, length-append part (b':' ∷ []))) h in
    record {
      at_end = g.at_end;
      scheme_laid = Holds-new b.pos u [] part (b':' ∷ []) (omega (arith, h.at_end));
      authority_laid = g.authority_laid;
      path_laid = g.path_laid;
      query_laid = g.query_laid;
      fragment_laid = g.fragment_laid;
    }

put_slashes-Laid :
    (wanted : Bool) (s : Bytes) (b : Build)
    → Laid s [] [] [] [] b
    → Laid s [] [] [] [] (put_slashes wanted b)
unfolding put_slashes
put_slashes-Laid false s b h = h
put_slashes-Laid true s b h = grow s [] [] [] [] b (b'/' ∷ b'/' ∷ []) (b.pos + 2) refl h

put_authority-Laid :
    (s a : Bytes) (b : Build) → Laid s [] [] [] [] b → Laid s a [] [] [] (put_authority a b)
unfolding put_authority
put_authority-Laid s [] b h = h
put_authority-Laid s (y ∷ t) b h =
    let u = b.uri.underlying in
    let part : Bytes = y ∷ t in
    let more : Bytes = part in
    let g = grow s [] [] [] [] b more (b.pos + length part) (omega arith) h in
    record {
      at_end = g.at_end;
      scheme_laid = g.scheme_laid;
      authority_laid =
          subst (λ x. Holds (b.pos, length part) part (u ++ x)) (append-nil part)
            (Holds-new b.pos u [] part [] (omega (arith, h.at_end)));
      path_laid = g.path_laid;
      query_laid = g.query_laid;
      fragment_laid = g.fragment_laid;
    }

put_path-Laid : (s a p : Bytes) (b : Build) → Laid s a [] [] [] b → Laid s a p [] [] (put_path p b)
unfolding put_path
put_path-Laid s a p b h =
    let u = b.uri.underlying in
    let part : Bytes = p in
    let more : Bytes = part in
    let g = grow s a [] [] [] b more (b.pos + length part) (omega arith) h in
    record {
      at_end = g.at_end;
      scheme_laid = g.scheme_laid;
      authority_laid = g.authority_laid;
      path_laid =
          subst (λ x. Holds (b.pos, length part) part (u ++ x)) (append-nil part)
            (Holds-new b.pos u [] part [] (omega (arith, h.at_end)));
      query_laid = g.query_laid;
      fragment_laid = g.fragment_laid;
    }

put_query-Laid :
    (s a p q : Bytes) (b : Build) → Laid s a p [] [] b → Laid s a p q [] (put_query q b)
unfolding put_query
put_query-Laid s a p [] b h = h
put_query-Laid s a p (y ∷ t) b h =
    let u = b.uri.underlying in
    let part : Bytes = y ∷ t in
    let more : Bytes = b'?' ∷ part in
    let g = grow s a p [] [] b more (b.pos + (1 + length part)) (omega arith) h in
    record {
      at_end = g.at_end;
      scheme_laid = g.scheme_laid;
      authority_laid = g.authority_laid;
      path_laid = g.path_laid;
      query_laid =
          subst (λ x. Holds (b.pos + 1, length part) part (u ++ (b'?' ∷ x))) (append-nil part)
            (Holds-new (b.pos + 1) u (b'?' ∷ []) part [] (omega (arith, h.at_end)));
      fragment_laid = g.fragment_laid;
    }

put_fragment-Laid :
    (s a p q f : Bytes) (b : Build) → Laid s a p q [] b → Laid s a p q f (put_fragment f b)
unfolding put_fragment
put_fragment-Laid s a p q [] b h = h
put_fragment-Laid s a p q (y ∷ t) b h =
    let u = b.uri.underlying in
    let part : Bytes = y ∷ t in
    let more : Bytes = b'#' ∷ part in
    let g = grow s a p q [] b more (b.pos + (1 + length part)) (omega arith) h in
    record {
      at_end = g.at_end;
      scheme_laid = g.scheme_laid;
      authority_laid = g.authority_laid;
      path_laid = g.path_laid;
      query_laid = g.query_laid;
      fragment_laid =
          subst (λ x. Holds (b.pos + 1, length part) part (u ++ (b'#' ∷ x))) (append-nil part)
            (Holds-new (b.pos + 1) u (b'#' ∷ []) part [] (omega (arith, h.at_end)));
    }

-- What a new URI gives for each part is the part that it was made of, the path with its leading
-- slash.
pub init-parts :
    (s a p q f : Bytes)
    → (let u = init s a p q f in
        (scheme u ≡ s)
        × (authority u ≡ a)
        × (path u ≡ with_slash p)
        × (query u ≡ q)
        × (fragment u ≡ f))
unfolding init scheme authority path query fragment
init-parts s a p q f =
    let b0 : Build = record { uri = empty_uri; pos = 0 } in
    let b1 = put_scheme s b0 in
    let b2 = put_slashes (has_slashes s a) b1 in
    let b3 = put_authority a b2 in
    let b4 = put_path (with_slash p) b3 in
    let b5 = put_query q b4 in
    let h2 = put_slashes-Laid (has_slashes s a) s b1 (put_scheme-Laid s b0 start-Laid) in
    let h4 = put_path-Laid s a (with_slash p) b3 (put_authority-Laid s a b2 h2) in
    let h =
      put_fragment-Laid s a (with_slash p) q f b5 (put_query-Laid s a (with_slash p) q b4 h4) in
    (
      Holds-slice h.scheme_laid,
      Holds-slice h.authority_laid,
      Holds-slice h.path_laid,
      Holds-slice h.query_laid,
      Holds-slice h.fragment_laid,
    )
