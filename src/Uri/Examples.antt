-- ===== src/Uri/Examples.antt =====
-- URIs of files and of the web.
use slang_server_verilator.Prelude.{[], ◌≡◌, refl, some, Bytes}
use slang_server_verilator.Text.{codes, all_of}
use slang_server_verilator.Uri.Layout.{init-parts}
use slang_server_verilator.Uri.Parse.{of_string, in_query, in_path, in_authority, in_scheme}
use slang_server_verilator.Uri.Percent.{decode, encode, decode-encode}
use slang_server_verilator.Uri.Written.{Plain}
use slang_server_verilator.Uri.Round.{of_string-str, of_string-from_file}
use slang_server_verilator.Uri.Types.{
  init, str, from_file, scheme, authority, path, query, fragment, with_slash, has_slashes, get_path,
}

abbrev spaced : Bytes
spaced = codes "a b%.sv"

decode-encode_example : decode (encode spaced) ≡ some spaced
unfolding all_of
decode-encode_example = decode-encode spaced refl

init-parts_example :
    (let u = init (codes "https") (codes "h:80") (codes "a/b") [] (codes "L3") in
      (scheme u ≡ codes "https")
      × (authority u ≡ codes "h:80")
      × (path u ≡ codes "/a/b")
      × (query u ≡ [])
      × (fragment u ≡ codes "L3"))
unfolding with_slash
init-parts_example = init-parts (codes "https") (codes "h:80") (codes "a/b") [] (codes "L3")

web-Plain : Plain (codes "https") (codes "h:80") (codes "/a") (codes "x=1") (codes "L3#?")
unfolding all_of in_query in_path in_authority in_scheme has_slashes with_slash
web-Plain = record {
  scheme_there = refl;
  scheme_plain = refl;
  slashes_there = refl;
  authority_plain = refl;
  path_slash = refl;
  path_plain = refl;
  query_plain = refl;
  authority_decoded = refl;
  path_decoded = refl;
  query_decoded = refl;
  fragment_decoded = refl;
}

of_string-str_example :
    (let u = init (codes "https") (codes "h:80") (codes "/a") (codes "x=1") (codes "L3#?") in
      of_string (str u) ≡ some u)
of_string-str_example =
    of_string-str (codes "https") (codes "h:80") (codes "/a") (codes "x=1") (codes "L3#?") web-Plain

abbrev top_file : Bytes
top_file = codes "/rtl/top.sv"

of_string-from_file_example :
    (of_string (str (from_file top_file)) ≡ some (from_file top_file))
    × (get_path (from_file top_file) ≡ top_file)
unfolding with_slash in_path in_query all_of
of_string-from_file_example = of_string-from_file top_file refl refl refl
