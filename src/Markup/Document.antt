-- ===== src/Markup/Document.antt =====
-- src/util/Markdown.cpp: `Paragraph`, but for `appendCode`, and `Document`. A paragraph is its
-- buffer and a document is its paragraphs.
use slang_server_verilator.Prelude.{
  ℕ, Bool, true, false, not, ◌&&◌, List, [], ◌∷◌, ◌++◌, ◌≡◌, ◌↔◌, refl, sym, ◌∙◌, arith,
  if◌then◌else◌, ◌==◌, Bytes, replicate, Bool-cases, inl, inr, append-nil, append_assoc,
}
use slang_server_verilator.Text.{codes}

-- `Paragraph::isEmpty`
unfoldable pub is_blank : Bytes → Bool
is_blank [] = true
is_blank (c ∷ p) = false

-- `appendText`
unfoldable pub append_text : Bytes → Bytes → Bytes
append_text text p = p ++ text

-- `buffer.back() != ' '` of a buffer that is not empty
unfoldable pub wants_space : Bytes → Bool
wants_space [] = false
wants_space (c ∷ []) = not (c == b' ')
wants_space (c ∷ d ∷ p) = wants_space (d ∷ p)

unfoldable pub with_space : Bytes → Bytes
with_space p = if wants_space p then p ++ b' ' ∷ [] else p

-- `appendBold`
unfoldable pub append_bold : Bytes → Bytes → Bytes
append_bold text p = with_space p ++ codes "**" ++ text ++ codes "** "

-- `appendHeader`
unfoldable pub append_header : Bytes → ℕ → Bytes → Bytes
append_header text level p = with_space p ++ (replicate level b'#' ++ b' ' ∷ [] ++ text)

-- `appendCodeBlock`
unfoldable pub append_code_block : Bytes → Bytes → Bytes
append_code_block code p = p ++ codes "````systemverilog\n" ++ code ++ codes "\n````"

-- `newLine`
unfoldable pub new_line : Bytes → Bytes
new_line p = p ++ codes "  \n"

-- `Paragraph::append`
unfoldable pub append_paragraph : Bytes → Bytes → Bytes
append_paragraph q p = if is_blank p then q else p ++ q

-- `addParagraph(Paragraph)`, and `addParagraph()` with what its result is filled with
unfoldable pub add_paragraph : Bytes → List Bytes → List Bytes
add_paragraph p doc = doc ++ p ∷ []

-- `Document::append`
unfoldable pub append_document : List Bytes → List Bytes → List Bytes
append_document more doc = doc ++ more

-- `Document::isEmpty`
unfoldable pub is_empty : List Bytes → Bool
is_empty [] = true
is_empty (p ∷ doc) = is_blank p && is_empty doc

-- The text between two paragraphs
abbrev pub rule : Bytes
rule = codes "\n\n---\n\n"

-- The loop of `build`, with `first` and `result`
unfoldable pub build_from : Bool → Bytes → List Bytes → Bytes
build_from first result [] = result
build_from first result (p ∷ doc) =
    let skipped = build_from first result doc in
    let taken = build_from false ((if first then result else result ++ rule) ++ p) doc in
    if is_blank p then skipped else taken

-- `build`
unfoldable pub build : List Bytes → Bytes
build doc = build_from true [] doc

-- The paragraphs that have text
unfoldable pub written : List Bytes → List Bytes
written [] = []
written (p ∷ doc) = let rest = written doc in if is_blank p then rest else p ∷ rest

-- The paragraphs, each with a rule before it
ruled : List Bytes → Bytes
ruled [] = []
ruled (p ∷ doc) = rule ++ (p ++ ruled doc)

-- The paragraphs, with rules between them
unfoldable pub joined : List Bytes → Bytes
unfolding ruled
joined [] = []
joined (p ∷ doc) = p ++ ruled doc

build_from-ruled :
    (result : Bytes) (doc : List Bytes)
    → build_from false result doc ≡ result ++ ruled (written doc)
unfolding build_from written ruled
build_from-ruled result [] = sym (append-nil result)
build_from-ruled result (p ∷ doc) = elim (Bool-cases (is_blank p)) [
  | inl e ↦ rw (e) (build_from-ruled result doc)
  | inr e ↦
      rw (e, build_from-ruled (result ++ rule ++ p) doc)
        (append_assoc (result ++ rule) p (ruled (written doc))
          ∙ append_assoc result rule (p ++ ruled (written doc)))
]

-- A document is built as its paragraphs that have text, in order, with a rule between each two.
pub build-joined : (doc : List Bytes) → build doc ≡ joined (written doc)
unfolding build build_from written joined
build-joined [] = refl
build-joined (p ∷ doc) = elim (Bool-cases (is_blank p)) [
  | inl e ↦ rw (e) (build-joined doc)
  | inr e ↦ rw (e) (build_from-ruled p doc)
]

written-append_document :
    (more doc : List Bytes) → written (append_document more doc) ≡ written doc ++ written more
unfolding written append_document
written-append_document more [] = refl
written-append_document more (p ∷ doc) = ground (arith, written-append_document more doc)

-- A document is empty exactly if nothing is built of it.
pub is_empty-build : (doc : List Bytes) → (is_empty doc ≡ true) ↔ (build doc ≡ [])
unfolding is_empty joined written is_blank
is_empty-build doc = rw (build-joined doc) (go doc)
  where
    go : (doc : List Bytes) → (is_empty doc ≡ true) ↔ (joined (written doc) ≡ [])
    go [] = ground arith
    go ([] ∷ doc) = go doc
    go ((c ∷ p) ∷ doc) = ground arith
