-- ===== src/Server/Symbols.antt =====
-- src/SlangServer.cpp: `fuzzyMatch` and `getWorkspaceSymbol`, with `forEachSymbol` of
-- include/Indexer.h and `toSymbolKind` of src/util/Converters.cpp.
use mathlib.Core.List.{Memᴰ}
use mathlib.Core.List.Memᴰ
use slang_server_verilator.Server.Fuzzy.{
  is_empty, fuzzy_match, Within, stop, lower, fuzzy_match_iff,
}
use slang_server_verilator.Index.Types.{FilePath, SymbolLoc, Index}
use slang_server_verilator.Prelude.{
  ℕ, false, not, ◌&&◌, ◌||◌, List, [], ◌∷◌, ◌++◌, ◌≡◌, refl, ◌↔◌, map, inl, inr, arith,
  if◌then◌else◌, ◌==◌, Bytes, Bool-cases, ap, subst, sym,
}
use mathlib.Core.Logic.{⊎_elim}

-- `lsp::SymbolKind`, as far as it is given
pub data SymbolKind : Type 0 where
  interface_kind module_kind package_kind class_kind function_kind null_kind : SymbolKind

-- The numbers that slang gives these kinds of syntax
pub record SyntaxKinds : Type 0 where
  pub interface_declaration : ℕ
  pub module_declaration : ℕ
  pub checker_declaration : ℕ
  pub program_declaration : ℕ
  pub package_declaration : ℕ
  pub class_declaration : ℕ
  pub function_declaration : ℕ
  pub task_declaration : ℕ

-- `toSymbolKind`
unfoldable pub to_symbol_kind : SyntaxKinds → ℕ → SymbolKind
to_symbol_kind k n =
    if n == k.interface_declaration
    then interface_kind
    else if n == k.module_declaration || n == k.checker_declaration || n == k.program_declaration
    then module_kind
    else if n == k.package_declaration
    then package_kind
    else if n == k.class_declaration
    then class_kind
    else if n == k.function_declaration || n == k.task_declaration
    then function_kind
    else null_kind

-- `lsp::WorkspaceSymbol`, with the path that its location is made of
pub record WorkspaceSymbol : Type 0 where
  pub path : FilePath
  pub name : Bytes
  pub kind : SymbolKind

-- The order in which `forEachSymbol` calls back
unfoldable pub for_each_symbol : List (Bytes × List SymbolLoc) → List (Bytes × SymbolLoc)
for_each_symbol [] = []
for_each_symbol ((name, entries) ∷ table) = map (λ l. (name, l)) entries ++ for_each_symbol table

abbrev pub to_symbol : SyntaxKinds → Bytes → SymbolLoc → WorkspaceSymbol
to_symbol k name l = record { path = l.uri; name = name; kind = to_symbol_kind k l.kind }

unfoldable pub list_symbols : SyntaxKinds → Bytes → List (Bytes × SymbolLoc) → List WorkspaceSymbol
list_symbols k query [] = []
list_symbols k query ((name, l) ∷ entries) =
    let rest = list_symbols k query entries in
    if not (is_empty query) && not (fuzzy_match query name) then rest else to_symbol k name l ∷ rest

-- `getWorkspaceSymbol`
unfoldable pub get_workspace_symbol : SyntaxKinds → Bytes → Index → List WorkspaceSymbol
get_workspace_symbol k query s = list_symbols k query (for_each_symbol s.symbol_to_files)

-- An entry of the table whose name the query is within, as it is shown
pub record IsFound (k : SyntaxKinds) (query : Bytes) (table : List (Bytes × List SymbolLoc))
    (x : WorkspaceSymbol) : Type 0 where
  pub name : Bytes
  pub entry : SymbolLoc
  pub place : (ls : List SymbolLoc) × Memᴰ (name, ls) table × Memᴰ entry ls
  pub within : Within (lower query) (lower name)
  pub shown : x ≡ to_symbol k name entry

wanted_iff :
    (query name : Bytes)
    → ((not (is_empty query) && not (fuzzy_match query name)) ≡ false)
      ↔ Within (lower query) (lower name)
wanted_iff [] name = (λ h. stop, λ w. refl)
wanted_iff (q ∷ query) name = ground (arith, fuzzy_match_iff (q ∷ query) name)

module _ (k : SyntaxKinds) (query : Bytes) where
  -- An entry that the callback lists
  record Selected (entries : List (Bytes × SymbolLoc)) (x : WorkspaceSymbol) : Type 0 where
    name : Bytes
    entry : SymbolLoc
    listed : Memᴰ (name, entry) entries
    within : Within (lower query) (lower name)
    shown : x ≡ to_symbol k name entry

  Selected-tail :
      {e : Bytes × SymbolLoc} {entries : List (Bytes × SymbolLoc)} {x : WorkspaceSymbol}
      → Selected entries x
      → Selected (e ∷ entries) x
  Selected-tail f = record {
    name = f.name;
    entry = f.entry;
    listed = Memᴰ.tail f.listed;
    within = f.within;
    shown = f.shown;
  }

  list_symbols_sound :
      (entries : List (Bytes × SymbolLoc)) (x : WorkspaceSymbol)
      → Memᴰ x (list_symbols k query entries)
      → Selected entries x
  unfolding list_symbols
  list_symbols_sound [] x m = absurd (Memᴰ.not-nil m)
  list_symbols_sound ((name, l) ∷ entries) x m =
      elim (Bool-cases (not (is_empty query) && not (fuzzy_match query name))) [
        | inl e ↦ Selected-tail (list_symbols_sound entries x (rw (e) at m))
        | inr e ↦
            ⊎_elim
              (λ same. record {
                name = name;
                entry = l;
                listed = Memᴰ.head refl;
                within = (wanted_iff query name).0 e;
                shown = same;
              })
              (λ t. Selected-tail (list_symbols_sound entries x t)) (Memᴰ.cases_cons (rw (e) at m))
      ]

  list_symbols_complete :
      (entries : List (Bytes × SymbolLoc)) (name : Bytes) (l : SymbolLoc)
      → Memᴰ (name, l) entries
      → Within (lower query) (lower name)
      → Memᴰ (to_symbol k name l) (list_symbols k query entries)
  unfolding list_symbols
  list_symbols_complete [] name l m w = absurd (Memᴰ.not-nil m)
  list_symbols_complete ((name', l') ∷ entries) name l m w =
      elim (Bool-cases (not (is_empty query) && not (fuzzy_match query name'))) [
        | inl e ↦ rw (e) (
            ⊎_elim
              (λ same. absurd (
                ground (
                  arith,
                  (wanted_iff query name').1 (subst (λ p. Within (lower query) (lower p.0)) same w),
                  e,
                )))
              (λ t. list_symbols_complete entries name l t w) (Memᴰ.cases_cons m))
        | inr e ↦ rw (e) (
            ⊎_elim (λ same. Memᴰ.head (ap (λ p. to_symbol k p.0 p.1) same))
              (λ t. Memᴰ.tail (list_symbols_complete entries name l t w)) (Memᴰ.cases_cons m))
      ]

  map_sound :
      (name : Bytes) (ls : List SymbolLoc) (p : Bytes × SymbolLoc)
      → Memᴰ p (map (λ l. (name, l)) ls)
      → (l : SymbolLoc) × Memᴰ l ls × (p ≡ (name, l))
  map_sound name [] p m = absurd (Memᴰ.not-nil m)
  map_sound name (l ∷ ls) p m = elim (Memᴰ.cases_cons m) [
    | inl e ↦ (l, Memᴰ.head refl, e)
    | inr t ↦ let (l', q, e) = map_sound name ls p t in (l', Memᴰ.tail q, e)
  ]

  map_complete :
      (name : Bytes) (ls : List SymbolLoc) (l : SymbolLoc)
      → Memᴰ l ls
      → Memᴰ {A = Bytes × SymbolLoc} (name, l) (map (λ x. (name, x)) ls)
  map_complete name [] l m = absurd (Memᴰ.not-nil m)
  map_complete name (x ∷ ls) l m =
      ⊎_elim (λ e. Memᴰ.head (ap (λ y. (name, y)) e)) (λ t. Memᴰ.tail (map_complete name ls l t))
        (Memᴰ.cases_cons m)

  for_each_symbol_sound :
      (table : List (Bytes × List SymbolLoc)) (p : Bytes × SymbolLoc)
      → Memᴰ p (for_each_symbol table)
      → (ls : List SymbolLoc) × Memᴰ (p.0, ls) table × Memᴰ p.1 ls
  unfolding for_each_symbol
  for_each_symbol_sound [] p m = absurd (Memᴰ.not-nil m)
  for_each_symbol_sound ((name, ls) ∷ table) p m =
      elim (Memᴰ.append_cases (map (λ l. (name, l)) ls) m) [
        | inl here ↦
            let (l, q, e) = map_sound name ls p here in
            subst
              (λ y. (ls' : List SymbolLoc) × Memᴰ (y.0, ls') ((name, ls) ∷ table) × Memᴰ y.1 ls')
              (sym e) (ls, Memᴰ.head refl, q)
        | inr there ↦ let (ls', q, r) = for_each_symbol_sound table p there in (ls', Memᴰ.tail q, r)
      ]

  for_each_symbol_complete :
      (table : List (Bytes × List SymbolLoc)) (name : Bytes) (ls : List SymbolLoc) (l : SymbolLoc)
      → Memᴰ (name, ls) table
      → Memᴰ l ls
      → Memᴰ (name, l) (for_each_symbol table)
  unfolding for_each_symbol
  for_each_symbol_complete [] name ls l m q = absurd (Memᴰ.not-nil m)
  for_each_symbol_complete ((name', ls') ∷ table) name ls l m q =
      ⊎_elim
        (λ e. Memᴰ.append_left (for_each_symbol table) (
          subst (λ y. Memᴰ {A = Bytes × SymbolLoc} (y.0, l) (map (λ x. (name', x)) ls')) (sym e)
            (map_complete name' ls' l (subst (λ y. Memᴰ l y.1) e q))))
        (λ t.
          Memᴰ.append_right (map (λ x. (name', x)) ls')
            (for_each_symbol_complete table name ls l t q))
        (Memᴰ.cases_cons m)

  -- The answer to a query lists an entry of the table of symbols exactly when the query, in lower
  -- case, is within the name, in lower case, in its order but perhaps with gaps; and it lists
  -- nothing else.
  pub get_workspace_symbol_iff :
      (s : Index) (x : WorkspaceSymbol)
      → Memᴰ x (get_workspace_symbol k query s) ↔ IsFound k query s.symbol_to_files x
  unfolding get_workspace_symbol
  get_workspace_symbol_iff s x = (
    λ m.
        let found = list_symbols_sound (for_each_symbol s.symbol_to_files) x m in
        record {
          name = found.name;
          entry = found.entry;
          place = for_each_symbol_sound s.symbol_to_files (found.name, found.entry) found.listed;
          within = found.within;
          shown = found.shown;
        },
    λ f.
        let (ls, q, r) = f.place in
        Memᴰ.cast f.shown (
          list_symbols_complete (for_each_symbol s.symbol_to_files) f.name f.entry
            (for_each_symbol_complete s.symbol_to_files f.name ls f.entry q r) f.within),
  )
