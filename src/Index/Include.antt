-- ===== src/Index/Include.antt =====
-- src/Indexer.cpp: `getFilesForInclude` and `getNearestFileForInclude`, on the table of the files of
-- each name (`includeToFiles_`).
use mathlib.Core.List.{Memᴰ}
use mathlib.Core.List.Memᴰ
use mathlib.Core.Logic.{⊎_elim}
use slang_server_verilator.Assoc.Multi.{at}
use slang_server_verilator.Index.Nearest.{
  Paths, strip_suffix, reverse_onto, has_suffix, is_plain_include, nearest_include, last_part,
}
use slang_server_verilator.Index.Types.{FilePath, path_eq}
use slang_server_verilator.Prelude.{
  true, List, [], ◌∷◌, ◌++◌, append_assoc, ◌≡◌, refl, sym, ◌∙◌, ap, subst, ◌↔◌, inl, inr, Option,
  arith, if◌then◌else◌, Bytes, Bool-cases, list_eqb, list_eqb_iff, list_eq,
}

module _ (k : Paths) where
  -- The loop over the files of the include's last name
  unfoldable pub with_suffix : FilePath → List FilePath → List FilePath
  with_suffix include_path [] = []
  with_suffix include_path (p ∷ ps) =
      let rest = with_suffix include_path ps in
      if has_suffix include_path (k.lexically_normal p) then p ∷ rest else rest

  unfoldable pub insert_path : FilePath → List FilePath → List FilePath
  insert_path p [] = p ∷ []
  insert_path p (q ∷ ps) = if k.below q p then q ∷ insert_path p ps else p ∷ q ∷ ps

  unfoldable pub sort_paths : List FilePath → List FilePath
  sort_paths [] = []
  sort_paths (p ∷ ps) = insert_path p (sort_paths ps)

  -- `getFilesForInclude`
  unfoldable pub get_files_for_include : FilePath → List (Bytes × List FilePath) → List FilePath
  get_files_for_include spelling table =
      let include_path = k.lexically_normal spelling in
      if is_plain_include include_path
      then sort_paths (with_suffix include_path (at (last_part include_path) table))
      else []

  -- `getNearestFileForInclude`
  unfoldable pub get_nearest_file_for_include :
      FilePath → FilePath → List (Bytes × List FilePath) → Option FilePath
  get_nearest_file_for_include spelling source table =
      nearest_include k spelling source (at (last_part spelling) table)

  mem-insert_path :
      (z p : FilePath) (ps : List FilePath) → Memᴰ z (insert_path p ps) ↔ Memᴰ z (p ∷ ps)
  unfolding insert_path
  mem-insert_path z p [] = (λ m. m, λ m. m)
  mem-insert_path z p (q ∷ ps) = elim (Bool-cases (k.below q p)) [
    | inl y ↦ rw (y) (
      λ m.
          ⊎_elim (λ s. Memᴰ.tail (Memᴰ.head s))
            (λ t.
              ⊎_elim Memᴰ.head (λ r. Memᴰ.tail (Memᴰ.tail r))
                (Memᴰ.cases_cons ((mem-insert_path z p ps).0 t)))
            (Memᴰ.cases_cons m),
      λ m.
          ⊎_elim (λ s. Memᴰ.tail ((mem-insert_path z p ps).1 (Memᴰ.head s)))
            (λ t.
              ⊎_elim Memᴰ.head (λ r. Memᴰ.tail ((mem-insert_path z p ps).1 (Memᴰ.tail r)))
                (Memᴰ.cases_cons t))
            (Memᴰ.cases_cons m),
    )
    | inr y ↦ rw (y) (λ m. m, λ m. m)
  ]

  mem-sort_paths : (z : FilePath) (ps : List FilePath) → Memᴰ z (sort_paths ps) ↔ Memᴰ z ps
  unfolding sort_paths
  mem-sort_paths z [] = (λ m. m, λ m. m)
  mem-sort_paths z (p ∷ ps) = (
    λ m.
        ⊎_elim Memᴰ.head (λ t. Memᴰ.tail ((mem-sort_paths z ps).0 t))
          (Memᴰ.cases_cons ((mem-insert_path z p (sort_paths ps)).0 m)),
    λ m.
        (mem-insert_path z p (sort_paths ps)).1
          (⊎_elim Memᴰ.head (λ t. Memᴰ.tail ((mem-sort_paths z ps).1 t)) (Memᴰ.cases_cons m)),
  )

-- One path ends with the other.
abbrev pub EndsWith : FilePath → FilePath → Type 0
EndsWith suffix path = (front : FilePath) × (path ≡ front ++ suffix)

strip_suffix_sound :
    (s p : FilePath) → strip_suffix s p ≡ true → (rest : FilePath) × (p ≡ s ++ rest)
unfolding strip_suffix
strip_suffix_sound [] p h = (p, refl)
strip_suffix_sound (x ∷ s) [] h = absurd (ground (arith, h))
strip_suffix_sound (x ∷ s) (y ∷ p) h = elim (Bool-cases (list_eqb x y)) [
  | inl e ↦
      let (rest, q) = strip_suffix_sound s p (rw (e) at h) in (rest, cc (q, (list_eqb_iff x y).0 e))
  | inr e ↦ absurd (ground (arith, h, e))
]

strip_suffix_complete : (s rest : FilePath) → strip_suffix s (s ++ rest) ≡ true
unfolding strip_suffix
strip_suffix_complete [] rest = refl
strip_suffix_complete (x ∷ s) rest =
    rw ((list_eqb_iff x x).1 refl, strip_suffix_complete s rest) refl

reverse_onto-append : (acc p : FilePath) → reverse_onto acc p ≡ reverse_onto [] p ++ acc
reverse_onto-append acc [] = refl
reverse_onto-append acc (x ∷ p) =
    reverse_onto-append (x ∷ acc) p
    ∙ (sym (append_assoc (reverse_onto [] p) (x ∷ []) acc)
        ∙ ap (λ z. z ++ acc) (sym (reverse_onto-append (x ∷ []) p)))

reverse_append :
    (acc a b : FilePath) → reverse_onto acc (a ++ b) ≡ reverse_onto (reverse_onto acc a) b
reverse_append acc [] b = refl
reverse_append acc (x ∷ a) b = reverse_append (x ∷ acc) a b

reverse_twice : (acc p : FilePath) → reverse_onto [] (reverse_onto acc p) ≡ reverse_onto p acc
reverse_twice acc [] = refl
reverse_twice acc (x ∷ p) = reverse_twice (x ∷ acc) p

-- The loop over the ends of both paths finds whether one is a suffix of the other.
pub has_suffix_iff : (s p : FilePath) → (has_suffix s p ≡ true) ↔ EndsWith s p
unfolding has_suffix
has_suffix_iff s p = (
  λ h.
      let (rest, e) = strip_suffix_sound (reverse_onto [] s) (reverse_onto [] p) h in
      (reverse_onto [] rest, back rest e),
  λ (front, e).
      subst (λ z. strip_suffix (reverse_onto [] s) z ≡ true)
        (sym (
          ap (reverse_onto []) e
          ∙ (reverse_append [] front s ∙ reverse_onto-append (reverse_onto [] front) s)))
        (strip_suffix_complete (reverse_onto [] s) (reverse_onto [] front)),
)
  where
    back :
        (rest : FilePath)
        → reverse_onto [] p ≡ reverse_onto [] s ++ rest
        → p ≡ reverse_onto [] rest ++ s
    back rest e =
        sym (reverse_twice [] p)
        ∙ (ap (reverse_onto []) e
            ∙ (reverse_append [] (reverse_onto [] s) rest
                ∙ (ap (λ z. reverse_onto z rest) (reverse_twice [] s)
                    ∙ reverse_onto-append s rest)))

module _ (k : Paths) where
  mem-with_suffix :
      (s : FilePath) (ps : List FilePath) (x : FilePath)
      → Memᴰ x (with_suffix k s ps) ↔ (Memᴰ x ps × (has_suffix s (k.lexically_normal x) ≡ true))
  unfolding with_suffix
  mem-with_suffix s [] x = (λ m. absurd (Memᴰ.not-nil m), λ m. m.0)
  mem-with_suffix s (p ∷ ps) x = elim (Bool-cases (has_suffix s (k.lexically_normal p))) [
    | inl y ↦ rw (y) (
      λ m.
          ⊎_elim (λ e. (Memᴰ.head e, ap (λ z. has_suffix s (k.lexically_normal z)) e ∙ y))
            (λ t. let (n, f) = (mem-with_suffix s ps x).0 t in (Memᴰ.tail n, f))
            (Memᴰ.cases_cons m),
      λ (m, f).
          ⊎_elim Memᴰ.head (λ t. Memᴰ.tail ((mem-with_suffix s ps x).1 (t, f))) (Memᴰ.cases_cons m),
    )
    | inr y ↦ rw (y) (
      λ m. let (n, f) = (mem-with_suffix s ps x).0 m in (Memᴰ.tail n, f),
      λ (m, f).
          ⊎_elim
            (λ e. absurd (ground (arith, y, f, ap (λ z. has_suffix s (k.lexically_normal z)) e)))
            (λ t. (mem-with_suffix s ps x).1 (t, f)) (Memᴰ.cases_cons m),
    )
  ]

  -- The files for an include are those that the table has under its last name and whose normal form
  -- ends with the normal form of the include, if that is not empty, not absolute and has no way up;
  -- otherwise there are none.
  pub get_files_for_include_iff :
      (spelling : FilePath) (table : List (Bytes × List FilePath)) (x : FilePath)
      → Memᴰ x (get_files_for_include k spelling table) ↔ (
          (is_plain_include (k.lexically_normal spelling) ≡ true)
          × Memᴰ x (at (last_part (k.lexically_normal spelling)) table)
          × EndsWith (k.lexically_normal spelling) (k.lexically_normal x))
  unfolding get_files_for_include
  get_files_for_include_iff spelling table x =
      let s = k.lexically_normal spelling in
      let files = at (last_part s) table in
      elim (Bool-cases (is_plain_include s)) [
        | inl y ↦ rw (y) (
          λ m.
              let (n, f) =
                (mem-with_suffix s files x).0 ((mem-sort_paths k x (with_suffix k s files)).0 m) in
              (refl, n, (has_suffix_iff s (k.lexically_normal x)).0 f),
          λ (e, n, f).
              (mem-sort_paths k x (with_suffix k s files)).1
                ((mem-with_suffix s files x).1 (n, (has_suffix_iff s (k.lexically_normal x)).1 f)),
        )
        | inr y ↦ rw (y) (λ m. absurd (Memᴰ.not-nil m), λ (e, n, f). absurd (ground (arith, e)))
      ]
