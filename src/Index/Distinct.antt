-- ===== src/Index/Distinct.antt =====
-- src/Indexer.cpp: the sort of what is nearest, and doubles left out.
use mathlib.Core.List.{Memᴰ}
use mathlib.Core.List.Memᴰ
use mathlib.Core.Logic.{⊎_elim}
use slang_server_verilator.Index.Nearest.{
  Paths, insert_sorted, sort_entries, distinct_from, distinct,
}
use slang_server_verilator.Index.Types.{FilePath, path_eqb, path_eqb_iff}
use slang_server_verilator.Prelude.{
  List, [], ◌∷◌, ◌≡◌, refl, ◌∙◌, ap, ◌⊎◌, inl, inr, ◌↔◌, Option, Bool-cases,
}

module _ {T : Type 0} (k : Paths) (get_path : T → Option FilePath) where
  mem-insert_sorted :
      (z e : FilePath × T) (es : List (FilePath × T))
      → Memᴰ z (insert_sorted k get_path e es) ↔ ((z ≡ e) ⊎ Memᴰ z es)
  unfolding insert_sorted
  mem-insert_sorted z e [] = (Memᴰ.cases_cons, ⊎_elim Memᴰ.head Memᴰ.tail)
  mem-insert_sorted z e (f ∷ es) = elim (Bool-cases (k.below f.0 e.0)) [
    | inl y ↦ rw (y) (
      λ m.
          ⊎_elim (λ s. inr (Memᴰ.head s))
            (λ t. ⊎_elim inl (λ r. inr (Memᴰ.tail r)) ((mem-insert_sorted z e es).0 t))
            (Memᴰ.cases_cons m),
      ⊎_elim (λ s. Memᴰ.tail ((mem-insert_sorted z e es).1 (inl s)))
          (λ m.
            ⊎_elim Memᴰ.head (λ t. Memᴰ.tail ((mem-insert_sorted z e es).1 (inr t)))
              (Memᴰ.cases_cons m)),
    )
    | inr y ↦ rw (y) (Memᴰ.cases_cons, ⊎_elim Memᴰ.head Memᴰ.tail)
  ]

  pub mem-sort_entries :
      (z : FilePath × T) (es : List (FilePath × T))
      → Memᴰ z (sort_entries k get_path es) ↔ Memᴰ z es
  unfolding sort_entries
  mem-sort_entries z [] = (λ m. m, λ m. m)
  mem-sort_entries z (e ∷ es) = (
    λ m.
        ⊎_elim Memᴰ.head (λ t. Memᴰ.tail ((mem-sort_entries z es).0 t))
          ((mem-insert_sorted z e (sort_entries k get_path es)).0 m),
    λ m.
        (mem-insert_sorted z e (sort_entries k get_path es)).1
          (⊎_elim inl (λ t. inr ((mem-sort_entries z es).1 t)) (Memᴰ.cases_cons m)),
  )

  -- An entry that is kept
  pub record Kept (p : FilePath) (es : List (FilePath × T)) (xs : List T) : Type 0 where
    pub chosen : T
    pub entry : Memᴰ {A = FilePath × T} (p, chosen) es
    pub listed : Memᴰ chosen xs

  Kept-more :
      {p : FilePath} {es : List (FilePath × T)} {xs : List T} (e : FilePath × T) (x : T)
      → Kept p es xs
      → Kept p (e ∷ es) (x ∷ xs)
  Kept-more e x h = record {
    chosen = h.chosen;
    entry = Memᴰ.tail h.entry;
    listed = Memᴰ.tail h.listed;
  }

  first_wins :
      (r : FilePath) (y : T) (q : FilePath) (es : List (FilePath × T)) (xs : List T)
      → (q ≡ r) ⊎ Kept q es xs
      → Kept q ((r, y) ∷ es) (y ∷ xs)
  first_wins r y q es xs (inl s) = record {
    chosen = y;
    entry = Memᴰ.head (ap (λ z. (z, y)) s);
    listed = Memᴰ.head refl;
  }
  first_wins r y q es xs (inr t) = Kept-more (r, y) y t

  distinct_from_sound :
      (p : FilePath) (es : List (FilePath × T)) (x : T)
      → Memᴰ x (distinct_from k get_path p es)
      → (q : FilePath) × Memᴰ {A = FilePath × T} (q, x) es
  unfolding distinct_from
  distinct_from_sound p [] x m = absurd (Memᴰ.not-nil m)
  distinct_from_sound p ((q, y) ∷ es) x m = elim (Bool-cases (path_eqb q p)) [
    | inl e ↦ let (r, t) = distinct_from_sound q es x (rw (e) at m) in (r, Memᴰ.tail t)
    | inr e ↦
        ⊎_elim (λ s. (q, Memᴰ.head (ap (λ z. (q, z)) s)))
          (λ t. let (r, t') = distinct_from_sound q es x t in (r, Memᴰ.tail t'))
          (Memᴰ.cases_cons (rw (e) at m))
  ]

  distinct_from_complete :
      (p : FilePath) (es : List (FilePath × T)) (q : FilePath) (x : T)
      → Memᴰ {A = FilePath × T} (q, x) es
      → (q ≡ p) ⊎ Kept q es (distinct_from k get_path p es)
  unfolding distinct_from
  distinct_from_complete p [] q x m = absurd (Memᴰ.not-nil m)
  distinct_from_complete p ((r, y) ∷ es) q x m =
      let later : (q ≡ r) ⊎ Kept q es (distinct_from k get_path r es) =
        ⊎_elim (λ s. inl (ap (λ z. z.0) s)) (λ t. distinct_from_complete r es q x t)
          (Memᴰ.cases_cons m) in
      elim (Bool-cases (path_eqb r p)) [
        | inl e ↦ rw (e) (
            ⊎_elim (λ s. inl (s ∙ (path_eqb_iff r p).0 e))
              (λ t.
                inr (record { chosen = t.chosen; entry = Memᴰ.tail t.entry; listed = t.listed }))
              later)
        | inr e ↦ rw (e) (inr (first_wins r y q es (distinct_from k get_path r es) later))
      ]

  pub distinct_sound :
      (es : List (FilePath × T)) (x : T)
      → Memᴰ x (distinct k get_path es)
      → (q : FilePath) × Memᴰ {A = FilePath × T} (q, x) es
  unfolding distinct
  distinct_sound [] x m = absurd (Memᴰ.not-nil m)
  distinct_sound ((p, y) ∷ es) x m =
      ⊎_elim (λ s. (p, Memᴰ.head (ap (λ z. (p, z)) s)))
        (λ t. let (r, t') = distinct_from_sound p es x t in (r, Memᴰ.tail t')) (Memᴰ.cases_cons m)

  pub distinct_complete :
      (es : List (FilePath × T)) (q : FilePath) (x : T)
      → Memᴰ {A = FilePath × T} (q, x) es
      → Kept q es (distinct k get_path es)
  unfolding distinct
  distinct_complete [] q x m = absurd (Memᴰ.not-nil m)
  distinct_complete ((p, y) ∷ es) q x m = first_wins p y q es (distinct_from k get_path p es) (
      ⊎_elim (λ s. inl (ap (λ z. z.0) s)) (λ t. distinct_from_complete p es q x t)
        (Memᴰ.cases_cons m))
