-- ===== src/Index/Choice.antt =====
-- src/Indexer.cpp: what `nearestFiles` gives, once it has sorted what is nearest and left out doubles.
use mathlib.Core.List.{Memᴰ}
use mathlib.Core.List.Memᴰ
use mathlib.Core.Logic.{⊎_elim}
use slang_server_verilator.Index.Closest.{Scanned, Scanned-nil, scan_nearest-Scanned}
use slang_server_verilator.Index.Distinct.{mem-sort_entries, distinct_sound, distinct_complete}
use slang_server_verilator.Index.Nearest.{
  Paths, distance, located, keep_nearest, consider, scan_nearest, sort_entries, distinct,
  nearest_from, nearest_files,
}
use slang_server_verilator.Index.Types.{FilePath}
use slang_server_verilator.Prelude.{
  ℕ, ◌-◌, ◌^◌, ◌≤◌, List, [], ◌∷◌, ltb, ◌==◌, ◌≡◌, refl, ◌⊎◌, inl, inr, Option, none, some, arith,
  Bool-cases,
}

module _ {T : Type 0} (k : Paths) (get_path : T → Option FilePath) where
  -- A candidate is as near to the source as any.
  pub record IsNearest (source : FilePath) (candidates : List T) (p : FilePath) (x : T)
      : Type 0 where
    pub candidate : Memᴰ x candidates
    pub on_path : located k get_path source x ≡ some p
    pub least :
        (q : FilePath) (y : T)
        → Memᴰ y candidates
        → located k get_path source y ≡ some q
        → distance source p ≤ distance source q

  -- The scan has kept something, unless no candidate was as near as the limit.
  Reached : ℕ → ℕ × List (FilePath × T) → Type 0
  Reached limit s = (s.0 ≡ limit) ⊎ ((z : FilePath × T) × Memᴰ z s.1)

  keep_nearest-Reached :
      (limit d : ℕ) (p : FilePath) (x : T) (s : ℕ × List (FilePath × T))
      → Reached limit s
      → Reached limit (keep_nearest k get_path d p x s)
  unfolding keep_nearest Reached
  keep_nearest-Reached limit d p x (best, kept) h = elim (Bool-cases (ltb d best)) [
    | inl y ↦ rw (y) (inr ((p, x), Memᴰ.head refl))
    | inr y ↦ elim (Bool-cases (d == best)) [
      | inl z ↦ rw (y, z) (inr ((p, x), Memᴰ.append_right kept (Memᴰ.head refl)))
      | inr z ↦ rw (y, z) h
    ]
  ]

  scan_nearest-Reached :
      (limit : ℕ) (source : FilePath) (xs : List T) (s : ℕ × List (FilePath × T))
      → Reached limit s
      → Reached limit (scan_nearest k get_path source xs s)
  unfolding scan_nearest
  scan_nearest-Reached limit source [] s h = h
  scan_nearest-Reached limit source (x ∷ xs) s h =
      scan_nearest-Reached limit source xs _ (consider-Reached (located k get_path source x))
    where
      consider-Reached : (o : Option FilePath) → Reached limit (consider k get_path source o x s)
      consider-Reached none = unfold consider in h
      consider-Reached (some p) =
          unfold consider in keep_nearest-Reached limit (distance source p) p x s h

  module _ (source : FilePath) (candidates : List T) (s : ℕ × List (FilePath × T)) (limit : ℕ)
      (h : Scanned k get_path source candidates s) (r : Reached limit s) where
    scanned_sound : (p : FilePath) (x : T) → Memᴰ (p, x) s.1 → IsNearest source candidates p x
    scanned_sound p x m =
        let (there, at) = h.sound p x m in
        record {
          candidate = there;
          on_path = at.on_path;
          least = λ q y n e. omega (arith, at.far, h.nearest q y n e);
        }

    scanned_best :
        (p : FilePath) (y : T)
        → IsNearest source candidates p y
        → distance source p ≤ limit
        → distance source p ≡ s.0
    unfolding Reached
    scanned_best p y n d =
        let above = h.nearest p y n.candidate n.on_path in
        ⊎_elim (λ e. omega (arith, e, d, above))
          (λ ((q, z), m).
            let (there, at) = h.sound q z m in
            omega (arith, above, at.far, n.least q z there at.on_path))
          r

  chosen_lem :
      (source : FilePath) (candidates : List T) (limit : ℕ)
      → let given =
          distinct k get_path
            (sort_entries k get_path (scan_nearest k get_path source candidates (limit, [])).1) in
        ((x : T) → Memᴰ x given → (p : FilePath) × IsNearest source candidates p x)
        × ((p : FilePath) (y : T)
            → IsNearest source candidates p y
            → distance source p ≤ limit
            → (x : T) × (located k get_path source x ≡ some p) × Memᴰ x given)
  unfolding Reached
  chosen_lem source candidates limit =
      let s = scan_nearest k get_path source candidates (limit, []) in
      let scanned =
        scan_nearest-Scanned k get_path source candidates [] (limit, [])
          (Scanned-nil k get_path source limit) in
      let reached = scan_nearest-Reached limit source candidates (limit, []) (inl refl) in
      (
        λ x m.
            let (p, listed) = distinct_sound k get_path (sort_entries k get_path s.1) x m in
            (
              p,
              scanned_sound source candidates s limit scanned reached p x
                  ((mem-sort_entries k get_path (p, x) s.1).0 listed),
            ),
        λ p y n d.
            let best = scanned_best source candidates s limit scanned reached p y n d in
            let there =
              scanned.complete p y n.candidate (record { on_path = n.on_path; far = best }) in
            let kept =
              distinct_complete k get_path (sort_entries k get_path s.1) p y
                ((mem-sort_entries k get_path (p, y) s.1).1 there) in
            let back =
              scanned.sound p kept.chosen
                ((mem-sort_entries k get_path (p, kept.chosen) s.1).0 kept.entry) in
            (kept.chosen, back.1.on_path, kept.listed),
      )

  -- `nearestFiles`, of a source that has a canonical path, gives only candidates that have a canonical
  -- path with a way to it from the source's folder, and that are as near to the source as any such
  -- candidate; and for each nearest one, at a distance that size_t can hold, it gives one with the
  -- same canonical path.
  pub nearest_files_lem :
      (file source : FilePath) (candidates : List T)
      → k.weakly_canonical file ≡ some source
      → ((x : T)
          → Memᴰ x (nearest_files k get_path file candidates)
          → (p : FilePath) × IsNearest source candidates p x)
        × ((p : FilePath) (y : T)
            → IsNearest source candidates p y
            → distance source p ≤ 2 ^ 64 - 1
            → (x : T) × (located k get_path source x ≡ some p)
              × Memᴰ x (nearest_files k get_path file candidates))
  unfolding nearest_files nearest_from
  nearest_files_lem file source candidates e = rw (e) (chosen_lem source candidates (2 ^ 64 - 1))
