-- ===== src/Driver/Memory.antt =====
-- A source manager in memory: a buffer is a path with its text, and every file on the disk is empty.
use slang_server_verilator.Doc.Splice.{held}
use slang_server_verilator.Driver.Laws.{Same, IsManager, IsAnalysis}
use slang_server_verilator.Driver.Types.{Manager, Analysis}
use slang_server_verilator.Text.{codes}
use slang_server_verilator.Prelude.{
  true, false, [], ◌∷◌, ◌++◌, drop, ap, ◌∙◌, ◌≡◌, ◌≢◌, refl, sym, inl, inr, Option, none, some,
  arith, if◌then◌else◌, Bytes, Bool-cases, list_eqb, list_eqb_iff,
}

abbrev pub Buffer : Type 0
Buffer = Bytes × Bytes

-- The texts of the paths that are cached
abbrev pub Files : Type 0
Files = Bytes → Option Bytes

abbrev update : Bytes → Bytes → Files → Files
update p t s = λ q. if list_eqb p q then some t else s q

abbrev on_path : Bytes → Option Bytes → Option Buffer
on_path p none = none
on_path p (some t) = some (p, t)

abbrev read_text : Bytes → Option Bytes → Files → Option Buffer × Files
read_text p none s = (some (p, held []), update p (held []) s)
read_text p (some t) s = (some (p, t), s)

abbrev pub memory : Manager Buffer Files
memory = record {
  canonical = λ p. p;
  full_path = λ b. b.0;
  text = λ s b. b.1;
  latest = λ s p. on_path p (s p);
  is_latest = λ s b. true;
  read = λ p s. read_text p (s p) s;
  assign_text = λ p t s. ((p, held t), update p (held t) s);
  replace = λ b t s. ((b.0, t), update b.0 t s);
  reload = λ b s. (some (b.0, held []), update b.0 (held []) s);
}

-- The URI of a file, and the path that a URI has: what is in front of it is not looked at.
abbrev pub of_file : Bytes → Bytes
of_file p = codes "file://" ++ p

abbrev after_scheme : Bytes → Bytes
after_scheme u = drop 7 u

-- In use are the URIs of files.
abbrev pub IsOfFile : Bytes → Type 0
IsOfFile u = (p : Bytes) × (u ≡ of_file p)

-- An analysis that asks for the tree of its document; nothing includes a file.
abbrev pub one_tree : Analysis Buffer Files
one_tree = record {
  path = after_scheme;
  visits = λ t u w. of_file (after_scheme u) ∷ [];
  is_analyzed = λ t u. true;
  has_potential_includers = λ p w. false;
  contexts = λ p w. [];
  on_context = λ d b s. false;
  has_valid_buffers = λ d s. true;
  parse = λ b s. s;
  publish = λ t u w. w.client;
  has_analysis = λ d s. d.analysis;
  same_tree = λ d e. false;
}

apart : (p q : Bytes) → q ≢ p → list_eqb p q ≡ false
apart p q d = elim (Bool-cases (list_eqb p q)) [
  | inl y ↦ absurd (d (sym ((list_eqb_iff p q).0 y)))
  | inr y ↦ y
]

update-Same : (p q t : Bytes) (s : Files) → q ≢ p → Same memory q s (update p t s)
update-Same p q t s d = record { same_latest = rw (apart p q d) refl; same_text = λ b e. refl }

updated : (p t : Bytes) (s : Files) → on_path p (update p t s p) ≡ some (p, t)
updated p t s = rw ((list_eqb_iff p p).1 refl) refl

read_text-Same :
    (p q : Bytes) (o : Option Bytes) (s : Files) → q ≢ p → Same memory q s (read_text p o s).1
read_text-Same p q none s d = update-Same p q (held []) s d
read_text-Same p q (some t) s d = record { same_latest = refl; same_text = λ b e. refl }

read_text-latest :
    (p : Bytes) (o : Option Bytes) (s : Files) (b : Buffer)
    → s p ≡ o
    → (read_text p o s).0 ≡ some b
    → on_path p ((read_text p o s).1 p) ≡ some b
read_text-latest p none s b e h = ground (arith, updated p (held []) s, h)
read_text-latest p (some t) s b e h = rw (e) h

on_path-path : (p : Bytes) (o : Option Bytes) (b : Buffer) → on_path p o ≡ some b → b.0 ≡ p
on_path-path p none b h = absurd (ground (arith, h))
on_path-path p (some t) b h = ground (arith, h)

read_text-cached :
    (p : Bytes) (o : Option Bytes) (s : Files) (b : Buffer)
    → on_path p o ≡ some b
    → read_text p o s ≡ (some b, s)
read_text-cached p none s b h = absurd (ground (arith, h))
read_text-cached p (some t) s b h = rw (← h) refl

pub memory-IsManager : IsManager memory
memory-IsManager = record {
  latest_path = λ s p b h. on_path-path p (s p) b h;
  read_same = λ p q s d. read_text-Same p q (s p) s d;
  read_cached = λ p s b h. read_text-cached p (s p) s b h;
  read_new = λ p s b h. read_text-latest p (s p) s b refl h;
  canonical_again = λ p. refl;
  assign_same = λ p q t s d. update-Same p q (held t) s d;
  assign_new = λ p t s. updated p (held t) s;
  assign_held = λ p t s. refl;
  replace_same = λ b t q s d. update-Same b.0 q t s d;
  replace_new = λ b t s. updated b.0 t s;
  replace_held = λ b t s. refl;
  reload_same = λ b q s d. update-Same b.0 q (held []) s d;
  reload_new = λ b c s h. ground (arith, updated b.0 (held []) s, h);
  reload_failed = λ b q s h. absurd (ground (arith, h));
}

pub one_tree-IsAnalysis : IsAnalysis memory one_tree IsOfFile
one_tree-IsAnalysis = record {
  one_name = λ u v i j e.
      i.1 ∙ (ap of_file (sym (ap after_scheme i.1) ∙ (e ∙ ap after_scheme j.1)) ∙ sym j.1);
  visits_named = λ t u w. ((after_scheme u, refl), tt);
  no_includers = λ p w. refl;
  parse_same = λ b s p c e. record { same_latest = refl; same_text = λ d h. refl };
}

read_text_total :
    (p : Bytes) (o : Option Bytes) (s : Files) → (b : Buffer) × ((read_text p o s).0 ≡ some b)
read_text_total p none s = ((p, held []), refl)
read_text_total p (some t) s = ((p, t), refl)

pub always_read : (p : Bytes) (s : Files) → (b : Buffer) × ((memory.read p s).0 ≡ some b)
always_read p s = read_text_total p (s p) s
