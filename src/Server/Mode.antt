-- ===== src/Server/Mode.antt =====
-- src/SlangServer.cpp: the build file and the top level that the user chose, across the calls that
-- change them and the reloads of the configuration.
use slang_server_verilator.Prelude.{
  true, [], ◌∷◌, ◌≡◌, refl, ◌⊎◌, inl, inr, Option, none, some, arith, Bytes, Option-cases,
}
use slang_server_verilator.Server.Load.{
  replace_driver, push_driver, install, set_explore, resolve_top, use_top, set_top_level,
  set_build_file,
}
use slang_server_verilator.Server.Create.{Created}
use slang_server_verilator.Server.Types.{Drivers, Services, Server}

module _ {Settings Driver World Change : Type 0} (d : Drivers Settings Driver World Change)
    (v : Services Settings World Change) where
  -- At most one of the two is chosen, and a top level is an absolute path.
  pub record IsSettled (s : Server Settings Driver World) : Type 0 where
    pub exclusive : (s.top_file ≡ none) ⊎ (s.buildfile ≡ none)
    pub absolute : (t : Bytes) → s.top_file ≡ some t → v.is_absolute t ≡ true

  -- The choices of two states agree.
  pub record SameChoice (s s' : Server Settings Driver World) : Type 0 where
    pub top : s'.top_file ≡ s.top_file
    pub build : s'.buildfile ≡ s.buildfile
    pub waits : s'.pending ≡ s.pending
    pub folder : s'.workspace ≡ s.workspace
    pub same_config : s'.config ≡ s.config

  pub push_driver-SameChoice : (s : Server Settings Driver World) → SameChoice s (push_driver d v s)
  unfolding push_driver
  push_driver-SameChoice s = elim (Option-cases s.driver) [
    | inl e ↦
        rw (e)
          (record { top = refl; build = refl; waits = refl; folder = refl; same_config = refl })
    | inr (x, e) ↦
        rw (e)
          (record { top = refl; build = refl; waits = refl; folder = refl; same_config = refl })
  ]

  pub install-SameChoice :
      (c : Created d) (s : Server Settings Driver World) → SameChoice s (install d v c s)
  unfolding install replace_driver
  install-SameChoice (old, none, w) s = record {
    top = refl;
    build = refl;
    waits = refl;
    folder = refl;
    same_config = refl;
  }
  install-SameChoice (old, some new, w) s = record {
    top = refl;
    build = refl;
    waits = refl;
    folder = refl;
    same_config = refl;
  }

  SameChoice-trans :
      {s t u : Server Settings Driver World} → SameChoice s t → SameChoice t u → SameChoice s u
  SameChoice-trans p q = record {
    top = ground (arith, p.top, q.top);
    build = ground (arith, p.build, q.build);
    waits = ground (arith, p.waits, q.waits);
    folder = ground (arith, p.folder, q.folder);
    same_config = ground (arith, p.same_config, q.same_config);
  }

  pub SameChoice-IsSettled :
      {s t : Server Settings Driver World} → SameChoice s t → IsSettled s → IsSettled t
  SameChoice-IsSettled p h = record {
    exclusive = ground (arith, p.top, p.build, h.exclusive);
    absolute = λ u e. ground (arith, p.top, h.absolute u);
  }

  IsSettled-explored :
      (s : Server Settings Driver World)
      → IsSettled (record s { buildfile = none; top_file = none })
  IsSettled-explored s = record {
    exclusive = inl refl;
    absolute = λ t e. absurd (ground (arith, e));
  }

  pub set_explore_choice :
      (s : Server Settings Driver World)
      → SameChoice (record s { buildfile = none; top_file = none }) (set_explore d v s)
  unfolding set_explore
  set_explore_choice s =
      SameChoice-trans (install-SameChoice _ (record s { buildfile = none; top_file = none }))
        (push_driver-SameChoice _)

  pub set_explore-IsSettled : (s : Server Settings Driver World) → IsSettled (set_explore d v s)
  set_explore-IsSettled s = SameChoice-IsSettled (set_explore_choice s) (IsSettled-explored s)

  pub set_build_file-IsSettled :
      (p : Bytes) (s : Server Settings Driver World) → IsSettled (set_build_file d v p s)
  unfolding set_build_file
  set_build_file-IsSettled [] s = set_explore-IsSettled s
  set_build_file-IsSettled (c ∷ p) s =
      SameChoice-IsSettled (install-SameChoice _ _)
        (record { exclusive = inl refl; absolute = λ t e. absurd (ground (arith, e)) })

  pub record IsRooted (s : Server Settings Driver World) : Type 0 where
    pub rooted : (f : Bytes) → s.workspace ≡ some f → v.is_absolute f ≡ true

  module _
      (join_absolute : (f p : Bytes)
        → v.is_absolute f ≡ true
        → v.is_absolute (v.join_normal f p) ≡ true) where
    resolve_top_absolute :
        (w : Option Bytes) (p t : Bytes)
        → ((f : Bytes) → w ≡ some f → v.is_absolute f ≡ true)
        → resolve_top d v w p ≡ some t
        → v.is_absolute t ≡ true
    unfolding resolve_top
    resolve_top_absolute none p t h e = ground arith
    resolve_top_absolute (some f) p t h e = ground (arith, join_absolute f p (h f refl))

    pub set_top_level-IsSettled :
        (p : Bytes) (s : Server Settings Driver World)
        → IsRooted s
        → IsSettled s
        → IsSettled (set_top_level d v p s)
    unfolding set_top_level use_top replace_driver
    set_top_level-IsSettled [] s r h = set_explore-IsSettled s
    set_top_level-IsSettled (c ∷ p) s r h =
        elim (Option-cases (resolve_top d v s.workspace (c ∷ p))) [
          | inl e ↦ rw (e) (record { exclusive = h.exclusive; absolute = h.absolute })
          | inr (t, e) ↦ rw (e) (record {
            exclusive = inr refl;
            absolute = λ u q. ground (arith, resolve_top_absolute s.workspace (c ∷ p) t r.rooted e);
          })
        ]
