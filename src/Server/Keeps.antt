-- ===== src/Server/Keeps.antt =====
-- src/SlangServer.cpp: that each call leaves at most one of a top level and a build file, and the
-- folder as it is.
use slang_server_verilator.Prelude.{
  Bool, true, false, List, [], ◌∷◌, ◌≡◌, refl, inl, inr, Option, none, some, arith, if◌then◌else◌,
  Bytes, Bool-cases, Option-cases,
}
use slang_server_verilator.Server.Define.{define_in, restore_build}
use slang_server_verilator.Server.Load.{
  is_some, use_top, resolve_top, replace_driver, set_explore, set_top_level, set_build_file,
  load_config, load_result, load_files, read_config,
}
use slang_server_verilator.Server.Mode.{
  IsSettled, set_explore_choice, install-SameChoice, SameChoice, SameChoice-IsSettled,
  set_explore-IsSettled, set_build_file-IsSettled,
}
use slang_server_verilator.Server.Outcome.{IsLoaded, load_config-IsLoaded, load_config-IsKept}
use slang_server_verilator.Server.Types.{Config, Loaded, loaded, failed, Drivers, Services, Server}
use slang_server_verilator.Server.Watched.{tell_driver}

module _ {Settings Driver World Change : Type 0} (d : Drivers Settings Driver World Change)
    (v : Services Settings World Change) where
  -- A call that leaves a settled server settled, and the folder as it is
  pub record Keeps (s s' : Server Settings Driver World) : Type 0 where
    pub still : IsSettled d v s → IsSettled d v s'
    pub folder : s'.workspace ≡ s.workspace

  pub Keeps-refl : (s : Server Settings Driver World) → Keeps s s
  Keeps-refl s = record { still = λ h. h; folder = refl }

  pub Keeps-trans : {s t u : Server Settings Driver World} → Keeps s t → Keeps t u → Keeps s u
  Keeps-trans p q = record {
    still = λ h. q.still (p.still h);
    folder = ground (arith, p.folder, q.folder);
  }

  Keeps-same : {s t : Server Settings Driver World} → SameChoice d v s t → Keeps s t
  Keeps-same p = record { still = SameChoice-IsSettled d v p; folder = p.folder }

  pub Keeps-world :
      (w : World) (s : Server Settings Driver World) → Keeps s (record s { world = w })
  Keeps-world w s = record {
    still = λ h. record { exclusive = h.exclusive; absolute = h.absolute };
    folder = refl;
  }

  Keeps-if :
      (b : Bool) {s : Server Settings Driver World} (x y : Bool × Server Settings Driver World)
      → Keeps s x.1
      → Keeps s y.1
      → Keeps s (if b then x else y).1
  Keeps-if true x y p q = p
  Keeps-if false x y p q = q

  pub Keeps-pending : (s : Server Settings Driver World) → Keeps s (record s { pending = true })
  Keeps-pending s = record {
    still = λ h. record { exclusive = h.exclusive; absolute = h.absolute };
    folder = refl;
  }

  pub tell_driver-Keeps :
      (o : Option Driver) (cs : List Change) (s : Server Settings Driver World)
      → Keeps s (tell_driver d v o cs s)
  unfolding tell_driver
  tell_driver-Keeps none cs s = Keeps-refl s
  tell_driver-Keeps (some x) cs s = record {
    still = λ h. record { exclusive = h.exclusive; absolute = h.absolute };
    folder = refl;
  }

  Keeps-loaded :
      {require : Bool} {s t : Server Settings Driver World} → IsLoaded d v require s t → Keeps s t
  Keeps-loaded p = record {
    still = λ h. record {
      exclusive = inl p.no_top;
      absolute = λ u e. absurd (ground (arith, p.no_top, e));
    };
    folder = p.rooted;
  }

  load_config-Keeps :
      (c : Config Settings) (force require : Bool) (s : Server Settings Driver World)
      → Keeps s (load_config d v c force require s).1
  load_config-Keeps c force require s = elim (Bool-cases (load_config d v c force require s).0) [
    | inl ok ↦ Keeps-loaded (load_config-IsLoaded d v c force require s ok)
    | inr fails ↦ Keeps-same (load_config-IsKept d v c force require s fails).choice_kept
  ]

  pub load_result-Keeps :
      (l : Loaded Settings) (require : Bool) (s : Server Settings Driver World)
      → Keeps s (load_result d v l require s).1
  unfolding load_result
  load_result-Keeps (loaded c) require s = load_config-Keeps c true require s
  load_result-Keeps (failed m) true s = Keeps-refl s
  load_result-Keeps (failed m) false s =
      let shown = record s { world = v.show_error m s.world } in
      Keeps-if (is_some s.driver) (false, shown) _ (Keeps-world _ s)
        (Keeps-trans (Keeps-world _ s) (load_config-Keeps v.default_config true false shown))

  pub set_explore-Keeps : (s : Server Settings Driver World) → Keeps s (set_explore d v s)
  set_explore-Keeps s = record {
    still = λ h. set_explore-IsSettled d v s;
    folder = (set_explore_choice d v s).folder;
  }

  pub set_build_file-Keeps :
      (p : Bytes) (s : Server Settings Driver World) → Keeps s (set_build_file d v p s)
  unfolding set_build_file
  set_build_file-Keeps [] s = set_explore-Keeps s
  set_build_file-Keeps (c ∷ p) s = record {
    still = λ h. set_build_file-IsSettled d v (c ∷ p) s;
    folder = (install-SameChoice d v _ _).folder;
  }

  restore_build-Keeps :
      (b : Option Bytes) (s : Server Settings Driver World) → Keeps s (restore_build d v b s)
  unfolding restore_build
  restore_build-Keeps none s = Keeps-refl s
  restore_build-Keeps (some b) s = set_build_file-Keeps b s

  pub define_in-Keeps :
      (w : Option Bytes) (name : Bytes) (s : Server Settings Driver World)
      → Keeps s (define_in d v w name s)
  unfolding define_in load_files
  define_in-Keeps none name s = Keeps-world _ s
  define_in-Keeps (some folder) name s = Keeps-trans (Keeps-world _ s) (
      Keeps-trans (load_result-Keeps (read_config d v _) false _)
        (restore_build-Keeps s.buildfile _))

  pub set_top_level_folder :
      (p : Bytes) (s : Server Settings Driver World)
      → (set_top_level d v p s).workspace ≡ s.workspace
  unfolding set_top_level use_top replace_driver
  set_top_level_folder [] s = (set_explore_choice d v s).folder
  set_top_level_folder (c ∷ p) s = elim (Option-cases (resolve_top d v s.workspace (c ∷ p))) [
    | inl e ↦ rw (e) refl
    | inr (t, e) ↦ rw (e) refl
  ]
