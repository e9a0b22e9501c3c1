-- ===== src/Server/Outcome.antt =====
-- src/SlangServer.cpp: what a load of the configuration leaves.
use slang_server_verilator.Prelude.{Bool, true, false, ◌≡◌, refl, Option, none, some, arith, Bytes}
use slang_server_verilator.Server.Create.{
  Created, accept, refuse, create_for_explore, create_from_file_lists, compile_all,
}
use slang_server_verilator.Server.Load.{
  replace_driver, chosen_build, finish_load, conclude, create, load_config, load_result,
}
use slang_server_verilator.Server.Mode.{SameChoice, push_driver-SameChoice}
use slang_server_verilator.Server.Types.{Config, Loaded, loaded, failed, Drivers, Services, Server}

module _ {Settings Driver World Change : Type 0} (d : Drivers Settings Driver World Change)
    (v : Services Settings World Change) where
  -- What a load that took place leaves
  pub record IsLoaded (require : Bool) (s s' : Server Settings Driver World) : Type 0 where
    pub no_top : s'.top_file ≡ none
    pub build_file : s'.buildfile ≡ chosen_build d v require s.buildfile s'.config.build
    pub settled : s'.pending ≡ false
    pub rooted : s'.workspace ≡ s.workspace

  finish_load-IsLoaded :
      (c : Config Settings) (force require : Bool) (s t : Server Settings Driver World)
      → t.workspace ≡ s.workspace
      → IsLoaded require s
          (finish_load d v c force (chosen_build d v require s.buildfile c.build) t)
  unfolding finish_load
  finish_load-IsLoaded c force require s t h =
      let kept = push_driver-SameChoice d v (record t {
        config = c;
        buildfile = chosen_build d v require s.buildfile c.build;
        top_file = none;
        pending = false;
      }) in
      record {
        no_top = kept.top;
        build_file = ground (arith, kept.build, kept.same_config);
        settled = kept.waits;
        rooted = ground (arith, kept.folder, h);
      }

  conclude-IsLoaded :
      (made : Created d) (c : Config Settings) (force require : Bool)
      (s t : Server Settings Driver World)
      → t.workspace ≡ s.workspace
      → (conclude d v made c force (chosen_build d v require s.buildfile c.build) t).0 ≡ true
      → IsLoaded require s
          (conclude d v made c force (chosen_build d v require s.buildfile c.build) t).1
  unfolding conclude replace_driver
  conclude-IsLoaded (old, none, w) c force require s t h ok = absurd (ground (arith, ok))
  conclude-IsLoaded (old, some new, w) c force require s t h ok =
      finish_load-IsLoaded c force require s (replace_driver d v old new w t) h

  -- What a load that was refused leaves: all but the world
  pub record IsKept (s s' : Server Settings Driver World) : Type 0 where
    pub driver_kept : s'.driver ≡ s.driver
    pub choice_kept : SameChoice d v s s'

  conclude-IsKept :
      (made : Created d) (c : Config Settings) (force : Bool) (b : Option Bytes)
      (s t : Server Settings Driver World)
      → SameChoice d v s t
      → (made.1 ≡ none → made.0 ≡ s.driver)
      → (conclude d v made c force b t).0 ≡ false
      → IsKept s (conclude d v made c force b t).1
  unfolding conclude
  conclude-IsKept (old, none, w) c force b s t h same ok = record {
    driver_kept = same refl;
    choice_kept = record {
      top = h.top;
      build = h.build;
      waits = h.waits;
      folder = h.folder;
      same_config = h.same_config;
    };
  }
  conclude-IsKept (old, some new, w) c force b s t h same ok = absurd (ground (arith, ok))

  create_old :
      (b : Option Bytes) (c : Config Settings) (require : Bool) (s : Server Settings Driver World)
      → (create d v b c require s).1 ≡ none
      → (create d v b c require s).0 ≡ s.driver
  unfolding create create_for_explore create_from_file_lists accept refuse compile_all
  create_old none c require s e = ground arith
  create_old (some b) c require s e = ground arith

  pub load_config-IsLoaded :
      (c : Config Settings) (force require : Bool) (s : Server Settings Driver World)
      → (load_config d v c force require s).0 ≡ true
      → IsLoaded require s (load_config d v c force require s).1
  unfolding load_config
  load_config-IsLoaded c force require s ok = conclude-IsLoaded _ c force require s _ refl ok

  pub load_config-IsKept :
      (c : Config Settings) (force require : Bool) (s : Server Settings Driver World)
      → (load_config d v c force require s).0 ≡ false
      → IsKept s (load_config d v c force require s).1
  unfolding load_config
  load_config-IsKept c force require s ok =
      conclude-IsKept _ c force _ s _
        (record { top = refl; build = refl; waits = refl; folder = refl; same_config = refl })
        (λ e. create_old _ c require (record s { world = v.apply_level c s.world }) e) ok

  pub load_result-IsKept :
      (l : Loaded Settings) (s : Server Settings Driver World)
      → (load_result d v l true s).0 ≡ false
      → IsKept s (load_result d v l true s).1
  unfolding load_result
  load_result-IsKept (loaded c) s ok = load_config-IsKept c true true s ok
  load_result-IsKept (failed m) s ok = record {
    driver_kept = refl;
    choice_kept = record {
      top = refl;
      build = refl;
      waits = refl;
      folder = refl;
      same_config = refl;
    };
  }

  pub load_result-IsLoaded :
      (l : Loaded Settings) (s : Server Settings Driver World)
      → (load_result d v l true s).0 ≡ true
      → IsLoaded true s (load_result d v l true s).1
  unfolding load_result
  load_result-IsLoaded (loaded c) s ok = load_config-IsLoaded c true true s ok
  load_result-IsLoaded (failed m) s ok = absurd (ground (arith, ok))
