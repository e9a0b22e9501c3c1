-- ===== src/Server/Reload.antt =====
-- src/SlangServer.cpp: what a reload of the configuration leaves, whether it takes place or not.
use slang_server_verilator.Prelude.{
  true, false, ◌||◌, ◌≡◌, Option, none, some, if◌then◌else◌, Bytes,
}
use slang_server_verilator.Server.Load.{is_some, chosen_build, create, read_config}
use slang_server_verilator.Server.Types.{Config, Loaded, loaded, failed, Drivers, Services, Server}

module _ {Settings Driver World Change : Type 0} (d : Drivers Settings Driver World Change)
    (v : Services Settings World Change) where
  with_config : Config Settings → Option Driver → Option (Config Settings × Driver)
  with_config c none = none
  with_config c (some new) = some (c, new)

  attempt_of : Loaded Settings → Server Settings Driver World → Option (Config Settings × Driver)
  unfolding with_config
  attempt_of (failed message) s = none
  attempt_of (loaded c) s =
      with_config c
        (create d v (chosen_build d v true s.buildfile c.build) c true
          (record s { world = v.apply_level c s.world })).1

  -- The configuration that is read, and the driver that is made for it, of the build file that is
  -- chosen or else configured; none if the files do not parse or the driver is refused
  unfoldable pub attempt : Server Settings Driver World → Option (Config Settings × Driver)
  unfolding attempt_of
  attempt s = attempt_of (read_config d v s) s

  -- The server has the configuration, and the driver, whose diagnostics are pushed.
  record IsTaken (c : Config Settings) (new : Driver) (s' : Server Settings Driver World)
      : Type 0 where
    pub config_taken : s'.config ≡ c
    pub driver_taken : (w : World) × (s'.driver ≡ some (d.push_diags new w).0)

  -- The driver that the top level is restored with
  abbrev pub top_driver : Config Settings → Option Bytes → Option Bytes → Driver → World → Driver
  top_driver c folder none new w = new
  top_driver c folder (some p) new w = (d.create_from_top c p folder (some new) w).1

  -- A reload that takes place: the top level or the build file is what the user chose, or the
  -- configured build file if that was nothing. The driver is the new one, its diagnostics pushed, or
  -- what the top level makes of it.
  pub record IsReloaded (c : Config Settings) (new : Driver) (s s' : Server Settings Driver World)
      : Type 0 where
    pub done : s'.pending ≡ false
    pub new_settings : s'.config ≡ c
    pub same_top : s'.top_file ≡ s.top_file
    pub same_build :
        s'.buildfile ≡ (if is_some s.top_file || is_some s.buildfile then s.buildfile else c.build)
    pub new_driver :
        (w w' : World) × (s'.driver
          ≡ some (top_driver c s.workspace s.top_file (d.push_diags new w).0 w'))

  -- A reload that is put off
  pub record IsRetained (s s' : Server Settings Driver World) : Type 0 where
    pub waiting : s'.pending ≡ true
    pub same_driver : s'.driver ≡ s.driver
    pub same_choice : (s'.top_file ≡ s.top_file) × (s'.buildfile ≡ s.buildfile)
    pub same_settings : s'.config ≡ s.config
