-- ===== src/Server/Told.antt =====
-- src/SlangServer.cpp: who is told of a notification on watched files.
use slang_server_verilator.Prelude.{
  Bool, true, false, ◌||◌, List, [], ◌∷◌, ◌≡◌, refl, ap, Option, none, some, arith, if◌then◌else◌,
  Bytes, list_eqb,
}
use slang_server_verilator.Server.Load.{reload_watched_config}
use slang_server_verilator.Server.Types.{Drivers, Services, Server}
use slang_server_verilator.Server.Watched.{
  names_command, is_command, config_handler, command_handler, tell_driver, source_handler,
  file_watchers, on_watched,
}
use slang_server_verilator.Text.{codes}
use slang_server_verilator.Watch.Dispatch.{
  Watcher, any_equal, add_extensions, matching, tell, dispatch,
}

-- The classes of files by their extension
abbrev pub is_config : Bytes → Bool
is_config e = list_eqb (codes ".json") e

abbrev pub is_command_list : Bytes → Bool
is_command_list e = list_eqb (codes ".f") e

abbrev pub is_source : Bytes → Bool
is_source e =
    list_eqb (codes ".sv") e
    || list_eqb (codes ".svh") e
    || list_eqb (codes ".v") e
    || list_eqb (codes ".vh") e

module _ {Settings Driver World Change : Type 0} (d : Drivers Settings Driver World Change)
    (v : Services Settings World Change) where
  abbrev not_empty : List Change → Bool
  not_empty [] = false
  not_empty (c ∷ cs) = true

  if-or :
      (a b : Bool) (x y : Server Settings Driver World)
      → (if a then x else if b then x else y) ≡ (if a || b then x else y)
  if-or a b x y = ground arith

  -- Whether some change is of a class
  unfoldable pub any_change : (Change → Bool) → List Change → Bool
  any_change p [] = false
  any_change p (c ∷ cs) = p c || any_change p cs

  -- The changes of source files, in their order
  unfoldable pub sources : List Change → List Change
  sources [] = []
  sources (c ∷ cs) = let rest = sources cs in if is_source (v.extension c) then c ∷ rest else rest

  -- A command file that the driver has read
  unfoldable pub is_read : Option Driver → Change → Bool
  is_read driver c = if is_command_list (v.extension c) then is_command d v driver c else false

  -- The indexer is told first; then the driver, if there is one, in the world that this leaves.
  abbrev pub both_told :
      List Change → Option Driver → Server Settings Driver World → Server Settings Driver World
  both_told cs none s = record s { world = v.index_watched cs s.world }
  both_told cs (some driver) s = record s {
    driver = some (d.on_watched cs driver (v.index_watched cs s.world)).0;
    world = (d.on_watched cs driver (v.index_watched cs s.world)).1;
  }

  unfoldable pub tell_all :
      List Change → Server Settings Driver World → Server Settings Driver World
  tell_all [] s = s
  tell_all (c ∷ cs) s = both_told (c ∷ cs) s.driver s

  abbrev config_watcher : List Bytes → Watcher Change (Server Settings Driver World)
  config_watcher ps = record {
    patterns = ps;
    extensions = codes ".json" ∷ [];
    handler = config_handler d v;
  }

  abbrev command_watcher : List Bytes → Watcher Change (Server Settings Driver World)
  command_watcher ps = record {
    patterns = ps;
    extensions = codes ".f" ∷ [];
    handler = command_handler d v;
  }

  abbrev source_watcher : List Bytes → Watcher Change (Server Settings Driver World)
  source_watcher ps = record {
    patterns = ps;
    extensions = codes ".sv" ∷ codes ".svh" ∷ codes ".v" ∷ codes ".vh" ∷ [];
    handler = source_handler d v;
  }

  -- Which changes the first two watchers take
  any_change-json :
      (cs : List Change) (ps : List Bytes)
      → any_change (λ c. is_config (v.extension c)) cs
        ≡ not_empty (matching v.extension (config_watcher ps) cs)
  unfolding any_change matching any_equal
  any_change-json [] ps = refl
  any_change-json (c ∷ cs) ps = ground (arith, any_change-json cs ps)

  any_change-command :
      (cs : List Change) (ps : List Bytes) (driver : Option Driver)
      → any_change (is_read driver) cs
        ≡ names_command d v driver (matching v.extension (command_watcher ps) cs)
  unfolding any_change matching any_equal is_read names_command
  any_change-command [] ps driver = refl
  any_change-command (c ∷ cs) ps driver = ground (arith, any_change-command cs ps driver)

  sources-matching :
      (cs : List Change) (ps : List Bytes)
      → sources cs ≡ matching v.extension (source_watcher ps) cs
  unfolding sources matching any_equal
  sources-matching [] ps = refl
  sources-matching (c ∷ cs) ps = ground (arith, sources-matching cs ps)

  tell-config :
      (ps : List Bytes) (ms : List Change) (s : Server Settings Driver World)
      → tell (config_watcher ps) ms s
        ≡ (if not_empty ms then (true, reload_watched_config d v s) else (false, s))
  unfolding tell config_handler
  tell-config ps [] s = refl
  tell-config ps (c ∷ cs) s = refl

  tell-command :
      (ps : List Bytes) (ms : List Change) (s : Server Settings Driver World)
      → tell (command_watcher ps) ms s ≡ (
          if names_command d v s.driver ms then (true, reload_watched_config d v s) else (false, s))
  unfolding tell command_handler names_command
  tell-command ps [] s = refl
  tell-command ps (c ∷ cs) s = refl

  tell_driver-both_told :
      (cs : List Change) (o : Option Driver) (s : Server Settings Driver World)
      → s.driver ≡ o
      → tell_driver d v o cs (record s { world = v.index_watched cs s.world }) ≡ both_told cs o s
  unfolding tell_driver
  tell_driver-both_told cs none s e = refl
  tell_driver-both_told cs (some driver) s e = refl

  tell-source :
      (ps : List Bytes) (ms : List Change) (s : Server Settings Driver World)
      → tell (source_watcher ps) ms s ≡ (false, tell_all ms s)
  unfolding tell source_handler tell_all
  tell-source ps [] s = refl
  tell-source ps (c ∷ cs) s = ap (λ r. (false, r)) (tell_driver-both_told (c ∷ cs) s.driver s refl)

  -- A watcher that takes all or does nothing
  dispatch-cons :
      (w : Watcher Change (Server Settings Driver World))
      (ws : List (Watcher Change (Server Settings Driver World))) (cs : List Change)
      (s r : Server Settings Driver World) (b : Bool)
      → tell w (matching v.extension w cs) s ≡ (if b then (true, r) else (false, s))
      → dispatch v.extension (w ∷ ws) cs s ≡ (if b then r else dispatch v.extension ws cs s)
  unfolding dispatch
  dispatch-cons w ws cs s r true e = rw (e) refl
  dispatch-cons w ws cs s r false e = rw (e) refl

  dispatch-source :
      (rs : List Bytes) (cs : List Change) (s : Server Settings Driver World)
      → dispatch v.extension (source_watcher rs ∷ []) cs s ≡ tell_all (sources cs) s
  unfolding dispatch
  dispatch-source rs cs s =
      rw (sources-matching cs rs, tell-source rs (matching v.extension (source_watcher rs) cs) s)
        refl

  -- The dispatch over three such watchers
  dispatch_three :
      (ps qs rs : List Bytes) (cs : List Change) (s : Server Settings Driver World)
      → dispatch v.extension (config_watcher ps ∷ command_watcher qs ∷ source_watcher rs ∷ []) cs s
        ≡ (if any_change (λ c. is_config (v.extension c)) cs || any_change (is_read s.driver) cs
            then reload_watched_config d v s
            else tell_all (sources cs) s)
  dispatch_three ps qs rs cs s =
      let first = any_change (λ c. is_config (v.extension c)) cs in
      let second = any_change (is_read s.driver) cs in
      let config_told =
        dispatch-cons (config_watcher ps) (command_watcher qs ∷ source_watcher rs ∷ []) cs s
          (reload_watched_config d v s) first (rw (any_change-json cs ps) (tell-config ps _ s)) in
      let command_told =
        dispatch-cons (command_watcher qs) (source_watcher rs ∷ []) cs s
          (reload_watched_config d v s) second
          (rw (any_change-command cs qs s.driver) (tell-command qs _ s)) in
      rw (config_told, command_told, dispatch-source rs cs s) (if-or first second _ _)

  -- A notification is a reload, if one is pending, if it has a configuration file, or if it has a
  -- command file that the driver has read. Otherwise, and only then, the indexer and the driver are
  -- told of its source files, if it has any: the indexer, and after it the driver if there is one.
  pub on_watched_lem :
      (cs : List Change) (s : Server Settings Driver World)
      → on_watched d v cs s ≡ (
          if s.pending
            || (any_change (λ c. is_config (v.extension c)) cs || any_change (is_read s.driver) cs)
          then reload_watched_config d v s
          else tell_all (sources cs) s)
  unfolding on_watched file_watchers add_extensions
  on_watched_lem cs s = rw (dispatch_three _ _ _ cs s) (if-or s.pending _ _ _)
