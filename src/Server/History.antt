-- ===== src/Server/History.antt =====
-- src/SlangServer.cpp: the calls that change the mode, in any order.
use slang_server_verilator.Prelude.{
  Bool, true, false, List, [], ◌∷◌, ◌≡◌, inl, inr, Option, none, some, arith, if◌then◌else◌, Bytes,
  Bool-cases,
}
use slang_server_verilator.Server.Define.{add_define}
use slang_server_verilator.Server.Keeps.{
  Keeps, Keeps-refl, Keeps-trans, Keeps-world, Keeps-pending, tell_driver-Keeps, load_result-Keeps,
  set_explore-Keeps, set_build_file-Keeps, define_in-Keeps, set_top_level_folder,
}
use slang_server_verilator.Server.Load.{
  set_explore, set_top_level, set_build_file, load_result, load_files, read_config,
  reload_watched_config, restore_top,
}
use slang_server_verilator.Server.Mode.{IsSettled, IsRooted, set_top_level-IsSettled}
use slang_server_verilator.Server.Types.{Drivers, Services, Server}
use slang_server_verilator.Server.Watched.{
  on_watched, names_command, command_handler, source_handler, config_handler, file_watchers,
}
use slang_server_verilator.Watch.Dispatch.{Watcher, add_extensions, matching, tell, dispatch}

-- The calls of the client that reload or change the mode; `change` is a notification on files.
pub data Call (Change : Type 0) : Type 0 where
  explore : Call Change
  top build define : Bytes → Call Change
  load : Call Change
  change : List Change → Call Change

module _ {Settings Driver World Change : Type 0} (d : Drivers Settings Driver World Change)
    (v : Services Settings World Change) where
  unfoldable pub step : Call Change → Server Settings Driver World → Server Settings Driver World
  step explore s = set_explore d v s
  step (top path) s = set_top_level d v path s
  step (build path) s = set_build_file d v path s
  step (define name) s = add_define d v name s
  step load s = (load_files d v false s).1
  step (change changes) s = on_watched d v changes s

  unfoldable pub run :
      List (Call Change) → Server Settings Driver World → Server Settings Driver World
  run [] s = s
  run (c ∷ cs) s = run cs (step c s)

  IsRooted-same :
      {s t : Server Settings Driver World}
      → t.workspace ≡ s.workspace
      → IsRooted d v s
      → IsRooted d v t
  IsRooted-same e r = record { rooted = λ f p. r.rooted f (ground (arith, e, p)) }

  module _
      (join_absolute : (f p : Bytes)
        → v.is_absolute f ≡ true
        → v.is_absolute (v.join_normal f p) ≡ true) where
    -- What is kept where the folder is an absolute path
    record Holds (s s' : Server Settings Driver World) : Type 0 where
      holds : IsRooted d v s → IsSettled d v s → IsRooted d v s' × IsSettled d v s'

    Holds-kept : {s s' : Server Settings Driver World} → Keeps d v s s' → Holds s s'
    Holds-kept k = record { holds = λ r h. (IsRooted-same k.folder r, k.still h) }

    Holds-trans : {s t u : Server Settings Driver World} → Holds s t → Holds t u → Holds s u
    Holds-trans p q = record { holds = λ r h. let (r', h') = p.holds r h in q.holds r' h' }

    set_top_level-Holds :
        (p : Bytes) (s : Server Settings Driver World) → Holds s (set_top_level d v p s)
    set_top_level-Holds p s = record {
      holds = λ r h. (
        IsRooted-same (set_top_level_folder d v p s) r,
        set_top_level-IsSettled d v join_absolute p s r h,
      );
    }

    restore_top-Holds :
        (t : Option Bytes) (s : Server Settings Driver World) → Holds s (restore_top d v t s)
    unfolding restore_top
    restore_top-Holds none s = Holds-kept (Keeps-refl d v s)
    restore_top-Holds (some t) s = set_top_level-Holds t s

    Holds-if :
        (b : Bool) {s t u : Server Settings Driver World}
        → Holds s t
        → Holds s u
        → Holds s (if b then t else u)
    Holds-if true p q = p
    Holds-if false p q = q

    reload-Holds : (s : Server Settings Driver World) → Holds s (reload_watched_config d v s)
    unfolding reload_watched_config load_files
    reload-Holds s =
        let loads = Holds-kept (load_result-Keeps d v (read_config d v s) true s) in
        Holds-if (load_result d v (read_config d v s) true s).0
          (Holds-trans loads (restore_top-Holds s.top_file _))
          (Holds-trans loads (Holds-kept (Keeps-pending d v _)))

    on_command-Holds :
        (cs : List Change) (s : Server Settings Driver World) → Holds s (command_handler d v cs s).1
    unfolding command_handler
    on_command-Holds cs s = elim (Bool-cases (names_command d v s.driver cs)) [
      | inl e ↦ rw (e) (reload-Holds s)
      | inr e ↦ rw (e) (Holds-kept (Keeps-refl d v s))
    ]

    on_source-Holds :
        (cs : List Change) (s : Server Settings Driver World) → Holds s (source_handler d v cs s).1
    unfolding source_handler
    on_source-Holds cs s =
        Holds-kept (Keeps-trans d v (Keeps-world d v _ s) (tell_driver-Keeps d v s.driver cs _))

    tell-Holds :
        (w : Watcher Change (Server Settings Driver World))
        → ((cs : List Change) (s : Server Settings Driver World) → Holds s (w.handler cs s).1)
        → (cs : List Change) (s : Server Settings Driver World) → Holds s (tell w cs s).1
    unfolding tell
    tell-Holds w h [] s = Holds-kept (Keeps-refl d v s)
    tell-Holds w h (c ∷ cs) s = h (c ∷ cs) s

    -- Every handler holds what is to be kept.
    abbrev AllHold : List (Watcher Change (Server Settings Driver World)) → Type 0
    AllHold [] = Unit
    AllHold (w ∷ ws) =
        ((cs : List Change) (s : Server Settings Driver World) → Holds s (w.handler cs s).1)
        × AllHold ws

    dispatch-Holds :
        (ws : List (Watcher Change (Server Settings Driver World)))
        → AllHold ws
        → (cs : List Change) (s : Server Settings Driver World)
        → Holds s (dispatch v.extension ws cs s)
    unfolding dispatch
    dispatch-Holds [] h cs s = Holds-kept (Keeps-refl d v s)
    dispatch-Holds (w ∷ ws) (h, hs) cs s =
        let told = tell-Holds w h (matching v.extension w cs) s in
        Holds-if (tell w (matching v.extension w cs) s).0 told
          (Holds-trans told (dispatch-Holds ws hs cs _))

    file_watchers-AllHold : AllHold (file_watchers d v)
    unfolding file_watchers add_extensions config_handler
    file_watchers-AllHold = (λ cs s. reload-Holds s, (on_command-Holds, (on_source-Holds, tt)))

    on_watched-Holds :
        (cs : List Change) (s : Server Settings Driver World) → Holds s (on_watched d v cs s)
    unfolding on_watched
    on_watched-Holds cs s =
        Holds-if s.pending (reload-Holds s)
          (dispatch-Holds (file_watchers d v) file_watchers-AllHold cs s)

    step-Holds : (c : Call Change) (s : Server Settings Driver World) → Holds s (step c s)
    unfolding step add_define load_files
    step-Holds explore s = Holds-kept (set_explore-Keeps d v s)
    step-Holds (top p) s = set_top_level-Holds p s
    step-Holds (build p) s = Holds-kept (set_build_file-Keeps d v p s)
    step-Holds (define name) s = Holds-kept (define_in-Keeps d v s.workspace name s)
    step-Holds load s = Holds-kept (load_result-Keeps d v (read_config d v s) false s)
    step-Holds (change cs) s = on_watched-Holds cs s

    -- After any sequence of calls that explore, set a top level or a build file, add a define, load
    -- the configuration or tell of watched files, a server that had at most one of a top level and a
    -- build file, the top level an absolute path, has so still. This is where the folder of the
    -- workspace is an absolute path, and joining it to a path gives one.
    pub run-IsSettled :
        (cs : List (Call Change)) (s : Server Settings Driver World)
        → IsRooted d v s
        → IsSettled d v s
        → IsSettled d v (run cs s)
    unfolding run
    run-IsSettled [] s r h = h
    run-IsSettled (c ∷ cs) s r h =
        let (r', h') = (step-Holds c s).holds r h in run-IsSettled cs (step c s) r' h'
