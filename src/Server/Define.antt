-- ===== src/Server/Define.antt =====
-- src/SlangServer.cpp: `addDefine`. The JSON library's reading and writing of the file is a
-- parameter.
use slang_server_verilator.Prelude.{false, [], ◌∷◌, ◌++◌, Option, none, some, Bytes}
use slang_server_verilator.Server.Load.{local_json, load_files, set_build_file}
use slang_server_verilator.Server.Types.{Drivers, Services, Server}
use slang_server_verilator.Text.{codes}

-- The flags with one more: none where the file has no text under "flags"
unfoldable pub append_flag : Option Bytes → Bytes → Bytes
append_flag none flag = flag
append_flag (some []) flag = flag
append_flag (some (c ∷ cs)) flag = (c ∷ cs) ++ (b' ' ∷ flag)

module _ {Settings Driver World Change : Type 0} (d : Drivers Settings Driver World Change)
    (v : Services Settings World Change) where
  unfoldable pub write_define : Bytes → Bytes → World → World
  write_define path name w =
      v.write_flags path (append_flag (v.read_flags path w) (codes "-D" ++ name)) w

  unfoldable pub restore_build :
      Option Bytes → Server Settings Driver World → Server Settings Driver World
  restore_build none s = s
  restore_build (some build) s = set_build_file d v build s

  unfoldable pub define_in :
      Option Bytes → Bytes → Server Settings Driver World → Server Settings Driver World
  define_in none name s = record s {
    world = v.show_error (codes "Cannot add define: no workspace folder") s.world;
  }
  define_in (some folder) name s =
      restore_build s.buildfile
        (load_files d v false
          (record s { world = write_define (v.join folder local_json) name s.world })).1

  -- `addDefine`
  unfoldable pub add_define : Bytes → Server Settings Driver World → Server Settings Driver World
  add_define name s = define_in s.workspace name s
