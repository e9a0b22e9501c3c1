-- ===== src/Server/Examples.antt =====
-- The server at concrete inputs: a world is whether the configuration can be read, and a driver is
-- the number of changes that it was told of.
use mathlib.Core.List.{Memᴰ}
use slang_server_verilator.Index.Types.{Index, empty_index}
use slang_server_verilator.Prelude.{
  ℕ, ◌+◌, Bool, true, false, ◌||◌, List, [], ◌∷◌, ◌++◌, ◌≡◌, refl, inr, ◌↔◌, Option, none, some,
  arith, if◌then◌else◌, Bytes, length, list_eqb, ◌==◌,
}
use slang_server_verilator.Server.History.{top, build, change, run, run-IsSettled}
use slang_server_verilator.Server.Create.{create_for_explore, accept, compile_all, take_over}
use slang_server_verilator.Server.Load.{reload_watched_config, read_config, create, chosen_build}
use slang_server_verilator.Server.Mode.{IsSettled, IsRooted}
use slang_server_verilator.Server.Notice.{Notice, Spaced, report_all, report_all-Spaced}
use slang_server_verilator.Server.Reload.{attempt}
use slang_server_verilator.Server.Symbols.{
  SyntaxKinds, WorkspaceSymbol, class_kind, get_workspace_symbol, IsFound, get_workspace_symbol_iff,
}
use slang_server_verilator.Server.Told.{
  any_change, is_config, is_read, sources, tell_all, on_watched_lem,
}
use slang_server_verilator.Server.Types.{Config, loaded, failed, Drivers, Services, Server}
use slang_server_verilator.Server.Watched.{on_watched, file_watchers, source_handler, tell_driver}
use slang_server_verilator.Watch.Dispatch.{dispatch, tell, matching, any_equal, add_extensions}
use slang_server_verilator.Text.{codes}

-- A change is its path; the extension is what follows the first dot.
abbrev after_dot : Bytes → Bytes
after_dot [] = []
after_dot (c ∷ s) = let rest = after_dot s in if c == b'.' then c ∷ s else rest

abbrev begins_with_slash : Bytes → Bool
begins_with_slash [] = false
begins_with_slash (c ∷ s) = c == b'/'

abbrev drivers : Drivers ℕ ℕ Bool Bytes
drivers = record {
  construct = λ c files folder require w. (0, w);
  config_loaded = λ x. true;
  has_documents = λ x. true;
  compile = λ x w. (x, w);
  clear_diags = λ x. x;
  copy_open = λ old new w. (old, new, w);
  publish_compilation = λ x w. (x, w);
  create_from_top = λ c t folder old w. (old, 0, w);
  push_diags = λ x w. (x, w);
  destroy = λ x w. w;
  on_watched = λ cs x w. (length cs + x, w);
  is_command_file = λ x p. list_eqb p (codes "/a/run.f");
}

abbrev plain_config : Config ℕ
plain_config = record { build = none; index_globs = []; exclude_dirs = []; settings = 0 }

abbrev services : Services ℕ Bool Bytes
services = record {
  default_config = plain_config;
  from_files = λ ws user loc w. if w then loaded plain_config else failed (codes "bad");
  home = λ w. none;
  under_tests = λ w. true;
  apply_level = λ c w. w;
  show_error = λ m w. w;
  set_config = λ c w. w;
  set_threads = λ c w. w;
  start_globs = λ gs ex w. w;
  start_indexing = λ c folder w. w;
  index_watched = λ cs w. w;
  sort_unique = λ gs. gs;
  is_absolute = begins_with_slash;
  join = λ folder p. folder ++ (b'/' ∷ p);
  join_normal = λ folder p. folder ++ (b'/' ∷ p);
  read_flags = λ p w. none;
  write_flags = λ p t w. w;
  weakly_canonical = λ p. some p;
  path = λ c. c;
  extension = after_dot;
}

join_absolute :
    (f p : Bytes) → begins_with_slash f ≡ true → begins_with_slash (f ++ (b'/' ∷ p)) ≡ true
join_absolute [] p h = absurd (ground (arith, h))
join_absolute (c ∷ f) p h = h

abbrev start : Bool → Option Bytes → Server ℕ ℕ Bool
start readable chosen = record {
  driver = some 0;
  buildfile = none;
  top_file = chosen;
  workspace = some (codes "/a");
  config = plain_config;
  pending = false;
  world = readable;
}

abbrev topped : Server ℕ ℕ Bool
topped = start false (some (codes "/a/t.sv"))

topped-IsSettled : IsSettled drivers services topped
topped-IsSettled = record { exclusive = inr refl; absolute = λ t e. ground (arith, e) }

topped-IsRooted : IsRooted drivers services topped
topped-IsRooted = record { rooted = λ f e. ground (arith, e) }

run-IsSettled_example : IsSettled drivers services (
    run drivers services
      (change (codes "/a/x.json" ∷ []) ∷ build (codes "run.f") ∷ top (codes "b.sv") ∷ [])
      topped)
run-IsSettled_example =
    run-IsSettled drivers services join_absolute
      (change (codes "/a/x.json" ∷ []) ∷ build (codes "run.f") ∷ top (codes "b.sv") ∷ []) topped
      topped-IsRooted topped-IsSettled

abbrev readable : Server ℕ ℕ Bool
readable = start true (some (codes "/a/t.sv"))

-- The configuration is read, and a driver is made for it.
attempted : attempt drivers services readable ≡ some (plain_config, 0)
unfolding attempt read_config create chosen_build create_for_explore accept compile_all take_over
attempted = refl

abbrev changes : List Bytes
changes = codes "/a/b.sv" ∷ codes "/a/c.txt" ∷ []

on_watched_example : on_watched drivers services changes (start true none) ≡ (
    if false
      || (any_change drivers services (λ c. is_config (after_dot c)) changes
          || any_change drivers services (is_read drivers services (some 0)) changes)
    then reload_watched_config drivers services (start true none)
    else tell_all drivers services (sources drivers services changes) (start true none))
on_watched_example = on_watched_lem drivers services changes (start true none)

-- A change of a source file is told.
told : (on_watched drivers services changes (start true none)).driver ≡ some 1
unfolding on_watched dispatch tell matching any_equal list_eqb file_watchers add_extensions
    source_handler tell_driver
told = refl

abbrev kinds : SyntaxKinds
kinds = record {
  interface_declaration = 1;
  module_declaration = 2;
  checker_declaration = 3;
  program_declaration = 4;
  package_declaration = 5;
  class_declaration = 6;
  function_declaration = 7;
  task_declaration = 8;
}

abbrev classes : Index
classes = record empty_index {
  symbol_to_files = (codes "MyClass", record { uri = codes "a" ∷ []; kind = 6 } ∷ []) ∷ [];
}

abbrev my_class : WorkspaceSymbol
my_class = record { path = codes "a" ∷ []; name = codes "MyClass"; kind = class_kind }

get_workspace_symbol_example :
    Memᴰ my_class (get_workspace_symbol kinds (codes "mc") classes)
    ↔ IsFound kinds (codes "mc") classes.symbol_to_files my_class
get_workspace_symbol_example = get_workspace_symbol_iff kinds (codes "mc") classes my_class

abbrev failure_at : ℕ → Notice
failure_at t = record { time = t; method = codes "m"; message = [] }

report_all-Spaced_example :
    Spaced
      (report_all
        (failure_at 5 ∷ failure_at 400000000000 ∷ [])
        (record { last = 0; sent = [] })).sent
report_all-Spaced_example = report_all-Spaced (failure_at 5 ∷ failure_at 400000000000 ∷ [])
