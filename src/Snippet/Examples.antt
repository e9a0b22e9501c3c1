-- ===== src/Snippet/Examples.antt =====
-- The snippet of a call with two arguments.
use slang_server_verilator.Prelude.{◌≡◌, nat_eq, some, drop}
use slang_server_verilator.Snippet.Read.{read_stop, placeholder, read_stop-append_placeholder}
use slang_server_verilator.Snippet.Types.{new_snippet, append_placeholder, next_tabstop}
use slang_server_verilator.Text.{codes}

read_stop-append_placeholder_example :
    read_stop
      (drop 2 (append_placeholder (codes "a} $b\\") (some 12) (new_snippet (codes "f("))).value)
    ≡ some (placeholder 12 (codes "a} $b\\"))
unfolding next_tabstop
read_stop-append_placeholder_example =
    read_stop-append_placeholder (codes "a} $b\\") (some 12) (new_snippet (codes "f("))
