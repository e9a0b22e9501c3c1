-- ===== src/Rpc/Examples.antt =====
-- The message loop at concrete inputs.
use slang_server_verilator.Assoc.{find, assign}
use slang_server_verilator.Prelude.Int.{pos}
use slang_server_verilator.Prelude.{
  ◌+◌, true, false, ◌∷◌, ◌≡◌, ◌≢◌, refl, none, some, arith, list_eq, list_eqb, nat_eq,
}
use slang_server_verilator.Rpc.Cancel.{cancelled_never_runs}
use slang_server_verilator.Rpc.Process.{begin, finish, raises}
use slang_server_verilator.Rpc.Register.{
  create_context, register_context, register_active, register_pending, supersede, did_change_key,
}
use slang_server_verilator.Rpc.Replies.{reply_count, owed, finish_replies}
use slang_server_verilator.Rpc.Steps.{here, enqueue, handle_cancel, start_server}
use slang_server_verilator.Rpc.Supersede.{enqueue_supersedes}
use slang_server_verilator.Rpc.Unregister.{Tracked}
use slang_server_verilator.Rpc.Types.{
  number, id_eq, id_eqb, Request, Context, idle, running, Routes, Server, failure,
  request_cancelled, is_cancelled, has_started,
}
use slang_server_verilator.Text.{codes}

abbrev routes : Routes
routes = record {
  has_request = λ m. list_eqb m (codes "textDocument/hover");
  has_notification = λ m. true;
  cancellable = λ m. list_eqb m (codes "textDocument/didChange");
  change_uri = λ p. some p;
  can_write = λ v. true;
}

abbrev hover : Request
hover = record { id = some (number (pos 7)); method = codes "textDocument/hover"; params = none }

abbrev change : Request
change = record {
  id = none;
  method = codes "textDocument/didChange";
  params = some (codes "file:///a.sv");
}

abbrev hover_context : Context
hover_context = record {
  serial = 1;
  method = codes "textDocument/hover";
  rpc_id = some (number (pos 7));
  supports = false;
}

abbrev change_context : Context
change_context = record {
  serial = 1;
  method = codes "textDocument/didChange";
  rpc_id = none;
  supports = true;
}

abbrev waiting : Server
waiting = enqueue routes hover start_server

cancelled_never_runs_example :
    ((handle_cancel routes (number (pos 7)) waiting).worker ≢ running hover hover_context)
    × ((begin routes hover hover_context (handle_cancel routes (number (pos 7)) waiting)).worker
        ≡ idle)
    × ((begin routes hover hover_context (handle_cancel routes (number (pos 7)) waiting)).sent
        ≡ failure (number (pos 7)) request_cancelled (codes "Request cancelled")
          ∷ (handle_cancel routes (number (pos 7)) waiting).sent)
unfolding enqueue create_context register_context register_active find assign id_eqb list_eqb
    has_started
cancelled_never_runs_example =
    cancelled_never_runs routes hover hover_context (number (pos 7)) waiting refl refl refl
      (omega arith) (omega arith) refl (λ e. cc e) refl refl here

enqueue_supersedes_example :
    (is_cancelled change_context (enqueue routes change (enqueue routes change start_server))
      ≡ true)
    × (find
          (codes "file:///a.sv")
          (enqueue routes change (enqueue routes change start_server)).pending
        ≡ some (create_context routes change (enqueue routes change start_server)).0)
    × (is_cancelled
          (create_context routes change (enqueue routes change start_server)).0
          (enqueue routes change (enqueue routes change start_server))
        ≡ false)
unfolding enqueue create_context register_context register_active register_pending supersede find
    list_eqb did_change_key assign
enqueue_supersedes_example =
    enqueue_supersedes routes change (codes "file:///a.sv") change_context
      (enqueue routes change start_server) refl refl refl refl (omega arith)

finish_replies_example :
    reply_count
      (number (pos 7))
      (finish routes hover hover_context (raises (codes "oops")) waiting).sent
    ≡ owed (some (number (pos 7))) (number (pos 7)) + reply_count (number (pos 7)) waiting.sent
finish_replies_example =
    finish_replies routes hover hover_context (raises (codes "oops")) waiting (number (pos 7))
