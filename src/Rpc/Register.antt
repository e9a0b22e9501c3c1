-- ===== src/Rpc/Register.antt =====
-- JsonRpcServer.h: `createContext`, `getDidChangeKey`, `registerContext`, `unregisterContext`,
-- `cancelRequest`; RequestContext.h: `cancel` and `markStarted`.
use slang_server_verilator.Assoc.{find, assign, erase}
use slang_server_verilator.Prelude.{
  ◌+◌, ◌%◌, ◌^◌, Bool, true, false, not, ◌&&◌, ◌||◌, Option, none, some, if◌then◌else◌, ◌==◌, Bytes,
  nat_eq, list_eq, list_eqb,
}
use slang_server_verilator.Rpc.Types.{
  RpcId, id_eq, Request, Context, fresh_flags, Routes, Server, has_state, has_id, flags_of,
  has_started,
}
use slang_server_verilator.Text.{codes}

-- The context gets the next number, and a state of its own.
unfoldable pub create_context : Routes → Request → Server → Context × Server
create_context ro r s = (
  record {
    serial = s.next_id;
    method = r.method;
    rpc_id = r.id;
    supports = ro.cancellable r.method;
  },
  record s { next_id = (s.next_id + 1) % 2 ^ 64; flags = assign s.next_id fresh_flags s.flags },
)

unfoldable pub cancel : Context → Server → Server
cancel c s =
    if has_state c
    then record s { flags = assign c.serial (record (flags_of c s) { cancelled = true }) s.flags }
    else s

unfoldable pub mark_started : Context → Server → Server
mark_started c s =
    if has_state c
    then record s { flags = assign c.serial (record (flags_of c s) { started = true }) s.flags }
    else s

change_params : Routes → Option Bytes → Option Bytes
change_params ro none = none
change_params ro (some p) = ro.change_uri p

unfoldable pub did_change_key : Routes → Request → Option Bytes
unfolding change_params
did_change_key ro r =
    if list_eqb r.method (codes "textDocument/didChange") then change_params ro r.params else none

-- `activeRequests.insert_or_assign(*request.id, ctx)`
unfoldable pub register_active : Option RpcId → Context → Server → Server
register_active none c s = s
register_active (some i) c s = record s { active = assign i c s.active }

-- A pending change of the same document, of another context, is cancelled.
unfoldable pub supersede : Option Context → Context → Server → Server
supersede none c s = s
supersede (some old) c s = if old.serial == c.serial then s else cancel old s

unfoldable pub register_pending : Option Bytes → Context → Server → Server
register_pending none c s = s
register_pending (some u) c s =
    let s' = supersede (find u s.pending) c s in record s' { pending = assign u c s'.pending }

unfoldable pub register_context : Routes → Request → Context → Server → Server
register_context ro r c s =
    if not (has_id r.id) && not c.supports
    then s
    else let s' = register_active r.id c s in
      if c.supports then register_pending (did_change_key ro r) c s' else s'

-- An entry is erased only if it is still the context's own.
abbrev pub owns : Option Context → Context → Bool
owns none c = false
owns (some old) c = old.serial == c.serial

unfoldable pub unregister_active : Option RpcId → Context → Server → Server
unregister_active none c s = s
unregister_active (some i) c s =
    if owns (find i s.active) c then record s { active = erase i s.active } else s

unfoldable pub unregister_pending : Option Bytes → Context → Server → Server
unregister_pending none c s = s
unregister_pending (some u) c s =
    if owns (find u s.pending) c then record s { pending = erase u s.pending } else s

unfoldable pub unregister_context : Routes → Request → Context → Server → Server
unregister_context ro r c s =
    if not (has_id r.id) && not c.supports
    then s
    else let s' = unregister_active r.id c s in
      if c.supports then unregister_pending (did_change_key ro r) c s' else s'

-- `cancelRequest`: a request that has started is cancelled only if its route supports that.
unfoldable pub cancel_target : Option Context → Server → Server
cancel_target none s = s
cancel_target (some c) s = if not (has_started c s) || c.supports then cancel c s else s

unfoldable pub cancel_request : RpcId → Server → Server
unfolding cancel_target
cancel_request i s = cancel_target (find i s.active) s
