-- ===== src/Rpc/Supersede.antt =====
-- JsonRpcServer.h: what a newer change of a document does to an older one.
use slang_server_verilator.Assoc.{find, find-assign}
use slang_server_verilator.Prelude.{
  ◌<◌, true, false, ◌≡◌, ◌≢◌, refl, ap, ◌∙◌, some, arith, Bytes, nat_eq, list_eq, list_eqb_iff,
}
use slang_server_verilator.Rpc.Later.{is_cancelled_cong, register_active-SameState}
use slang_server_verilator.Rpc.Register.{
  create_context, register_context, cancel, register_active, register_pending, supersede,
  did_change_key,
}
use slang_server_verilator.Rpc.Steps.{enqueue}
use slang_server_verilator.Rpc.Types.{
  id_eq, Request, Context, Routes, Server, flags_of, is_cancelled,
}
use slang_server_verilator.Rpc.Keeps.{register_active-keeps}

register_context_change :
    (ro : Routes) (r : Request) (c : Context) (s : Server) (u : Bytes)
    → did_change_key ro r ≡ some u
    → c.supports ≡ true
    → register_context ro r c s ≡ register_pending (some u) c (register_active r.id c s)
unfolding register_context
register_context_change ro r c s u key sup = rw (key, sup) (ground arith)

register_pending_supersedes :
    (u : Bytes) (old c : Context) (s : Server)
    → find u s.pending ≡ some old
    → old.serial ≢ c.serial
    → old.supports ≡ true
    → is_cancelled c s ≡ false
    → (is_cancelled old (register_pending (some u) c s) ≡ true)
      × (find u (register_pending (some u) c s).pending ≡ some c)
      × (is_cancelled c (register_pending (some u) c s) ≡ false)
unfolding register_pending supersede cancel is_cancelled
register_pending_supersedes u old c s was n sup live =
    rw (was, supersede)
      (ground (
        arith,
        find-assign u u c s.pending,
        list_eqb_iff u u,
        find-assign old.serial old.serial (record (flags_of old s) { cancelled = true }) s.flags,
        find-assign old.serial c.serial (record (flags_of old s) { cancelled = true }) s.flags,
      ))

create_context-pending :
    (ro : Routes) (r : Request) (s : Server) → (create_context ro r s).1.pending ≡ s.pending
unfolding create_context
create_context-pending ro r s = refl

create_context-supports :
    (ro : Routes) (r : Request) (s : Server)
    → (create_context ro r s).0.supports ≡ ro.cancellable r.method
unfolding create_context
create_context-supports ro r s = refl

create_context-serial :
    (ro : Routes) (r : Request) (s : Server) → (create_context ro r s).0.serial ≡ s.next_id
unfolding create_context
create_context-serial ro r s = refl

created_not_cancelled :
    (ro : Routes) (r : Request) (s : Server)
    → is_cancelled (create_context ro r s).0 (create_context ro r s).1 ≡ false
unfolding create_context is_cancelled
created_not_cancelled ro r s =
    ground (
      arith,
      find-assign s.next_id s.next_id (record { cancelled = false; started = false }) s.flags,
    )

-- A newer change of a document cancels the pending one, and takes its place; it is not cancelled
-- itself.
pub enqueue_supersedes :
    (ro : Routes) (r : Request) (u : Bytes) (old : Context) (s : Server)
    → did_change_key ro r ≡ some u
    → ro.cancellable r.method ≡ true
    → find u s.pending ≡ some old
    → old.supports ≡ true
    → old.serial < s.next_id
    → (is_cancelled old (enqueue ro r s) ≡ true)
      × (find u (enqueue ro r s).pending ≡ some (create_context ro r s).0)
      × (is_cancelled (create_context ro r s).0 (enqueue ro r s) ≡ false)
unfolding enqueue is_cancelled
enqueue_supersedes ro r u old s key can was sup older =
    let c = (create_context ro r s).0 in
    let s1 = (create_context ro r s).1 in
    let s2 = register_active r.id c s1 in
    let same = register_active-SameState r.id c s1 in
    let kept = (register_active-keeps r.id c s1).0 in
    let fresh = is_cancelled_cong c s1 s2 same.0 ∙ created_not_cancelled ro r s in
    let was2 = ap (find u) (kept ∙ create_context-pending ro r s) ∙ was in
    rw (register_context_change ro r c s1 u key (create_context-supports ro r s ∙ can)) (
      register_pending_supersedes u old c s2 was2 (λ e. omega (arith, create_context-serial ro r s))
        sup fresh)
