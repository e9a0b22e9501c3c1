-- ===== src/Rpc/Tracked.antt =====
-- JsonRpcServer.h: every entry of `activeRequests` and of `pendingDocumentChanges` belongs to a
-- message that is still queued or being handled.
use slang_server_verilator.Prelude.{◌≡◌, refl, Option, none, some, list_eq}
use slang_server_verilator.Rpc.Types.{id_eq}

none_of_empty {ℓ} : {A : Type ℓ} (o : Option A) → ((a : A) → o ≡ some a → ⊥) → o ≡ none
none_of_empty none h = refl
none_of_empty (some a) h = absurd (h a refl)
