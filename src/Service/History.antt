-- ===== src/Service/History.antt =====
-- Histories of the service of crates/bloom-signer/src/service.rs, which serialises `sign` by its gate.
use bloom_signer.Prelude.{ℕ, Bool, ◌&&◌, List, [], ◌∷◌, Option, ◌==◌}
use bloom_signer.Signing.Request.{SignRequest}
use bloom_signer.Signing.State.{PlatformTimeReading}
use bloom_signer.Signing.Calls.{Call, step}
use bloom_signer.Service.Types.{BackendCall}
use bloom_signer.Service.Sign.{ServiceDeps, Service, sign}

-- A whole `sign`, or a call of the engine by another part of the daemon.
pub data ServiceCall : Type 0 where
  sign_call : SignRequest → Option PlatformTimeReading → ServiceCall
  engine_call : Call → ServiceCall

unfoldable pub serve : ServiceDeps → ServiceCall → Service → Service
serve d (sign_call request reading) s = (sign d request reading s).1
serve d (engine_call call) s = record s { engine = step d.engine call s.engine }

unfoldable pub serve_all : ServiceDeps → List ServiceCall → Service → Service
serve_all d [] s = s
serve_all d (call ∷ calls) s = serve_all d calls (serve d call s)

-- A backend call for the hash at an index of an operation.
unfoldable pub is_call : ℕ → ℕ → BackendCall → Bool
is_call operation index call = call.operation_id == operation && call.child_index == index
