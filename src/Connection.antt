-- ===== src/Connection.antt =====
-- `client_connection` of common/include/protocol.h. The server shares these structures by pointer
-- between threads, so they live in a store.
use secure_chat.Prelude.{◌≡◌, arith, ℕ, Bool, Option, Text, ◌==◌, if◌then◌else◌}
use secure_chat.Protocol.Number.{ℤ}

abbrev pub Ptr : Type 0
Ptr = ℕ

-- `req` is the request behind the connection, `none` for NULL; so is `uid`.
pub record ClientConnection : Type 0 where
  pub req : Option Ptr
  pub id : ℤ
  pub uid : Option Text
  pub username : Text
  pub is_ready : Bool
  pub is_inserted : Bool
  pub ping_sent : Bool

abbrev pub Store : Type 0
Store = Ptr → ClientConnection

abbrev pub write : Store → Ptr → ClientConnection → Store
write σ p c q = if q == p then c else σ q

pub write_self : (σ : Store) (p : Ptr) (c : ClientConnection) → write σ p c p ≡ c
write_self σ p c = ground arith
