-- ===== src/Client.antt =====
-- The client: client/include/client.h and client/include/client_gui.h. The socket and the SSL
-- objects are left to the connection of `Ssl`.
pub mod Display
pub mod Handler
pub mod Link
pub mod Receive
pub mod Input
pub mod Heartbeat
use secure_chat.Prelude.{Bool, true, false, Option, Text, codes}
use secure_chat.Protocol.Number.{ℤ, pos, negsuc}

-- CLIENT_DEFAULT_NAME
abbrev pub client_default_name : Text
client_default_name = codes "client"

-- `client`, less its handles. `uid` may be NULL.
pub record Client : Type 0 where
  pub uid : Option Text
  pub username : Text

-- `client_state`; its flags are 0 or 1.
pub record ClientState : Type 0 where
  pub just_joined : Bool
  pub is_entering_username : Bool
  pub is_entering_password : Bool
  pub is_confirming_password : Bool
  pub is_choosing_register : Bool
  pub is_connected : Bool
  pub is_authenticated : Bool
  pub auth_attempts : ℤ
  pub can_register : Bool

-- The value of `cl_state` when the program starts.
abbrev pub initial_state : ClientState
initial_state = record {
  just_joined = true;
  is_entering_username = false;
  is_entering_password = false;
  is_confirming_password = false;
  is_choosing_register = false;
  is_connected = false;
  is_authenticated = false;
  auth_attempts = negsuc 0;
  can_register = false;
}

unfoldable pub reset_state : ClientState → ClientState
reset_state s = record s {
  is_entering_username = false;
  is_entering_password = false;
  is_confirming_password = false;
  is_choosing_register = false;
  is_authenticated = false;
  auth_attempts = pos 0;
  can_register = false;
}
