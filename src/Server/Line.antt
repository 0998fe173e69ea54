-- ===== src/Server/Line.antt =====
-- What handle_client of server/src/server.c logs of a message that it has received: it builds a line from the
-- message, and passes this line to log_message as the format.
use secure_chat.Prelude.{
  ◌<◌, ◌≡◌, refl, false, ◌++◌, ltb, if◌then◌else◌, lt→ltb, Text, codes, length, Avoids, Run, ok,
  fault, out_of_bounds,
}
use secure_chat.Protocol.{Message, buffer_size}
use secure_chat.Protocol.Number.{ℤ, print_int}
use secure_chat.Log.Format.{as_format, as_format-plain}

abbrev pub received_line : ℤ → Message → Text
received_line id m =
    codes "Received message from client "
    ++ (print_int id ++ (codes ", " ++ (m.sender_uid ++ (codes ": " ++ m.payload))))

unfoldable pub log_received : ℤ → Message → Run (Unit {0})
log_received id m =
    if ltb (length (received_line id m)) buffer_size
    then as_format false (received_line id m)
    else fault out_of_bounds

-- The line fits its buffer, and holds no percent sign.
pub record IsLogged (id : ℤ) (m : Message) : Type 0 where
  pub short : length (received_line id m) < buffer_size
  pub plain : Avoids b'%' (received_line id m)

pub log_received-logged : (id : ℤ) (m : Message) → IsLogged id m → log_received id m ≡ ok tt
unfolding log_received
log_received-logged id m is =
    rw
      (
        lt→ltb (length (received_line id m)) buffer_size is.short,
        as_format-plain (received_line id m) is.plain,
      )
      refl
