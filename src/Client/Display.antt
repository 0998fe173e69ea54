-- ===== src/Client/Display.antt =====
-- `add_message` of client/src/client_gui.c: the ring of the ten lines that the window shows.
use secure_chat.Prelude.{
  ℕ, ◌+◌, ◌%◌, ◌<◌, ◌≡◌, List, ◌++◌, if◌then◌else◌, ltb, Text, codes, length, set, snprintf, Run,
  ok, fault, out_of_bounds,
}

-- `messages` and `message_count`
pub record Display : Type 0 where
  pub messages : List Text
  pub message_count : ℕ

abbrev pub max_message_length : ℕ
max_message_length = 147

abbrev pub line : Text → Text → Text
line sender payload = snprintf max_message_length (sender ++ (codes ": " ++ payload))

unfoldable pub add_message : Display → Text → Text → Run Display
add_message d sender payload =
    if ltb d.message_count (length d.messages)
    then ok (record {
      messages = set d.messages d.message_count (line sender payload);
      message_count = (d.message_count + 1) % 10;
    })
    else fault out_of_bounds

pub record IsRing (d : Display) : Type 0 where
  pub ten : length d.messages ≡ 10
  pub within : d.message_count < 10
