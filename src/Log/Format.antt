-- ===== src/Log/Format.antt =====
-- The format that log_message of common/src/log.c gives to vsnprintf, for a caller that passes no arguments.
use secure_chat.Prelude.{
  ◌≡◌, refl, Bool, true, false, ◌==◌, [], ◌∷◌, if◌then◌else◌, Text, Avoids, Run, ok, fault,
  uninitialised,
}

-- What a format without arguments does, in front of a directive or behind its first byte: all but `%%`
-- reads an argument that was not passed.
unfoldable pub as_format : Bool → Text → Run (Unit {0})
as_format false [] = ok tt
as_format true [] = fault uninitialised
as_format false (c ∷ s) =
    let plain = as_format false s in
    let directive = as_format true s in if c == b'%' then directive else plain
as_format true (c ∷ s) =
    let plain = as_format false s in if c == b'%' then plain else fault uninitialised

pub as_format-plain : (s : Text) → Avoids b'%' s → as_format false s ≡ ok tt
unfolding as_format
as_format-plain [] a = refl
as_format-plain (c ∷ s) (a, rest) = rw (a, as_format-plain s rest) refl
