-- ===== src/Peer/Text/Tests.antt =====
-- A code typed by hand, and the text of a session.
use cccaster_ver_b.Prelude.{ℕ, ◌≡◌, refl, List, [], ◌∷◌}
use cccaster_ver_b.Peer.Text.{normalize_code, code_chars, canonical}

-- "ol-3 abc" is "013ABC".
abbrev typed : List ℕ
typed = 111 ∷ 108 ∷ 45 ∷ 51 ∷ 32 ∷ 97 ∷ 98 ∷ 99 ∷ []

typed_code : normalize_code typed ≡ 48 ∷ 49 ∷ 51 ∷ 65 ∷ 66 ∷ 67 ∷ []
unfolding normalize_code code_chars canonical
typed_code = refl
