-- ===== src/Tests/Logging.antt =====
-- A long message of log.cpp.
use p2p_ps_stun.Prelude.{ℕ, ◌≡◌, some, List, [], ◌∷◌, ◌++◌, length, replicate, ltb, if◌then◌else◌}
use p2p_ps_stun.Log.{write_message}
use p2p_ps_stun.Log.Lines.{line, write_message_lem}

abbrev long : List ℕ
long = replicate 1020 65

write_message_lem_example : write_message (some (49 ∷ [])) (69 ∷ []) long ≡ (
    if ltb (length (line (49 ∷ []) (69 ∷ []) long)) 1023
    then some (line (49 ∷ []) (69 ∷ []) long ++ 10 ∷ [])
    else some (line (49 ∷ []) (69 ∷ []) long))
write_message_lem_example = write_message_lem (49 ∷ []) (69 ∷ []) long
