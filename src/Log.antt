-- ===== src/Log.antt =====
-- `log_t`, P2P_PS/sources/common/log.h and log.cpp: which messages a level lets through, and the text
-- that is handed to `vprintf`. Texts are lists of bytes, shorter than 2^31.
pub mod Lines
use p2p_ps_stun.Prelude.{
  ℕ, ◌-◌, ◌<◌, Bool, true, false, not, Option, none, some, List, [], ◌∷◌, ◌++◌, length, take, ltb,
  if◌then◌else◌,
}

-- `loglevel_e`
pub data Loglevel : Type 0 where
  debug success info warning error statistic silent : Loglevel

abbrev pub rank : Loglevel → ℕ
rank debug = 0
rank success = 1
rank info = 2
rank warning = 3
rank error = 4
rank statistic = 5
rank silent = 6

-- The functions of `log_t`.
pub data Call : Type 0 where
  call_debug call_success call_log call_warning call_error call_statistic : Call

-- The level that a function compares `loglevel` with.
unfoldable pub threshold : Call → Loglevel
threshold call_debug = debug
threshold call_success = debug
threshold call_log = info
threshold call_warning = warning
threshold call_error = error
threshold call_statistic = statistic

-- `if (loglevel > threshold) return;`
unfoldable pub prints : Loglevel → Call → Bool
unfolding threshold
prints loglevel c = not (ltb (rank (threshold c)) (rank loglevel))

abbrev pub buffer_size : ℕ
buffer_size = 1024

-- `log_format`, "|%s-%s| %s\n"
unfoldable pub log_format : List ℕ → List ℕ → List ℕ → List ℕ
log_format time level format = (124 ∷ time ++ 45 ∷ level ++ 124 ∷ 32 ∷ format) ++ 10 ∷ []

-- What `localtime` and `strftime` give: no local time, or the text that was written.
pub data Timestamp : Type 0 where
  no_local_time : Timestamp
  written : List ℕ → Timestamp

-- `get_timestamp`: nothing if there is no local time or the written text is empty.
unfoldable pub get_timestamp : Timestamp → Option (List ℕ)
get_timestamp no_local_time = none
get_timestamp (written []) = none
get_timestamp (written (c ∷ cs)) = some (c ∷ cs)

-- `snprintf` into a buffer of `size` bytes, its last one for the NUL: the text, and the length that
-- the whole text has.
abbrev pub snprintf : ℕ → List ℕ → List ℕ × ℕ
snprintf size text = (take (size - 1) text, length text)

-- What `vprintf` is given; nothing if there is no time stamp.
unfoldable pub write_message : Option (List ℕ) → List ℕ → List ℕ → Option (List ℕ)
unfolding log_format
write_message none level format = none
write_message (some time) level format =
    let (msg, len) = snprintf buffer_size (log_format time level format) in
    let (full_msg, len') = snprintf len (log_format time level format) in
    if ltb len buffer_size then some msg else some full_msg

-- The text of the level that a function gives to `write_message`.
unfoldable pub level_name : Call → List ℕ
level_name call_success = 83 ∷ 85 ∷ 67 ∷ 67 ∷ 83 ∷ []
level_name call_debug = 68 ∷ 69 ∷ 66 ∷ 85 ∷ 71 ∷ []
level_name call_log = 73 ∷ 78 ∷ 70 ∷ 79 ∷ 32 ∷ []
level_name call_warning = 87 ∷ 65 ∷ 82 ∷ 78 ∷ 32 ∷ []
level_name call_error = 69 ∷ 82 ∷ 82 ∷ 79 ∷ 82 ∷ []
level_name call_statistic = 83 ∷ 84 ∷ 65 ∷ 84 ∷ 32 ∷ []

-- A function of `log_t` as a whole.
unfoldable pub write : Loglevel → Call → Timestamp → List ℕ → Option (List ℕ)
unfolding prints get_timestamp level_name write_message
write loglevel c t format =
    if prints loglevel c then write_message (get_timestamp t) (level_name c) format else none
