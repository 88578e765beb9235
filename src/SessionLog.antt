-- ===== src/SessionLog.antt =====
-- test_05_03/session/Log.hpp: the log of the session server, a line behind its level, time and process, and the style that
-- says where it goes. The text that vsnprintf makes of a format and its arguments is an argument.
pub mod Files
use linux_system_learning.Prelude.{
  ℕ, ◌+◌, Bool, true, false, List, [], ◌∷◌, ◌++◌, Option, none, some, ◌==◌, if◌then◌else◌, take,
}
use linux_system_learning.Text.{Bytes, codes, eqb, to_string, c_str}
use linux_system_learning.Log.{Tm}

abbrev pub screen_style : ℕ
screen_style = 10

abbrev pub one_file : ℕ
one_file = 11

abbrev pub class_file : ℕ
class_file = 12

unfoldable pub level_to_string : ℕ → Bytes
level_to_string level =
    if level == 0
    then codes "Debug"
    else if level == 1
    then codes "Info"
    else if level == 2
    then codes "Warning"
    else if level == 3
    then codes "Error"
    else if level == 4
    then codes "Fatal"
    else codes "Unknown"

-- TimeStampExLocalTime; six numbers of `int` leave the buffer of 128 bytes room.
unfoldable pub time_stamp : Tm → Bytes
time_stamp curr =
    to_string (curr.tm_year + 1900)
    ++ b'-'
      ∷ (to_string (curr.tm_mon + 1)
          ++ b'-'
            ∷ (to_string curr.tm_mday
                ++ b' '
                  ∷ (to_string curr.tm_hour
                      ++ b':' ∷ (to_string curr.tm_min ++ b':' ∷ to_string curr.tm_sec))))

abbrev pub buffer_size : ℕ
buffer_size = 1023

-- The prefix, and LogMessage up to WriteLog: both buffers hold 1023 bytes and a zero.
unfoldable pub left_buffer : Bytes → Bytes → Bytes → Bytes
left_buffer levelstr currtime idstr =
    take buffer_size
      (b'[' ∷ (levelstr ++ b']' ∷ b'[' ∷ (currtime ++ b']' ∷ b'[' ∷ (idstr ++ b']' ∷ b' ' ∷ []))))

unfoldable pub log_info : ℕ → Tm → ℕ → Bytes → Bytes
unfolding left_buffer time_stamp level_to_string
log_info level now pid text =
    left_buffer (level_to_string level) (time_stamp now) (to_string pid)
    ++ c_str (take buffer_size text)

-- What is on the screen, and the files by name
pub record Logged : Type 0 where
  pub screen : Bytes
  pub files : List (Bytes × Bytes)

-- WriteLogToOneFile: open makes the file, write appends.
unfoldable pub append_file : Bytes → Bytes → List (Bytes × Bytes) → List (Bytes × Bytes)
append_file logname message [] = (logname, message) ∷ []
append_file logname message ((name, content) ∷ files) =
    let others = append_file logname message files in
    if eqb name logname then (name, content ++ message) ∷ files else (name, content) ∷ others

unfoldable pub write_log_to_one_file : Bool → Bytes → Bytes → Logged → Logged
unfolding append_file
write_log_to_one_file opens logname message s =
    if opens then record s { files = append_file logname message s.files } else s

unfoldable pub class_name : Bytes → Bytes
class_name levelstr = codes "log" ++ codes "/" ++ codes "log." ++ levelstr

-- WriteLog
unfoldable pub write_log : ℕ → Bool → Bytes → Bytes → Logged → Logged
unfolding write_log_to_one_file class_name
write_log style opens levelstr message s =
    if style == screen_style
    then record s { screen = s.screen ++ message }
    else if style == one_file
    then write_log_to_one_file opens (class_name (codes "all")) message s
    else if style == class_file
    then write_log_to_one_file opens (class_name levelstr) message s
    else s

-- A call of Enable or of LogMessage
pub data LogCall : Type 0 where
  enable : ℕ → LogCall
  log_message : ℕ → Tm → ℕ → Bytes → LogCall

-- The calls, where the files open, from a style on
unfoldable pub log_calls : ℕ → List LogCall → Logged → Logged
unfolding write_log log_info
log_calls style [] s = s
log_calls style (enable sty ∷ calls) s = log_calls sty calls s
log_calls style (log_message level now pid text ∷ calls) s =
    log_calls style calls
      (write_log style true (level_to_string level) (log_info level now pid text) s)
