-- ===== src/Log.antt =====
-- test_06_18/Server/Log.hpp: a line of the log, and the two strategies that it can go to.
pub mod Lines
pub mod Uses
use linux_system_learning.Prelude.{
  ℕ, zero, suc, ◌+◌, ◌-◌, Bool, true, false, List, [], ◌∷◌, ◌++◌, if◌then◌else◌, take, length,
}
use linux_system_learning.Text.{Bytes, codes, eqb, to_string}

abbrev pub gsep : Bytes
gsep = codes "\r\n"

pub data LogLevel : Type 0 where
  debug info warning error fatal : LogLevel

abbrev pub level2str : LogLevel → Bytes
level2str debug = codes "DEBUG"
level2str info = codes "INFO"
level2str warning = codes "WARNING"
level2str error = codes "ERROR"
level2str fatal = codes "FATAL"

-- The fields of `struct tm` that are printed
pub record Tm : Type 0 where
  pub tm_year : ℕ
  pub tm_mon : ℕ
  pub tm_mday : ℕ
  pub tm_hour : ℕ
  pub tm_min : ℕ
  pub tm_sec : ℕ

-- A number in printf's width, with a byte for what it is short of
unfoldable pub fill : ℕ → ℕ → Bytes → Bytes
fill zero c s = s
fill (suc n) c s = c ∷ fill n c s

unfoldable pub padded : ℕ → ℕ → ℕ → Bytes
unfolding fill
padded width c n = fill (width - length (to_string n)) c (to_string n)

abbrev pub timebuffer : ℕ
timebuffer = 128

-- GetTimeStamp, for the time that localtime_r gave
unfoldable pub get_time_stamp : Tm → Bytes
unfolding padded
get_time_stamp t = take (timebuffer - 1) (
    padded 4 b' ' (t.tm_year + 1900)
    ++ (b'-' ∷ padded 2 b'0' (t.tm_mon + 1)
        ++ (b'-' ∷ padded 2 b'0' t.tm_mday
            ++ (b' ' ∷ padded 2 b'0' t.tm_hour
                ++ (b':' ∷ padded 2 b'0' t.tm_min ++ (b':' ∷ padded 2 b'0' t.tm_sec))))))

-- What a LogMessage is made of, but for its `<<`
pub record LogMessage : Type 0 where
  pub curr_time : Bytes
  pub level : LogLevel
  pub pid : ℕ
  pub src_name : Bytes
  pub line_number : ℕ

abbrev pub bracketed : Bytes → Bytes → Bytes
bracketed s rest = b'[' ∷ s ++ (b']' ∷ rest)

unfoldable pub prefix_of : LogMessage → Bytes
prefix_of m = bracketed m.curr_time (
    bracketed (level2str m.level) (
      bracketed (to_string m.pid)
        (bracketed m.src_name (bracketed (to_string m.line_number) (codes "-")))))

-- `operator<<`, once for each piece
unfoldable pub add_infos : Bytes → List Bytes → Bytes
add_infos loginfo [] = loginfo
add_infos loginfo (piece ∷ infos) = add_infos (loginfo ++ piece) infos

-- The strategies; a file is named by its path and its name.
pub data LogStrategy : Type 0 where
  console_log_strategy : LogStrategy
  file_log_strategy : Bytes → Bytes → LogStrategy

unfoldable pub is_dir : Bytes → Bool
is_dir [] = false
is_dir (c ∷ path) = let rest = is_dir path in if eqb path [] then eqb (c ∷ []) (codes "/") else rest

unfoldable pub filename_of : Bytes → Bytes → Bytes
unfolding is_dir
filename_of path file = if is_dir path then path ++ file else path ++ (b'/' ∷ file)

-- The logger with what it has written: to the console, and into the files by their names
pub record Logger : Type 0 where
  pub fflush_strategy : LogStrategy
  pub shown : Bytes
  pub files : Bytes → Bytes

abbrev pub append_to : Bytes → Bytes → (Bytes → Bytes) → Bytes → Bytes
append_to filename s files name = if eqb name filename then files name ++ s else files name

-- SyncLog, for whether the file opens
unfoldable pub sync_log : Logger → LogStrategy → Bool → Bytes → Logger
unfolding filename_of
sync_log g console_log_strategy opens message = record g { shown = g.shown ++ (message ++ gsep) }
sync_log g (file_log_strategy path file) opens message =
    if opens
    then record g { files = append_to (filename_of path file) (message ++ gsep) g.files }
    else g

unfoldable pub new_logger : (Bytes → Bytes) → Logger
new_logger files = record { fflush_strategy = console_log_strategy; shown = []; files = files }

-- What a program does with the logger
pub data Use : Type 0 where
  enable_file enable_console : Use
  log : Bool → LogMessage → List Bytes → Use

abbrev pub default_path : Bytes
default_path = codes "./log"

abbrev pub default_file : Bytes
default_file = codes "my.log"

unfoldable pub use_logger : Logger → Use → Logger
unfolding prefix_of add_infos sync_log
use_logger g enable_file = record g {
  fflush_strategy = file_log_strategy default_path default_file;
}
use_logger g enable_console = record g { fflush_strategy = console_log_strategy }
use_logger g (log opens m infos) =
    sync_log g g.fflush_strategy opens (add_infos (prefix_of m) infos)

unfoldable pub use_all : Logger → List Use → Logger
unfolding use_logger
use_all g [] = g
use_all g (u ∷ uses) = use_all (use_logger g u) uses
