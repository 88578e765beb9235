-- ===== src/Chain.antt =====
-- test_03_18/ChainOfResponsibility.hpp: the handlers that format a text, save it and back the file up, in a chain.
pub mod Kept
pub mod Saved
use linux_system_learning.Prelude.{
  ℕ, zero, suc, ◌+◌, Bool, true, false, List, [], ◌∷◌, ◌++◌, Option, none, some, ltb, ◌==◌,
  if◌then◌else◌, insert, erase,
}
use linux_system_learning.Text.{Bytes, codes, to_string}

-- What the system does in one Run: the times and the process number that are read, whether the file opens, and how far
-- the child gets that renames the file and packs it.
pub data Packing : Type 0 where
  no_rename renamed packed : Packing

pub record Moment : Type 0 where
  pub now : ℕ
  pub pid : ℕ
  pub opens : Bool
  pub later : ℕ
  pub packing : Packing

-- The file, and the backups and the archives under the times in their names. `written` and `made` record what
-- was saved and the backups that were made, the latest first.
pub record Disk : Type 0 where
  pub file : Option Bytes
  pub backups : List (ℕ × Bytes)
  pub archives : List (ℕ × Bytes)
  pub written : Bytes
  pub made : List (ℕ × Bytes)

unfoldable pub new_disk : Disk
new_disk = record { file = none; backups = []; archives = []; written = []; made = [] }

-- A node with `_enable`; the nodes behind it in the list are those that `_next` leads to.
pub data Handler : Type 0 where
  text_format : Bool → Handler
  text_save_file : Bool → Handler
  text_backup : Bool → ℕ → Handler

unfoldable pub format : Bool → Moment → Bytes → Bytes
format enable m text =
    if enable
    then to_string m.now ++ b'-' ∷ to_string m.pid ++ b'-' ∷ text ++ 10 ∷ []
    else text ++ 10 ∷ []

abbrev pub content_of : Option Bytes → Bytes
content_of none = []
content_of (some content) = content

unfoldable pub save_file : Bytes → Disk → Disk
save_file text d = record d { file = some (content_of d.file ++ text); written = d.written ++ text }

-- How many lines getline reads; `open_line` is whether some of a line has been read.
unfoldable pub count_lines : Bool → Bytes → ℕ
count_lines open_line [] = if open_line then 1 else 0
count_lines open_line (c ∷ s) =
    let closed = suc (count_lines false s) in
    let going = count_lines true s in if c == 10 then closed else going

unfoldable pub is_out_of_range : ℕ → Bytes → Bool
unfolding count_lines
is_out_of_range maxline content = ltb maxline (count_lines false content)

-- HandlerEntry with EnableHandler
abbrev pub default_maxline : ℕ
default_maxline = 5

unfoldable pub handler_entry : Bool → Bool → Bool → List Handler
handler_entry isformat issave isbackup =
    text_format isformat ∷ text_save_file issave ∷ text_backup isbackup default_maxline ∷ []

-- `tar` is a parameter.
module _ (tar : Bytes → Bytes) where
  -- Backup
  unfoldable pub backup : Packing → ℕ → Bytes → Disk → Disk
  backup no_rename t content d = d
  backup renamed t content d = record d {
    file = none;
    backups = insert t content d.backups;
    made = (t, content) ∷ d.made;
  }
  backup packed t content d = record d {
    file = none;
    backups = erase t (insert t content d.backups);
    archives = insert t (tar content) d.archives;
    made = (t, content) ∷ d.made;
  }

  -- The body of the backup's Excute in front of the next node; `none` where the process exits.
  unfoldable pub check_file : ℕ → Moment → Option Bytes → Disk → Option Disk
  unfolding is_out_of_range backup
  check_file maxline m none d = none
  check_file maxline m (some content) d =
      some (if is_out_of_range maxline content then backup m.packing m.later content d else d)

  abbrev pub then_excute : Option Disk → (Disk → Disk × Bool) → Disk → Disk × Bool
  then_excute none next d = (d, false)
  then_excute (some d') next d = next d'

  -- Excute of the first node of a chain; false where the process has exited.
  unfoldable pub excute_chain : List Handler → Moment → Bytes → Disk → Disk × Bool
  unfolding format save_file check_file
  excute_chain [] m text d = (d, true)
  excute_chain (text_format enable ∷ next) m text d = excute_chain next m (format enable m text) d
  excute_chain (text_save_file enable ∷ next) m text d =
      let saved = excute_chain next m text (save_file text d) in
      let passed = excute_chain next m text d in
      if enable then (if m.opens then saved else (d, true)) else passed
  excute_chain (text_backup enable maxline ∷ next) m text d =
      let checked =
        then_excute (check_file maxline m d.file d) (λ d'. excute_chain next m text d') d in
      let passed = excute_chain next m text d in if enable then checked else passed

  -- A sequence of Runs, up to an exit
  unfoldable pub run_texts : List Handler → List (Moment × Bytes) → Disk → Disk × Bool
  unfolding excute_chain
  run_texts chain [] d = (d, true)
  run_texts chain ((m, text) ∷ texts) d =
      let r = excute_chain chain m text d in
      let later = run_texts chain texts r.0 in if r.1 then later else r
