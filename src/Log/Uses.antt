-- ===== src/Log/Uses.antt =====
-- Where the lines of test_06_18/Server/Log.hpp go.
use linux_system_learning.Prelude.{
  ◌≡◌, refl, ap, sym, ◌∙◌, true, Bool-cases, inl, inr, List, [], ◌∷◌, ◌++◌, append_assoc,
  append-nil, map, if◌then◌else◌,
}
use linux_system_learning.Text.{Bytes, codes, eqb}
use linux_system_learning.Log.{
  gsep, LogMessage, prefix_of, add_infos, file_log_strategy, filename_of, is_dir, Logger, append_to,
  sync_log, new_logger, log, enable_file, default_path, default_file, use_logger, use_all, Use,
}

-- The lines of some messages, each with the separator behind it
abbrev pub lines_of : List (LogMessage × List Bytes) → Bytes
lines_of [] = []
lines_of ((m, infos) ∷ messages) = (add_infos (prefix_of m) infos ++ gsep) ++ lines_of messages

abbrev pub logged : List (LogMessage × List Bytes) → List Use
logged messages = map (λ (l : LogMessage × List Bytes). log true l.0 l.1) messages

abbrev log_file : Bytes
log_file = codes "./log/my.log"

-- The step of the induction, on one file's content
append-if :
    (name : Bytes) (old line rest : Bytes)
    → (if eqb name log_file
        then (if eqb name log_file then old ++ line else old) ++ rest
        else (if eqb name log_file then old ++ line else old))
      ≡ (if eqb name log_file then old ++ (line ++ rest) else old)
append-if name old line rest = elim (Bool-cases (eqb name log_file)) [
  | inl e ↦ rw e (append_assoc old line rest)
  | inr e ↦ rw e refl
]

same_file : (name old : Bytes) → old ≡ (if eqb name log_file then old ++ [] else old)
same_file name old = elim (Bool-cases (eqb name log_file)) [
  | inl e ↦ rw e (sym (append-nil old))
  | inr e ↦ rw e refl
]

logged_files :
    (g : Logger) (messages : List (LogMessage × List Bytes)) (name : Bytes)
    → g.fflush_strategy ≡ file_log_strategy default_path default_file
    → ((use_all g (logged messages)).files name
        ≡ (if eqb name log_file then g.files name ++ lines_of messages else g.files name))
      × ((use_all g (logged messages)).shown ≡ g.shown)
unfolding use_all use_logger sync_log filename_of is_dir
logged_files g [] name e = (same_file name (g.files name), refl)
logged_files g ((m, infos) ∷ messages) name e =
    let line : Bytes = add_infos (prefix_of m) infos ++ gsep in
    let g' : Logger = record g { files = append_to log_file line g.files } in
    let step : use_logger g (log true m infos) ≡ g' =
      ap (λ strategy. sync_log g strategy true (add_infos (prefix_of m) infos)) e in
    let later = logged_files g' messages name e in
    (
      ap (λ (h : Logger). (use_all h (logged messages)).files name) step
          ∙ later.0
          ∙ append-if name (g.files name) line (lines_of messages),
      ap (λ (h : Logger). (use_all h (logged messages)).shown) step ∙ later.1,
    )

-- If the file strategy is enabled and the log file opens, it has behind what stood in it the lines of the messages, in
-- their order, each with the separator behind it; no other file is changed and nothing is shown.
pub use_all-logged :
    (files : Bytes → Bytes) (messages : List (LogMessage × List Bytes)) (name : Bytes)
    → ((use_all (new_logger files) (enable_file ∷ logged messages)).files name
        ≡ (if eqb name (codes "./log/my.log") then files name ++ lines_of messages else files name))
      × ((use_all (new_logger files) (enable_file ∷ logged messages)).shown ≡ [])
unfolding use_all use_logger new_logger
use_all-logged files messages name =
    logged_files (use_logger (new_logger files) enable_file) messages name refl
