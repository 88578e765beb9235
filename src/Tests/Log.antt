-- ===== src/Tests/Log.antt =====
-- A line of the log in the file.
use linux_system_learning.Prelude.{◌≡◌, refl, List, [], ◌∷◌}
use linux_system_learning.Text.{Bytes, codes, to_string}
use linux_system_learning.Log.{
  LogLevel, level2str, Tm, LogMessage, get_time_stamp, prefix_of, add_infos,
}
use linux_system_learning.Log.Lines.{fields, joined_infos, fields-add_infos}

abbrev at_noon : Tm
at_noon = record { tm_year = 125; tm_mon = 5; tm_mday = 18; tm_hour = 12; tm_min = 0; tm_sec = 7 }

abbrev started : LogMessage
started = record {
  curr_time = get_time_stamp at_noon;
  level = LogLevel.info;
  pid = 42;
  src_name = codes "Main.cc";
  line_number = 30;
}

fields-add_infos_example :
    fields 5 (add_infos (prefix_of started) (codes "port " ∷ codes "8080" ∷ [])) ≡ (
      get_time_stamp at_noon
          ∷ level2str started.level
          ∷ to_string started.pid
          ∷ started.src_name
          ∷ to_string started.line_number
          ∷ [],
      b'-' ∷ joined_infos (codes "port " ∷ codes "8080" ∷ []),
    )
fields-add_infos_example =
    fields-add_infos at_noon started (codes "port " ∷ codes "8080" ∷ []) refl
      (refl, (refl, (refl, (refl, (refl, (refl, (refl, tt)))))))

abbrev empty_files : Bytes → Bytes
empty_files name = []

abbrev one_message : List (LogMessage × List Bytes)
one_message = (started, codes "up" ∷ []) ∷ []
