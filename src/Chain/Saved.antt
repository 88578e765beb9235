-- ===== src/Chain/Saved.antt =====
-- What test_03_18/ChainOfResponsibility.hpp saves while its file opens.
use linux_system_learning.Prelude.{
  ℕ, ◌≡◌, refl, ap, sym, ◌∙◌, Bool, true, false, List, [], ◌∷◌, ◌++◌, append-nil, append_assoc, All,
  if◌then◌else◌, if_cases,
}
use linux_system_learning.Text.{Bytes}
use linux_system_learning.Chain.{
  Packing, no_rename, renamed, packed, Moment, Disk, format, content_of, save_file, is_out_of_range,
  backup, check_file, excute_chain, handler_entry, run_texts, text_backup, default_maxline,
  new_disk,
}

-- The texts as the first node passes them on
abbrev pub formatted : Bool → List (Moment × Bytes) → Bytes
formatted a [] = []
formatted a ((m, text) ∷ texts) = format a m text ++ formatted a texts

module _ (tar : Bytes → Bytes) where
  -- The process goes on, and `text` has been saved.
  abbrev Saved : Disk → Bytes → Disk × Bool → Type 0
  Saved d text (d', go) = (go ≡ true) × (d'.written ≡ d.written ++ text)

  backup_written :
      (p : Packing) (t : ℕ) (content : Bytes) (d : Disk)
      → (backup tar p t content d).written ≡ d.written
  unfolding backup
  backup_written no_rename t content d = refl
  backup_written renamed t content d = refl
  backup_written packed t content d = refl

  tail-Saved :
      (c : Bool) (m : Moment) (text : Bytes) (d : Disk)
      → Saved d text
          (excute_chain tar (text_backup c default_maxline ∷ []) m text (save_file text d))
  unfolding excute_chain save_file check_file
  tail-Saved false m text d = (refl, refl)
  tail-Saved true m text d =
      if_cases (λ (d' : Disk). Saved d text (d', true))
        (is_out_of_range default_maxline (content_of d.file ++ text))
        (λ e. (refl, backup_written m.packing m.later _ (save_file text d))) (λ e. (refl, refl))

  excute-Saved :
      (a c : Bool) (m : Moment) (text : Bytes) (d : Disk)
      → m.opens ≡ true
      → Saved d (format a m text) (excute_chain tar (handler_entry a true c) m text d)
  unfolding excute_chain handler_entry
  excute-Saved a c m text d e = rw e (tail-Saved c m (format a m text) d)

  Saved-step :
      (d : Disk) (x y : Bytes) (r later : Disk × Bool)
      → Saved d x r
      → Saved r.0 y later
      → Saved d (x ++ y) (if r.1 then later else r)
  Saved-step d x y (d', go) (d'', go') h k =
      rw h.0 (k.0, k.1 ∙ ap (λ s. s ++ y) h.1 ∙ append_assoc d.written x y)

  run_texts-Saved :
      (a c : Bool) (texts : List (Moment × Bytes)) (d : Disk)
      → All (λ t. t.0.opens ≡ true) texts
      → Saved d (formatted a texts) (run_texts tar (handler_entry a true c) texts d)
  unfolding run_texts
  run_texts-Saved a c [] d h = (refl, sym (append-nil d.written))
  run_texts-Saved a c ((m, text) ∷ texts) d h =
      let r = excute_chain tar (handler_entry a true c) m text d in
      Saved-step d (format a m text) (formatted a texts) r
        (run_texts tar (handler_entry a true c) texts r.0) (excute-Saved a c m text d h.0)
        (run_texts-Saved a c texts r.0 h.1)

  -- While the handler that saves is enabled and the file opens, the process goes on, and every text is saved as the
  -- formatting handler passes it on, once and in order, whatever becomes of the backups.
  pub run_texts_save :
      (a c : Bool) (texts : List (Moment × Bytes))
      → All (λ t. t.0.opens ≡ true) texts
      → ((run_texts tar (handler_entry a true c) texts new_disk).1 ≡ true)
        × ((run_texts tar (handler_entry a true c) texts new_disk).0.written ≡ formatted a texts)
  unfolding new_disk
  run_texts_save a c texts h = run_texts-Saved a c texts new_disk h
