-- ===== src/Chain/Kept.antt =====
-- What test_03_18/ChainOfResponsibility.hpp keeps of the texts that it has saved.
use linux_system_learning.Prelude.{
  ℕ, ◌≡◌, ◌<◌, ◌≤◌, refl, ap, sym, ◌∙◌, Bool, true, false, List, [], ◌∷◌, ◌++◌, append-nil,
  append_assoc, Option, none, some, arith, All, ◌⊎◌, inl, inr, insert, erase, lookup, lookup-insert,
  lookup-erase, if_cases,
}
use linux_system_learning.Text.{Bytes}
use linux_system_learning.Chain.{
  Packing, no_rename, renamed, packed, Moment, Disk, format, content_of, save_file, is_out_of_range,
  backup, check_file, then_excute, excute_chain, handler_entry, run_texts, text_backup,
  default_maxline, new_disk,
}

-- The texts of the backups, the first one first
abbrev pub contents : List (ℕ × Bytes) → Bytes
contents [] = []
contents (entry ∷ made) = contents made ++ entry.1

-- The clock is past the last backup in every Run.
abbrev pub AreLater : ℕ → List (Moment × Bytes) → Type 0
AreLater t [] = Unit
AreLater t ((m, text) ∷ texts) = (t < m.later) × AreLater m.later texts

module _ {ℓ} {V : Type ℓ} (u k : ℕ) where
  lookup_under :
      (x : V) (table : List (ℕ × V)) → k < u → lookup k (insert u x table) ≡ lookup k table
  lookup_under x table lt = ground (arith, lookup-insert u k x table, lt)

  lookup_erased : (table : List (ℕ × V)) → k < u → lookup k (erase u table) ≡ lookup k table
  lookup_erased table lt = ground (arith, lookup-erase u k table, lt)

lookup_put {ℓ} :
    {V : Type ℓ} (u : ℕ) (x : V) (table : List (ℕ × V)) → lookup u (insert u x table) ≡ some x
lookup_put u x table = ground (arith, lookup-insert u u x table)

module _ (tar : Bytes → Bytes) where
  -- A backup is in its archive, or it has not been packed and is in its file.
  abbrev pub IsStored : Disk → ℕ × Bytes → Type 0
  IsStored d entry =
      (lookup entry.0 d.archives ≡ some (tar entry.1)) ⊎ (lookup entry.0 d.backups ≡ some entry.1)

  record IsKept (t : ℕ) (d : Disk) : Type 0 where
    pub whole : d.written ≡ contents d.made ++ content_of d.file
    pub past : All (λ entry. entry.0 ≤ t) d.made
    pub stored : All (IsStored d) d.made

  past_later :
      (t u : ℕ) (made : List (ℕ × Bytes))
      → t < u
      → All (λ entry. entry.0 ≤ t) made
      → All (λ entry. entry.0 ≤ u) made
  past_later t u [] lt h = tt
  past_later t u (entry ∷ made) lt h = (omega (arith, h.0, lt), past_later t u made lt h.1)

  -- A backup under a later time leaves the others where they are.
  renamed-IsStored :
      (t u : ℕ) (content : Bytes) (d : Disk) (entry : ℕ × Bytes)
      → t < u
      → entry.0 ≤ t
      → IsStored d entry
      → IsStored (backup tar renamed u content d) entry
  unfolding backup
  renamed-IsStored t u content d entry lt le (inl h) = inl h
  renamed-IsStored t u content d entry lt le (inr h) =
      inr (lookup_under u entry.0 content d.backups (omega (arith, lt, le)) ∙ h)

  packed-IsStored :
      (t u : ℕ) (content : Bytes) (d : Disk) (entry : ℕ × Bytes)
      → t < u
      → entry.0 ≤ t
      → IsStored d entry
      → IsStored (backup tar packed u content d) entry
  unfolding backup
  packed-IsStored t u content d entry lt le (inl h) =
      inl (lookup_under u entry.0 (tar content) d.archives (omega (arith, lt, le)) ∙ h)
  packed-IsStored t u content d entry lt le (inr h) = inr (
      lookup_erased u entry.0 (insert u content d.backups) (omega (arith, lt, le))
      ∙ lookup_under u entry.0 content d.backups (omega (arith, lt, le))
      ∙ h)

  all-IsStored :
      (d d' : Disk) (t : ℕ) (made : List (ℕ × Bytes))
      → ((entry : ℕ × Bytes) → entry.0 ≤ t → IsStored d entry → IsStored d' entry)
      → All (λ entry. entry.0 ≤ t) made
      → All (IsStored d) made
      → All (IsStored d') made
  all-IsStored d d' t [] f past h = tt
  all-IsStored d d' t (entry ∷ made) f past h =
      (f entry past.0 h.0, all-IsStored d d' t made f past.1 h.1)

  backup-IsKept :
      (p : Packing) (t u : ℕ) (content : Bytes) (d : Disk)
      → t < u
      → d.file ≡ some content
      → IsKept t d
      → IsKept u (backup tar p u content d)
  unfolding backup
  backup-IsKept no_rename t u content d lt e v = record {
    whole = v.whole;
    past = past_later t u d.made lt v.past;
    stored = v.stored;
  }
  backup-IsKept renamed t u content d lt e v = record {
    whole = v.whole ∙ ap (λ f. contents d.made ++ content_of f) e ∙ sym (append-nil _);
    past = (omega arith, past_later t u d.made lt v.past);
    stored = (
      inr (lookup_put u content d.backups),
      all-IsStored d (backup tar renamed u content d) t d.made
          (λ entry. renamed-IsStored t u content d entry lt) v.past v.stored,
    );
  }
  backup-IsKept packed t u content d lt e v = record {
    whole = v.whole ∙ ap (λ f. contents d.made ++ content_of f) e ∙ sym (append-nil _);
    past = (omega arith, past_later t u d.made lt v.past);
    stored = (
      inl (lookup_put u (tar content) d.archives),
      all-IsStored d (backup tar packed u content d) t d.made
          (λ entry. packed-IsStored t u content d entry lt) v.past v.stored,
    );
  }

  later-IsKept : (t u : ℕ) (d : Disk) → t < u → IsKept t d → IsKept u d
  later-IsKept t u d lt v = record {
    whole = v.whole;
    past = past_later t u d.made lt v.past;
    stored = v.stored;
  }

  save_file-IsKept : (t : ℕ) (text : Bytes) (d : Disk) → IsKept t d → IsKept t (save_file text d)
  unfolding save_file
  save_file-IsKept t text d v = record {
    whole = ap (λ s. s ++ text) v.whole ∙ append_assoc (contents d.made) (content_of d.file) text;
    past = v.past;
    stored = v.stored;
  }

  -- The backup at the end of the chain
  check-IsKept :
      (maxline t : ℕ) (m : Moment) (text : Bytes) (d : Disk) (file : Option Bytes)
      → t < m.later
      → d.file ≡ file
      → IsKept t d
      → IsKept m.later (then_excute tar (check_file tar maxline m file d) (λ d'. (d', true)) d).0
  unfolding check_file
  check-IsKept maxline t m text d none lt e v = later-IsKept t m.later d lt v
  check-IsKept maxline t m text d (some content) lt e v =
      if_cases (IsKept m.later) (is_out_of_range maxline content)
        (λ b. backup-IsKept m.packing t m.later content d lt e v)
        (λ b. later-IsKept t m.later d lt v)

  tail-IsKept :
      (c : Bool) (t : ℕ) (m : Moment) (text : Bytes) (d : Disk)
      → t < m.later
      → IsKept t d
      → IsKept m.later (excute_chain tar (text_backup c default_maxline ∷ []) m text d).0
  unfolding excute_chain
  tail-IsKept false t m text d lt v = later-IsKept t m.later d lt v
  tail-IsKept true t m text d lt v = check-IsKept default_maxline t m text d d.file lt refl v

  -- A Run of the chain, whichever of its nodes are enabled
  excute-IsKept :
      (a b c : Bool) (t : ℕ) (m : Moment) (text : Bytes) (d : Disk)
      → t < m.later
      → IsKept t d
      → IsKept m.later (excute_chain tar (handler_entry a b c) m text d).0
  unfolding handler_entry excute_chain
  excute-IsKept a b c t m text d lt v =
      if_cases (λ (r : Disk × Bool). IsKept m.later r.0) b
        (λ e.
          if_cases (λ (r : Disk × Bool). IsKept m.later r.0) m.opens
            (λ o.
              tail-IsKept c t m (format a m text) (save_file (format a m text) d) lt
                (save_file-IsKept t (format a m text) d v))
            (λ o. later-IsKept t m.later d lt v))
        (λ e. tail-IsKept c t m (format a m text) d lt v)

  run_texts-IsKept :
      (a b c : Bool) (t : ℕ) (texts : List (Moment × Bytes)) (d : Disk)
      → AreLater t texts
      → IsKept t d
      → (u : ℕ) × IsKept u (run_texts tar (handler_entry a b c) texts d).0
  unfolding run_texts
  run_texts-IsKept a b c t [] d h v = (t, v)
  run_texts-IsKept a b c t ((m, text) ∷ texts) d h v =
      let d' : Disk = (excute_chain tar (handler_entry a b c) m text d).0 in
      let v' : IsKept m.later d' = excute-IsKept a b c t m text d h.0 v in
      if_cases (λ (r : Disk × Bool). (u : ℕ) × IsKept u r.0)
        (excute_chain tar (handler_entry a b c) m text d).1
        (λ e. run_texts-IsKept a b c m.later texts d' h.1 v') (λ e. (m.later, v'))

  -- From a disk without the file and its backups, whichever handlers are enabled, whenever the file opens and however far
  -- the packing gets: if the clock has gone on from each Run to the next, what was saved is what was
  -- backed up, the first backup first, and then what is in the file; and each backup is in its archive, or in its
  -- file where it was not packed.
  pub run_texts_keep :
      (a b c : Bool) (texts : List (Moment × Bytes))
      → AreLater 0 texts
      → let d = (run_texts tar (handler_entry a b c) texts new_disk).0 in
        (d.written ≡ contents d.made ++ content_of d.file) × All (IsStored d) d.made
  unfolding new_disk
  run_texts_keep a b c texts h =
      let (u, v) =
        run_texts-IsKept a b c 0 texts new_disk h record { whole = refl; past = tt; stored = tt } in
      (v.whole, v.stored)

  -- Two backups in the same second, both of them packed, leave one archive: that of the second.
  pub backup_twice :
      (u : ℕ) (first second : Bytes) (d : Disk)
      → (lookup u (backup tar packed u second (backup tar packed u first d)).archives
          ≡ some (tar second))
        × (lookup u (backup tar packed u second (backup tar packed u first d)).backups ≡ none)
  unfolding backup
  backup_twice u first second d = (
    lookup_put u (tar second) (insert u (tar first) d.archives),
    ground (arith, lookup-erase u u (insert u second (backup tar packed u first d).backups)),
  )
