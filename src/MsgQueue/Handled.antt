-- ===== src/MsgQueue/Handled.antt =====
-- What the server of test_03_18/Server.cc does with the texts that clients send.
use linux_system_learning.Prelude.{
  ◌≡◌, refl, ap, sym, subst, ◌∙◌, Bool, true, false, List, [], ◌∷◌, ◌++◌, map, append_assoc, All,
  All-append, if◌then◌else◌, if_cases,
}
use linux_system_learning.Prelude.Outcome.{Gives, Gives-bind}
use linux_system_learning.Text.{Bytes, eqb}
use linux_system_learning.Text.Equal.{eqb→eq}
use linux_system_learning.Chain.{
  Moment, Disk, Handler, new_disk, handler_entry, excute_chain, run_texts,
}
use linux_system_learning.MsgQueue.{
  exit_text, text_of, Status, serving, left_loop, exited, MsgServer, MsgMove, send_text, recv_text,
  new_server, put_in, send, ran, handle_text, recv_from, serve_round, msg_move, msg_moves,
}
use linux_system_learning.MsgQueue.Blocks.{FitsBlock, block_of, message_of-fits, text_of-block_of}

-- The texts that Run was called with
abbrev pub texts_of : List (Moment × Bytes) → List Bytes
texts_of runs = map (λ (r : Moment × Bytes). r.1) runs

texts_of-append : (xs ys : List (Moment × Bytes)) → texts_of (xs ++ ys) ≡ texts_of xs ++ texts_of ys
texts_of-append [] ys = refl
texts_of-append (x ∷ xs) ys = ap (λ (l : List Bytes). x.1 ∷ l) (texts_of-append xs ys)

blocks-append : (xs ys : List Bytes) → map block_of (xs ++ ys) ≡ map block_of xs ++ map block_of ys
blocks-append [] ys = refl
blocks-append (x ∷ xs) ys = ap (λ (l : List Bytes). block_of x ∷ l) (blocks-append xs ys)

-- The texts in a queue
abbrev Waits : MsgServer → List Bytes → Type 0
Waits s waiting =
    (s.queue ≡ map block_of waiting) × (s.sent ≡ texts_of s.runs ++ waiting) × All FitsBlock waiting

-- What is asked of a move: texts fit, and msgrcv succeeds.
abbrev pub IsSound : MsgMove → Type 0
IsSound (send_text ok text) = FitsBlock text
IsSound (recv_text ok m) = ok ≡ true

module _ (tar : Bytes → Bytes) where
  abbrev runs_of : List (Moment × Bytes) → Disk × Bool
  runs_of runs = run_texts tar (handler_entry true true true) runs new_disk

  -- How the server stands to the texts that were sent
  abbrev pub HasHandled : MsgServer → Status → Type 0
  HasHandled s serving =
      (waiting : List Bytes) × Waits s waiting × (runs_of s.runs ≡ (s.disk, true))
  HasHandled s left_loop =
      (lost : List Bytes) × (s.sent ≡ texts_of s.runs ++ exit_text ∷ lost)
      × (runs_of s.runs ≡ (s.disk, true))
  HasHandled s exited =
      (waiting : List Bytes) × Waits s waiting × (runs_of s.runs ≡ (s.disk, false))

  abbrev pub IsHandled : MsgServer → Type 0
  IsHandled s =
      HasHandled s s.status × All (λ (r : Moment × Bytes). eqb r.1 exit_text ≡ false) s.runs

  again : (r : Disk × Bool) → (if r.1 then (r.0, true) else r) ≡ r
  again (d, true) = refl
  again (d, false) = refl

  after :
      (chain : List Handler) (xs ys : List (Moment × Bytes)) (r x : Disk × Bool) (d' : Disk)
      → (run_texts tar chain xs r.0 ≡ (d', true) → run_texts tar chain ys r.0 ≡ x)
      → (if r.1 then run_texts tar chain xs r.0 else r) ≡ (d', true)
      → (if r.1 then run_texts tar chain ys r.0 else r) ≡ x
  after chain xs ys (d, true) x d' h e = h e
  after chain xs ys (d, false) x d' h e = cc (ap (λ (r : Disk × Bool). r.1) e)

  run_texts-append_one :
      (chain : List Handler) (xs : List (Moment × Bytes)) (m : Moment) (t : Bytes) (d d' : Disk)
      → run_texts tar chain xs d ≡ (d', true)
      → run_texts tar chain (xs ++ (m, t) ∷ []) d ≡ excute_chain tar chain m t d'
  unfolding run_texts
  run_texts-append_one chain [] m t d d' e =
      again (excute_chain tar chain m t d)
      ∙ ap (λ (r : Disk × Bool). excute_chain tar chain m t r.0) e
  run_texts-append_one chain ((k, u) ∷ xs) m t d d' e =
      after chain xs (xs ++ (m, t) ∷ []) (excute_chain tar chain k u d)
        (excute_chain tar chain m t d') d'
        (run_texts-append_one chain xs m t (excute_chain tar chain k u d).0 d') e

  Waits-put :
      (s : MsgServer) (waiting : List Bytes) (text : Bytes)
      → FitsBlock text
      → Waits s waiting
      → Waits
          (record s { queue = s.queue ++ block_of text ∷ []; sent = s.sent ++ text ∷ [] })
          (waiting ++ text ∷ [])
  Waits-put s waiting text f w = (
    ap (λ (q : List Bytes). q ++ block_of text ∷ []) w.0 ∙ sym (blocks-append waiting (text ∷ [])),
    ap (λ (q : List Bytes). q ++ text ∷ []) w.1
        ∙ append_assoc (texts_of s.runs) waiting (text ∷ []),
    All-append FitsBlock waiting (text ∷ []) w.2 (f, tt),
  )

  put_in-IsHandled :
      (s : MsgServer) (text : Bytes) (st : Status)
      → s.status ≡ st
      → FitsBlock text
      → HasHandled s st × All (λ (r : Moment × Bytes). eqb r.1 exit_text ≡ false) s.runs
      → IsHandled (put_in s text (block_of text) st)
  unfolding put_in
  put_in-IsHandled s text serving e f ((waiting, w, r), a) =
      subst
        (λ (st : Status).
          HasHandled
            (record s { queue = s.queue ++ block_of text ∷ []; sent = s.sent ++ text ∷ [] }) st
          × All (λ (r : Moment × Bytes). eqb r.1 exit_text ≡ false) s.runs)
        (sym e) ((waiting ++ text ∷ [], Waits-put s waiting text f w, r), a)
  put_in-IsHandled s text left_loop e f h = rw e h
  put_in-IsHandled s text exited e f ((waiting, w, r), a) =
      subst
        (λ (st : Status).
          HasHandled
            (record s { queue = s.queue ++ block_of text ∷ []; sent = s.sent ++ text ∷ [] }) st
          × All (λ (r : Moment × Bytes). eqb r.1 exit_text ≡ false) s.runs)
        (sym e) ((waiting ++ text ∷ [], Waits-put s waiting text f w, r), a)

  send-IsHandled :
      (ok : Bool) (s : MsgServer) (text : Bytes)
      → FitsBlock text
      → IsHandled s
      → Gives IsHandled (send ok s text)
  unfolding send
  send-IsHandled true s text f h =
      rw (message_of-fits text f) (put_in-IsHandled s text s.status refl f h)
  send-IsHandled false s text f h = rw (message_of-fits text f) h

  taken_out :
      (s : MsgServer) (m : Moment) (waiting : List Bytes)
      → s.sent ≡ texts_of s.runs ++ s.text ∷ waiting
      → s.sent ≡ texts_of (s.runs ++ (m, s.text) ∷ []) ++ waiting
  taken_out s m waiting t =
      t
      ∙ sym (append_assoc (texts_of s.runs) (s.text ∷ []) waiting)
      ∙ ap (λ (l : List Bytes). l ++ waiting) (sym (texts_of-append s.runs ((m, s.text) ∷ [])))

  -- Of the texts that were sent, `text` has just been taken out; the others wait.
  ran-IsHandled :
      (s : MsgServer) (m : Moment) (waiting : List Bytes) (r : Disk × Bool)
      → s.queue ≡ map block_of waiting
      → All FitsBlock waiting
      → s.sent ≡ texts_of s.runs ++ s.text ∷ waiting
      → runs_of (s.runs ++ (m, s.text) ∷ []) ≡ r
      → All (λ (r : Moment × Bytes). eqb r.1 exit_text ≡ false) (s.runs ++ (m, s.text) ∷ [])
      → IsHandled (ran tar s m r)
  unfolding ran
  ran-IsHandled s m waiting (d, true) q f t e a = ((waiting, (q, taken_out s m waiting t, f), e), a)
  ran-IsHandled s m waiting (d, false) q f t e a =
      ((waiting, (q, taken_out s m waiting t, f), e), a)

  handle-IsHandled :
      (s : MsgServer) (m : Moment) (waiting : List Bytes)
      → s.queue ≡ map block_of waiting
      → All FitsBlock waiting
      → s.sent ≡ texts_of s.runs ++ s.text ∷ waiting
      → runs_of s.runs ≡ (s.disk, true)
      → All (λ (r : Moment × Bytes). eqb r.1 exit_text ≡ false) s.runs
      → IsHandled (handle_text tar s m)
  unfolding handle_text
  handle-IsHandled s m waiting q f t e a =
      if_cases IsHandled (eqb s.text exit_text)
        (λ b. ((waiting, rw (← eqb→eq s.text exit_text b) t, e), a))
        (λ b.
          ran-IsHandled s m waiting
            (excute_chain tar (handler_entry true true true) m s.text s.disk) q f t
            (run_texts-append_one (handler_entry true true true) s.runs m s.text new_disk s.disk e)
            (All-append (λ (r : Moment × Bytes). eqb r.1 exit_text ≡ false) s.runs
              ((m, s.text) ∷ []) a (b, tt)))

  recv-IsHandled :
      (s : MsgServer) (m : Moment) (queue : List Bytes) (waiting : List Bytes)
      → s.queue ≡ queue
      → queue ≡ map block_of waiting
      → s.status ≡ serving
      → All FitsBlock waiting
      → s.sent ≡ texts_of s.runs ++ waiting
      → runs_of s.runs ≡ (s.disk, true)
      → All (λ (r : Moment × Bytes). eqb r.1 exit_text ≡ false) s.runs
      → Gives IsHandled (recv_from tar true s m queue)
  unfolding recv_from
  recv-IsHandled s m [] [] p q st f t e a = rw st ((([], (p, t, f), e), a))
  recv-IsHandled s m [] (x ∷ waiting) p q st f t e a = cc
  recv-IsHandled s m (b ∷ queue) [] p q st f t e a = cc
  recv-IsHandled s m (b ∷ queue) (x ∷ waiting) p q st f t e a =
      let first : b ≡ block_of x = cc q in
      let others : queue ≡ map block_of waiting = cc q in
      rw (ap text_of first ∙ text_of-block_of x f.0)
        (handle-IsHandled (record s { queue = queue; text = x }) m waiting others f.1 t e a)

  serve-IsHandled :
      (s : MsgServer) (m : Moment) (st : Status)
      → s.status ≡ st
      → HasHandled s st × All (λ (r : Moment × Bytes). eqb r.1 exit_text ≡ false) s.runs
      → Gives IsHandled (serve_round tar true s m st)
  unfolding serve_round
  serve-IsHandled s m serving st ((waiting, w, e), a) =
      recv-IsHandled s m s.queue waiting refl w.0 st w.2 w.1 e a
  serve-IsHandled s m left_loop st h = rw st h
  serve-IsHandled s m exited st h = rw st h

  move-IsHandled :
      (s : MsgServer) (mv : MsgMove)
      → IsSound mv
      → IsHandled s
      → Gives IsHandled (msg_move tar s mv)
  unfolding msg_move
  move-IsHandled s (send_text ok text) f h = send-IsHandled ok s text f h
  move-IsHandled s (recv_text ok m) f h = rw f (serve-IsHandled s m s.status refl h)

  moves-IsHandled :
      (s : MsgServer) (mvs : List MsgMove)
      → All IsSound mvs
      → IsHandled s
      → Gives IsHandled (msg_moves tar s mvs)
  unfolding msg_moves
  moves-IsHandled s [] f h = h
  moves-IsHandled s (mv ∷ mvs) f h =
      Gives-bind IsHandled IsHandled (msg_move tar s mv) (λ s'. msg_moves tar s' mvs)
        (move-IsHandled s mv f.0 h) (λ s' h'. moves-IsHandled s' mvs f.1 h')

  -- However the clients' sends and the rounds of the server are interleaved, if each text has fewer bytes than the block
  -- and no zero byte and msgrcv succeeds: nothing is undefined, Run is called with the texts in the order in which they
  -- were sent, none of them "exit", and what is on the disk is what those Runs write. While the server is in its loop, or
  -- when the chain has made it exit, the other texts are in the queue; when it has left the loop, Run was called with
  -- every text in front of the first "exit".
  pub msg_moves-IsHandled :
      (mvs : List MsgMove) → All IsSound mvs → Gives IsHandled (msg_moves tar new_server mvs)
  unfolding new_server run_texts
  msg_moves-IsHandled mvs f = moves-IsHandled new_server mvs f (([], (refl, refl, tt), refl), tt)
