-- ===== src/CommandServer/Threads.antt =====
-- The threads of test_04_15/TcpEchoServer/TcpServer.hpp do not disturb one another.
use linux_system_learning.Prelude.{
  ℕ, ◌≡◌, refl, ap, sym, ◌∙◌, Bool, true, false, List, [], ◌∷◌, Option, none, some, arith, ◌==◌,
  if◌then◌else◌, lookup, lookup-erase, Bool-cases, inl, inr,
}
use linux_system_learning.Text.{Bytes, c_str}
use linux_system_learning.CommandServer.{
  excute_command, TcpServer, ReadResult, bytes, hang_up, broken, Step, no_accept, accepts, reads_of,
  close_fd, answer, service, tcp_step, tcp_run, tcp_init,
}

module _ (fd : ℕ) where
  -- What was sent to the descriptor, the latest first
  abbrev pub sent_to : List (ℕ × Bytes) → List Bytes
  sent_to [] = []
  sent_to (entry ∷ sent) =
      let others = sent_to sent in if entry.0 == fd then entry.1 ∷ others else others

  -- The steps that are about the descriptor
  abbrev pub is_own : Step → Bool
  is_own no_accept = false
  is_own (accepts sockfd who) = sockfd == fd
  is_own (reads_of k r) = k == fd

  abbrev pub own_steps : List Step → List Step
  own_steps [] = []
  own_steps (step ∷ steps) =
      let others = own_steps steps in if is_own step then step ∷ others else others

  -- Two states in which the descriptor is the same
  abbrev Alike : TcpServer → TcpServer → Type 0
  Alike s s' = (lookup fd s.served ≡ lookup fd s'.served) × (sent_to s.sent ≡ sent_to s'.sent)

  closed-Alike : (s s' : TcpServer) (k : ℕ) → Alike s s' → Alike (close_fd s k) (close_fd s' k)
  unfolding close_fd
  closed-Alike s s' k h = (
    lookup-erase k fd s.served
        ∙ ap (λ o. if k == fd then none else o) h.0
        ∙ sym (lookup-erase k fd s'.served),
    h.1,
  )

  service-Alike :
      (s s' : TcpServer) (k : ℕ) (who : Option Bytes) (r : ReadResult)
      → Alike s s'
      → Alike (service s k who r) (service s' k who r)
  unfolding service answer
  service-Alike s s' k none r h = h
  service-Alike s s' k (some who) hang_up h = closed-Alike s s' k h
  service-Alike s s' k (some who) broken h = closed-Alike s s' k h
  service-Alike s s' k (some who) (bytes buffer popen) h = (
    h.0,
    ap (λ sent. if k == fd then (excute_command popen (c_str buffer) who).1 ∷ sent else sent) h.1,
  )

  own-Alike :
      (s s' : TcpServer) (step : Step)
      → is_own step ≡ true
      → Alike s s'
      → Alike (tcp_step s step) (tcp_step s' step)
  unfolding tcp_step lookup
  own-Alike s s' no_accept e h = h
  own-Alike s s' (accepts k who) e h = (rw e refl, h.1)
  own-Alike s s' (reads_of k r) e h =
      let same : k ≡ fd = ground (arith, e) in
      let found : lookup k s.served ≡ lookup k s'.served =
        ap (λ j. lookup j s.served) same ∙ h.0 ∙ sym (ap (λ j. lookup j s'.served) same) in
      rw found (service-Alike s s' k (lookup k s'.served) r h)

  service-other :
      (s : TcpServer) (k : ℕ) (who : Option Bytes) (r : ReadResult)
      → (k == fd) ≡ false
      → Alike (service s k who r) s
  unfolding service answer close_fd
  service-other s k none r e = (refl, refl)
  service-other s k (some who) hang_up e = (rw (lookup-erase k fd s.served, e) refl, refl)
  service-other s k (some who) broken e = (rw (lookup-erase k fd s.served, e) refl, refl)
  service-other s k (some who) (bytes buffer popen) e = (refl, rw e refl)

  other-Alike : (s : TcpServer) (step : Step) → is_own step ≡ false → Alike (tcp_step s step) s
  unfolding tcp_step lookup
  other-Alike s no_accept e = (refl, refl)
  other-Alike s (accepts k who) e = (rw e refl, refl)
  other-Alike s (reads_of k r) e = service-other s k (lookup k s.served) r e

  run-Alike :
      (s s' : TcpServer) (steps : List Step)
      → Alike s s'
      → Alike (tcp_run s steps) (tcp_run s' (own_steps steps))
  unfolding tcp_run
  run-Alike s s' [] h = h
  run-Alike s s' (step ∷ steps) h = elim (Bool-cases (is_own step)) [
    | inl e ↦ rw e (run-Alike (tcp_step s step) (tcp_step s' step) steps (own-Alike s s' step e h))
    | inr e ↦
        let k = other-Alike s step e in
        rw e (run-Alike (tcp_step s step) s' steps (k.0 ∙ h.0, k.1 ∙ h.1))
  ]

  -- What a connection is sent does not depend on the other ones: it is what the server would have sent if the steps
  -- of the others had not been.
  pub tcp_run_alone :
      (steps : List Step)
      → sent_to (tcp_run tcp_init steps).sent ≡ sent_to (tcp_run tcp_init (own_steps steps)).sent
  tcp_run_alone steps = (run-Alike tcp_init tcp_init steps (refl, refl)).1
