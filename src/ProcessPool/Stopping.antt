-- ===== src/ProcessPool/Stopping.antt =====
-- Stop of test_03_05/ProcessPool/ProcessPool.hpp waits for every child and for none in vain.
use linux_system_learning.Prelude.{
  ℕ, suc, ◌≡◌, refl, ap, ◌∙◌, true, false, List, [], ◌∷◌, arith, ◌==◌, All, erase,
}
use linux_system_learning.Prelude.Outcome.{returned, Gives}
use linux_system_learning.ProcessPool.{
  reads, writes, other, Files, Channel, ProcessPool, Made, made, new_pool, fork_child, start,
  is_open, is_inherited, wait_for, close_and_wait, stop,
}
use linux_system_learning.ProcessPool.Ends.{
  is_of, IsCovered, AreNumbered, AreNumbered-ne, ArePaired, HasNoEnd, IsStarted,
  fork_child-IsStarted, erase-IsCovered,
}

-- Rounds of Start that get a pipe and a child, with the descriptors of the pipe.
abbrev pub all_made : List (ℕ × ℕ) → List Made
all_made [] = []
all_made ((rfd, wfd) ∷ ends) = made rfd wfd ∷ all_made ends

start-IsStarted :
    (s : ProcessPool) (ends : List (ℕ × ℕ)) → IsStarted s → IsStarted (start s (all_made ends)).1
unfolding start
start-IsStarted s [] v = v
start-IsStarted s ((rfd, wfd) ∷ ends) v =
    start-IsStarted (fork_child s rfd wfd) ends (fork_child-IsStarted s rfd wfd v)

new_pool-IsStarted : (files : Files) → HasNoEnd files → IsStarted (new_pool files)
unfolding new_pool
new_pool-IsStarted files h = record {
  covered = h;
  clean = tt;
  numbered = tt;
  counted = refl;
  paired = tt;
}

not_of :
    (fd k : ℕ) (channels : List Channel)
    → All (λ c. (k == c.subid) ≡ false) channels
    → is_of fd k channels ≡ false
not_of fd k [] h = refl
not_of fd k (c ∷ channels) h = ground (arith, not_of fd k channels h.1, h.0)

-- The ends of some channels are no ends of another child's pipe.
shut :
    (k : ℕ) (channels : List Channel) (files : Files)
    → All (λ c. (k == c.subid) ≡ false) channels
    → All (IsCovered channels) files
    → is_open k files ≡ false
unfolding is_open
shut k channels [] ne h = refl
shut k channels ((fd, writes p) ∷ files) ne h =
    ground (arith, not_of fd p channels, not_of fd k channels ne, shut k channels files ne h.1, h.0)
shut k channels ((fd, reads p) ∷ files) ne h = shut k channels files ne h.1
shut k channels ((fd, other) ∷ files) ne h = shut k channels files ne h.1

not_inherited :
    (k : ℕ) (children : List (ℕ × Files))
    → All (λ child. HasNoEnd child.1) children
    → is_inherited k children ≡ false
unfolding is_inherited
not_inherited k [] h = refl
not_inherited k (child ∷ children) h = rw (shut k [] child.1 tt h.0) (not_inherited k children h.1)

-- If the parent starts without a write end of a pipe and every round of Start gets a pipe and a child, then no child
-- holds the write end of any pipe, its own or that of a child made before it.
pub start_ends :
    (files : Files) (ends : List (ℕ × ℕ)) (k : ℕ)
    → HasNoEnd files
    → is_inherited k (start (new_pool files) (all_made ends)).1.children ≡ false
start_ends files ends k h =
    not_inherited k (start (new_pool files) (all_made ends)).1.children
      (start-IsStarted (new_pool files) ends (new_pool-IsStarted files h)).clean

erase_absent :
    (k : ℕ) (channels : List Channel) (children : List (ℕ × Files))
    → All (λ c. (k == c.subid) ≡ false) channels
    → ArePaired channels children
    → erase k children ≡ children
unfolding erase
erase_absent k [] [] ne p = refl
erase_absent k [] (child ∷ children) ne p = absurd p
erase_absent k (c ∷ channels) [] ne p = absurd p
erase_absent k (c ∷ channels) (child ∷ children) ne p =
    let ne' : (child.0 == k) ≡ false = ground (arith, p.0, ne.0) in
    rw ne' (ap (λ rest. child ∷ rest) (erase_absent k channels children ne.1 p.1))

==-refl : (n : ℕ) → (n == n) ≡ true
==-refl n = ground arith

wait_for_paired :
    (s : ProcessPool) (c : Channel) (channels : List Channel) (files : Files)
    (rest : List (ℕ × Files))
    → s.children ≡ (c.subid, files) ∷ rest
    → All (λ c'. (c.subid == c'.subid) ≡ false) channels
    → All (IsCovered channels) s.files
    → All (λ child. HasNoEnd child.1) s.children
    → ArePaired channels rest
    → wait_for s c.subid ≡ returned (record s { children = rest })
unfolding wait_for erase
wait_for_paired s c channels files rest e ne covered clean p =
    let gone : erase c.subid s.children ≡ rest =
      rw e (rw (==-refl c.subid) (erase_absent c.subid channels rest ne p)) in
    rw (shut c.subid channels s.files ne covered, not_inherited c.subid s.children clean)
      (ap (λ (rest' : List (ℕ × Files)). returned (record s { children = rest' })) gone)

close_and_wait_paired :
    (s : ProcessPool) (n : ℕ) (channels : List Channel) (children : List (ℕ × Files))
    → s.children ≡ children
    → AreNumbered n channels
    → All (IsCovered channels) s.files
    → All (λ child. HasNoEnd child.1) children
    → ArePaired channels children
    → Gives (λ s'. s'.children ≡ []) (close_and_wait s channels)
unfolding close_and_wait
close_and_wait_paired s n [] [] e numbered covered clean p = e
close_and_wait_paired s n [] (child ∷ children) e numbered covered clean p = absurd p
close_and_wait_paired s n (c ∷ channels) [] e numbered covered clean p = absurd p
close_and_wait_paired s n (c ∷ channels) (child ∷ children) e numbered covered clean p =
    let s' : ProcessPool = record s { files = erase c.wfd s.files } in
    let waited : wait_for s' c.subid ≡ returned (record s' { children = children }) =
      wait_for_paired s' c channels child.1 children (e ∙ ap (λ k. (k, child.1) ∷ children) p.0)
        (AreNumbered-ne c.subid (suc n) channels (omega (arith, numbered.0)) numbered.1)
        (erase-IsCovered c channels s.files covered) (rw e clean) p.1 in
    rw waited (
      close_and_wait_paired (record s' { children = children }) (suc n) channels children refl
        numbered.1 (erase-IsCovered c channels s.files covered) clean.1 p.1)

-- If the parent starts without a write end of a pipe and every round of Start gets a pipe and a child, then Stop waits
-- for no child in vain: it returns, and no child runs any more.
pub stop-start :
    (files : Files) (ends : List (ℕ × ℕ))
    → HasNoEnd files
    → Gives (λ s. s.children ≡ []) (stop (start (new_pool files) (all_made ends)).1)
unfolding stop
stop-start files ends h =
    let s = (start (new_pool files) (all_made ends)).1 in
    let v : IsStarted s = start-IsStarted (new_pool files) ends (new_pool-IsStarted files h) in
    close_and_wait_paired s 0 s.channels s.children refl v.numbered v.covered v.clean v.paired
