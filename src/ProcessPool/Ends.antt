-- ===== src/ProcessPool/Ends.antt =====
-- Who holds the write ends of the pipes in test_03_05/ProcessPool/ProcessPool.hpp, and why Stop ends.
use linux_system_learning.Prelude.{
  ℕ, suc, ◌+◌, ◌≡◌, ◌<◌, refl, Bool, true, false, ◌||◌, ◌&&◌, List, [], ◌∷◌, ◌++◌, arith, length,
  length-append, ◌==◌, All, All-append, erase, if_cases,
}
use linux_system_learning.ProcessPool.{
  End, reads, writes, other, Files, Channel, ProcessPool, close_all, piped, fork_child,
}

-- A write end is one of the channels'.
abbrev pub is_of : ℕ → ℕ → List Channel → Bool
is_of fd k [] = false
is_of fd k (c ∷ channels) = (fd == c.wfd && k == c.subid) || is_of fd k channels

abbrev pub IsCovered : List Channel → ℕ × End → Type 0
IsCovered channels (fd, writes k) = is_of fd k channels ≡ true
IsCovered channels (fd, reads k) = Unit
IsCovered channels (fd, other) = Unit

IsCovered-cons :
    (c : Channel) (channels : List Channel) (entry : ℕ × End)
    → IsCovered (c ∷ channels) entry
    → (entry.0 == c.wfd) ≡ false
    → IsCovered channels entry
IsCovered-cons c channels (fd, writes k) h ne = ground arith
IsCovered-cons c channels (fd, reads k) h ne = tt
IsCovered-cons c channels (fd, other) h ne = tt

-- Closing a channel's descriptor leaves the ends of the other channels.
pub erase-IsCovered :
    (c : Channel) (channels : List Channel) (files : Files)
    → All (IsCovered (c ∷ channels)) files
    → All (IsCovered channels) (erase c.wfd files)
unfolding erase
erase-IsCovered c channels [] h = tt
erase-IsCovered c channels (entry ∷ files) h =
    if_cases (All (IsCovered channels)) (entry.0 == c.wfd)
      (λ t. erase-IsCovered c channels files h.1)
      (λ f. (IsCovered-cons c channels entry h.0 f, erase-IsCovered c channels files h.1))

-- CloseAll leaves the ends of the channels that it does not know.
close_all-IsCovered :
    (channels more : List Channel) (files : Files)
    → All (IsCovered (channels ++ more)) files
    → All (IsCovered more) (close_all channels files)
unfolding close_all
close_all-IsCovered [] more files h = h
close_all-IsCovered (c ∷ channels) more files h =
    close_all-IsCovered channels more (erase c.wfd files)
      (erase-IsCovered c (channels ++ more) files h)

-- What a table holds still holds of it with a descriptor closed.
erase-All {ℓ} :
    {A : Type ℓ} (P : ℕ × A → Type 0) (fd : ℕ) (files : List (ℕ × A))
    → All P files
    → All P (erase fd files)
unfolding erase
erase-All P fd [] h = tt
erase-All P fd (entry ∷ files) h =
    if_cases (All P) (entry.0 == fd) (λ t. erase-All P fd files h.1)
      (λ f. (h.0, erase-All P fd files h.1))

is_of-append :
    (fd k : ℕ) (channels more : List Channel)
    → is_of fd k channels ≡ true
    → is_of fd k (channels ++ more) ≡ true
is_of-append fd k [] more h = cc
is_of-append fd k (c ∷ channels) more h = ground (arith, is_of-append fd k channels more)

is_of_last :
    (fd k : ℕ) (channels : List Channel)
    → is_of fd k (channels ++ record { wfd = fd; subid = k } ∷ []) ≡ true
is_of_last fd k [] = ground arith
is_of_last fd k (c ∷ channels) = ground (arith, is_of_last fd k channels)

IsCovered-append :
    (channels more : List Channel) (entry : ℕ × End)
    → IsCovered channels entry
    → IsCovered (channels ++ more) entry
IsCovered-append channels more (fd, writes k) h = is_of-append fd k channels more h
IsCovered-append channels more (fd, reads k) h = tt
IsCovered-append channels more (fd, other) h = tt

All-map {ℓ} :
    {A : Type ℓ} (P Q : A → Type 0) (xs : List A) → ((x : A) → P x → Q x) → All P xs → All Q xs
All-map P Q [] f h = tt
All-map P Q (x ∷ xs) f h = (f x h.0, All-map P Q xs f h.1)

piped-IsCovered :
    (channels : List Channel) (k rfd wfd : ℕ) (files : Files)
    → All (IsCovered channels) files
    → All (IsCovered (channels ++ record { wfd = wfd; subid = k } ∷ [])) (piped k rfd wfd files)
piped-IsCovered channels k rfd wfd files h =
    (tt, (is_of_last wfd k channels, All-map _ _ files (IsCovered-append channels _) h))

-- The channels are numbered from `n` on.
abbrev pub AreNumbered : ℕ → List Channel → Type 0
AreNumbered n [] = Unit
AreNumbered n (c ∷ channels) = (c.subid ≡ n) × AreNumbered (suc n) channels

AreNumbered-append :
    (n wfd k : ℕ) (channels : List Channel)
    → n + length channels ≡ k
    → AreNumbered n channels
    → AreNumbered n (channels ++ record { wfd = wfd; subid = k } ∷ [])
AreNumbered-append n wfd k [] e h = (omega (arith, e), tt)
AreNumbered-append n wfd k (c ∷ channels) e h =
    (h.0, AreNumbered-append (suc n) wfd k channels (omega (arith, e)) h.1)

pub AreNumbered-ne :
    (k n : ℕ) (channels : List Channel)
    → k < n
    → AreNumbered n channels
    → All (λ c. (k == c.subid) ≡ false) channels
AreNumbered-ne k n [] lt h = tt
AreNumbered-ne k n (c ∷ channels) lt h =
    (ground (arith, h.0, lt), AreNumbered-ne k (suc n) channels (omega arith) h.1)

-- The children that run are those of the channels.
abbrev pub ArePaired : List Channel → List (ℕ × Files) → Type 0
ArePaired [] [] = Unit
ArePaired [] (child ∷ children) = ⊥
ArePaired (c ∷ channels) [] = ⊥
ArePaired (c ∷ channels) (child ∷ children) = (child.0 ≡ c.subid) × ArePaired channels children

ArePaired-append :
    (channels : List Channel) (children : List (ℕ × Files)) (wfd k : ℕ) (files : Files)
    → ArePaired channels children
    → ArePaired (channels ++ record { wfd = wfd; subid = k } ∷ []) (children ++ (k, files) ∷ [])
ArePaired-append [] [] wfd k files h = (refl, tt)
ArePaired-append [] (child ∷ children) wfd k files h = absurd h
ArePaired-append (c ∷ channels) [] wfd k files h = absurd h
ArePaired-append (c ∷ channels) (child ∷ children) wfd k files h =
    (h.0, ArePaired-append channels children wfd k files h.1)

abbrev pub HasNoEnd : Files → Type 0
HasNoEnd files = All (IsCovered []) files

-- A pool that Start has made so far
pub record IsStarted (s : ProcessPool) : Type 0 where
  pub covered : All (IsCovered s.channels) s.files
  pub clean : All (λ child. HasNoEnd child.1) s.children
  pub numbered : AreNumbered 0 s.channels
  pub counted : length s.channels ≡ s.forks
  pub paired : ArePaired s.channels s.children

pub fork_child-IsStarted :
    (s : ProcessPool) (rfd wfd : ℕ) → IsStarted s → IsStarted (fork_child s rfd wfd)
unfolding fork_child
fork_child-IsStarted s rfd wfd v =
    let c : Channel = record { wfd = wfd; subid = s.forks } in
    let all = piped-IsCovered s.channels s.forks rfd wfd s.files v.covered in
    record {
      covered =
          erase-All (IsCovered (s.channels ++ c ∷ [])) rfd (piped s.forks rfd wfd s.files) all;
      clean =
          All-append (λ child. HasNoEnd child.1) s.children _ v.clean
            (
              erase-IsCovered c [] (close_all s.channels (piped s.forks rfd wfd s.files))
                  (close_all-IsCovered s.channels (c ∷ []) (piped s.forks rfd wfd s.files) all),
              tt,
            );
      numbered = AreNumbered-append 0 wfd s.forks s.channels (omega (arith, v.counted)) v.numbered;
      counted = omega (arith, length-append s.channels (c ∷ []), v.counted);
      paired = ArePaired-append s.channels s.children wfd s.forks _ v.paired;
    }
