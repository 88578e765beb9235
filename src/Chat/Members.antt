-- ===== src/Chat/Members.antt =====
-- Who gets the messages of test_04_03/3.Chatserver/Route.hpp.
use linux_system_learning.Prelude.{
  ◌≡◌, refl, ap, ap₂, ◌∙◌, Bool, true, false, ◌||◌, List, [], ◌∷◌, if◌then◌else◌, map, arith,
  if_cases,
}
use linux_system_learning.Text.{Bytes, codes, eqb}
use linux_system_learning.Text.Equal.{eqb_refl, eqb_sym}
use linux_system_learning.Chat.{
  InetAddr, same, is_exist, add_user, delete_user, joining, message_route, send_message,
  users_after,
}

-- No address twice.
abbrev pub IsOnce : List InetAddr → Type 0
IsOnce [] = Unit
IsOnce (user ∷ users) = (is_exist user users ≡ false) × IsOnce users

or_left : (a b : Bool) → (a || b) ≡ false → a ≡ false
or_left true b h = h
or_left false b h = refl

or_right : (a b : Bool) → (a || b) ≡ false → b ≡ false
or_right true b h = cc
or_right false b h = h

or_there : (a b : Bool) → b ≡ true → (a || b) ≡ true
or_there true b h = refl
or_there false b h = h

same_sym : (a b : InetAddr) → same a b ≡ same b a
same_sym a b = ground (arith, eqb_sym a.ip b.ip)

same_self : (a : InetAddr) → same a a ≡ true
same_self a = ground (arith, eqb_refl a.ip)

is_exist-add_user :
    (user peer : InetAddr) (users : List InetAddr)
    → is_exist user (add_user peer users) ≡ (is_exist user users || same peer user)
unfolding is_exist add_user
is_exist-add_user user peer [] = ground arith
is_exist-add_user user peer (other ∷ users) = ground (arith, is_exist-add_user user peer users)

add_user-IsOnce :
    (peer : InetAddr) (users : List InetAddr)
    → is_exist peer users ≡ false
    → IsOnce users
    → IsOnce (add_user peer users)
unfolding is_exist add_user
add_user-IsOnce peer [] e h = (refl, tt)
add_user-IsOnce peer (user ∷ users) e h = (
  is_exist-add_user user peer users
      ∙ ap₂ ◌||◌ h.0 (same_sym peer user ∙ or_left (same user peer) (is_exist peer users) e),
  add_user-IsOnce peer users (or_right (same user peer) (is_exist peer users) e) h.1,
)

joining-IsOnce :
    (peer : InetAddr) (users : List InetAddr) → IsOnce users → IsOnce (joining peer users)
unfolding joining
joining-IsOnce peer users h =
    if_cases IsOnce (is_exist peer users) (λ there. h) (λ new. add_user-IsOnce peer users new h)

delete_user-IsOnce :
    (peer : InetAddr) (users : List InetAddr) → IsOnce users → IsOnce (delete_user peer users)
unfolding delete_user
delete_user-IsOnce peer [] h = tt
delete_user-IsOnce peer (user ∷ users) h = h.1

message_route-IsOnce :
    (users : List InetAddr) (peer : InetAddr) (message : Bytes)
    → IsOnce users
    → IsOnce (message_route users peer message).0
unfolding message_route
message_route-IsOnce users peer message h =
    if_cases IsOnce (eqb message (codes "QUIT"))
      (λ quit. delete_user-IsOnce peer (joining peer users) (joining-IsOnce peer users h))
      (λ stays. joining-IsOnce peer users h)

-- From a list in which no address stands twice, no sequence of datagrams makes one stand twice: no user gets a
-- message more than once.
pub users_after-IsOnce :
    (users : List InetAddr) (datagrams : List (InetAddr × Bytes))
    → IsOnce users
    → IsOnce (users_after users datagrams)
unfolding users_after
users_after-IsOnce users [] h = h
users_after-IsOnce users ((peer, message) ∷ rest) h =
    users_after-IsOnce (message_route users peer message).0 rest
      (message_route-IsOnce users peer message h)

is_exist-joining :
    (peer : InetAddr) (users : List InetAddr) → is_exist peer (joining peer users) ≡ true
unfolding joining
is_exist-joining peer users =
    if_cases (λ us. is_exist peer us ≡ true) (is_exist peer users) (λ there. there)
      (λ new. is_exist-add_user peer peer users ∙ ap₂ ◌||◌ new (same_self peer))

is_exist_of_joining :
    (peer user : InetAddr) (users : List InetAddr)
    → is_exist user users ≡ true
    → is_exist user (joining peer users) ≡ true
unfolding joining
is_exist_of_joining peer user users h =
    if_cases (λ us. is_exist user us ≡ true) (is_exist peer users) (λ there. h)
      (λ new. is_exist-add_user user peer users ∙ ap (λ b. b || same peer user) h)

-- What MessageRoute sends is the sender's address, `#` and the message, once for every entry of the list of users
-- that has the sender in it and everyone who was in it before.
pub message_route_sends :
    (users : List InetAddr) (peer user : InetAddr) (message : Bytes)
    → is_exist user users ≡ true
    → ((message_route users peer message).1
        ≡ map (λ u. (u, send_message peer message)) (joining peer users))
      × (is_exist peer (joining peer users) ≡ true)
      × (is_exist user (joining peer users) ≡ true)
unfolding message_route
message_route_sends users peer user message h =
    (refl, is_exist-joining peer users, is_exist_of_joining peer user users h)

-- A user who is in the list of users, but not the first one, and sends QUIT stays in it; the first one is taken out.
pub message_route_quit :
    (first peer : InetAddr) (users : List InetAddr)
    → is_exist peer users ≡ true
    → is_exist first users ≡ false
    → ((message_route (first ∷ users) peer (codes "QUIT")).0 ≡ users)
      × (is_exist peer (message_route (first ∷ users) peer (codes "QUIT")).0 ≡ true)
      × (is_exist first (message_route (first ∷ users) peer (codes "QUIT")).0 ≡ false)
unfolding message_route joining delete_user is_exist
message_route_quit first peer users h e =
    let there : is_exist peer (first ∷ users) ≡ true =
      or_there (same first peer) (is_exist peer users) h in
    let left : (message_route (first ∷ users) peer (codes "QUIT")).0 ≡ users =
      ap (λ b. delete_user peer (if b then first ∷ users else add_user peer (first ∷ users)))
        there in
    (left, ap (is_exist peer) left ∙ h, ap (is_exist first) left ∙ e)
