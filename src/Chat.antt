-- ===== src/Chat.antt =====
-- test_04_03/3.Chatserver: Route.hpp over the addresses of inetAddr.hpp, as the loop of UdpServer.hpp calls it.
pub mod Members
pub mod Senders
use linux_system_learning.Prelude.{
  ℕ, Bool, true, false, ◌&&◌, ◌||◌, List, [], ◌∷◌, ◌++◌, ◌==◌, if◌then◌else◌, map,
}
use linux_system_learning.Text.{Bytes, codes, eqb, to_string}

pub record InetAddr : Type 0 where
  pub ip : Bytes
  pub port : ℕ

-- `operator==`
abbrev pub same : InetAddr → InetAddr → Bool
same a b = eqb a.ip b.ip && a.port == b.port

unfoldable pub string_addr : InetAddr → Bytes
string_addr a = a.ip ++ codes ":" ++ to_string a.port

-- The loop of IsExist
unfoldable pub is_exist : InetAddr → List InetAddr → Bool
is_exist peer [] = false
is_exist peer (user ∷ users) = same user peer || is_exist peer users

pub add_user : InetAddr → List InetAddr → List InetAddr
add_user peer online_user = online_user ++ peer ∷ []

-- DeleteUser: the body of its loop has no test, and ends the loop.
unfoldable pub delete_user : InetAddr → List InetAddr → List InetAddr
delete_user peer [] = []
delete_user peer (user ∷ users) = users

-- The users to whom MessageRoute sends
unfoldable pub joining : InetAddr → List InetAddr → List InetAddr
unfolding add_user
joining peer online_user =
    if is_exist peer online_user then online_user else add_user peer online_user

-- The text that MessageRoute sends
unfoldable pub send_message : InetAddr → Bytes → Bytes
unfolding string_addr
send_message peer message = string_addr peer ++ codes "#" ++ message

-- MessageRoute: the users that are left, and the datagrams that are sent, in order
unfoldable pub message_route :
    List InetAddr → InetAddr → Bytes → List InetAddr × List (InetAddr × Bytes)
unfolding joining send_message delete_user
message_route online_user peer message =
    let users = joining peer online_user in
    (
      if eqb message (codes "QUIT") then delete_user peer users else users,
      map (λ user. (user, send_message peer message)) users,
    )

-- The datagrams that the server receives, one after the other
pub users_after : List InetAddr → List (InetAddr × Bytes) → List InetAddr
unfolding message_route
users_after online_user [] = online_user
users_after online_user ((peer, message) ∷ rest) =
    users_after (message_route online_user peer message).0 rest
