-- ===== src/Tests/Service.antt =====
-- The calculator that serves each connection in a process, on two requests cut in three pieces.
use linux_system_learning.Prelude.{◌≡◌, [], ◌∷◌, ◌++◌, map}
use linux_system_learning.Prelude.Outcome.{returned, ◌>>=◌}
use linux_system_learning.Protocol.Stream.{concat, deliver}
use linux_system_learning.Message.{excute}
use linux_system_learning.CalcService.{arrived, quit, answer_package, get_request}
use linux_system_learning.CalcService.Same.{get_request-deliver}
use linux_system_learning.Tests.Notation.{notation}
use linux_system_learning.Tests.Calculator.{two_pieces}

get_request-deliver_example :
    (get_request (answer_package notation) [] [] (map arrived two_pieces ++ quit ∷ []) >>= λ sent.
    returned (concat sent))
    ≡ (deliver (excute notation) [] [] two_pieces >>= λ r. returned r.0)
get_request-deliver_example = get_request-deliver notation two_pieces
