-- ===== src/Calc.antt =====
-- test_06_18/Server/NetCal.hpp: the calculator behind the protocol, on the fields of Request and
-- Response of test_06_18/Server/Protocol.hpp.
pub mod Defined
pub mod Division
use linux_system_learning.Prelude.{ℕ, Bool, ◌&&◌, List, ◌^◌, ◌-◌, if◌then◌else◌}
use linux_system_learning.Prelude.Int.{
  ℤ, pos, negsuc, ◌+ℤ◌, ◌-ℤ◌, ◌*ℤ◌, ◌≤ℤ◌, leb_ℤ, eqb_ℤ, quot, rem, sub_ℕ, pos_part, neg_part,
}
use linux_system_learning.Prelude.Outcome.{Outcome, returned, undefined, ◌>>=◌}

-- `Request`
pub record Request : Type 0 where
  pub x : ℤ
  pub y : ℤ
  pub oper : ℤ

-- `Response`
pub record Response : Type 0 where
  pub result : ℤ
  pub code : ℤ

abbrev pub int_min : ℤ
int_min = negsuc (2 ^ 31 - 1)

abbrev pub int_max : ℤ
int_max = pos (2 ^ 31 - 1)

abbrev pub IsInt : ℤ → Type 0
IsInt v = (int_min ≤ℤ v) × (v ≤ℤ int_max)

-- An `int` expression: a value out of range is signed overflow, which is undefined.
abbrev pub int : ℤ → Outcome ℤ
int v = if leb_ℤ int_min v && leb_ℤ v int_max then returned v else undefined

-- `Response resp;`
abbrev pub fresh : Response
fresh = record { result = pos 0; code = pos 0 }

-- `Response::SetResult` and `Response::SetCode`
abbrev pub set_result : Response → ℤ → Response
set_result resp res = record resp { result = res }

abbrev pub set_code : Response → ℤ → Response
set_code resp c = record resp { code = c }

-- The remainder is undefined where the quotient overflows.
divide : ℤ → ℤ → Outcome Response
divide a b =
    if eqb_ℤ b (pos 0)
    then returned (set_code fresh (pos 1))
    else int (quot a b) >>= λ q. returned (set_result fresh q)

modulo : ℤ → ℤ → Outcome Response
modulo a b =
    if eqb_ℤ b (pos 0)
    then returned (set_code fresh (pos 2))
    else int (quot a b) >>= λ q. returned (set_result fresh (rem a b))

-- `Cal::Execute`
unfoldable pub execute : Request → Outcome Response
unfolding divide modulo
execute req =
    if eqb_ℤ req.oper (pos b'+')
    then int (req.x +ℤ req.y) >>= (λ r. returned (set_result fresh r))
    else if eqb_ℤ req.oper (pos b'-')
    then int (req.x -ℤ req.y) >>= (λ r. returned (set_result fresh r))
    else if eqb_ℤ req.oper (pos b'*')
    then int (req.x *ℤ req.y) >>= (λ r. returned (set_result fresh r))
    else if eqb_ℤ req.oper (pos b'/')
    then divide req.x req.y
    else if eqb_ℤ req.oper (pos b'%')
    then modulo req.x req.y
    else returned (set_code fresh (pos 3))
