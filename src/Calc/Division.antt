-- ===== src/Calc/Division.antt =====
-- The quotient and the remainder that the calculator answers belong together.
use linux_system_learning.Prelude.{suc, ◌≡◌, ◌≢◌, arith}
use native.Mathlib.Nat.{div-add-mod'}
use linux_system_learning.Prelude.Int.{ℤ, pos, negsuc, quot, rem, ◌+ℤ◌, ◌*ℤ◌}
use linux_system_learning.Prelude.Outcome.{returned}
use linux_system_learning.Calc.{Response, execute, divide, modulo}

quot-rem : (a b : ℤ) → b ≢ pos 0 → quot a b *ℤ b +ℤ rem a b ≡ a
unfolding quot rem ◌+ℤ◌ ◌*ℤ◌
quot-rem (pos a) (pos b) ne = ground (arith, div-add-mod' a b)
quot-rem (pos a) (negsuc b) ne = ground (arith, div-add-mod' a (suc b))
quot-rem (negsuc a) (pos b) ne = ground (arith, div-add-mod' (suc a) b)
quot-rem (negsuc a) (negsuc b) ne = ground (arith, div-add-mod' (suc a) (suc b))

result-divide : (a b : ℤ) (q : Response) → b ≢ pos 0 → divide a b ≡ returned q → q.result ≡ quot a b
unfolding divide
result-divide a b q ne e = ground arith

result-modulo : (a b : ℤ) (r : Response) → b ≢ pos 0 → modulo a b ≡ returned r → r.result ≡ rem a b
unfolding modulo
result-modulo a b r ne e = ground arith

-- With `/` and `%` of the same operands answered, the answers q and r satisfy q * y + r = x, for
-- every divisor that is not zero.
pub execute_div_mod :
    (x y : ℤ) (q r : Response)
    → y ≢ pos 0
    → execute (record { x = x; y = y; oper = pos b'/' }) ≡ returned q
    → execute (record { x = x; y = y; oper = pos b'%' }) ≡ returned r
    → q.result *ℤ y +ℤ r.result ≡ x
unfolding execute
execute_div_mod x y q r ne d m =
    rw (result-divide x y q ne d, result-modulo x y r ne m) (quot-rem x y ne)
