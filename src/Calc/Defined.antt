-- ===== src/Calc/Defined.antt =====
-- When the calculator answers, what its answers hold, and when it is undefined.
use linux_system_learning.Prelude.{
  ℕ, zero, suc, ◌/◌, ◌≤◌, ◌≡◌, ◌≢◌, ◌↔◌, refl, ◌⊎◌, inl, inr, arith, Bool-cases, if_cases,
}
use native.Mathlib.Nat.{div-le_self, div-mul-le_self, div-one, mod-le}
use linux_system_learning.Prelude.Int.{◌≤ℤ◌, ℤ, pos, negsuc, quot, rem, eqb_ℤ, ◌+ℤ◌, ◌-ℤ◌, ◌*ℤ◌}
use linux_system_learning.Prelude.Outcome.{Outcome, returned, undefined, ◌>>=◌}
use linux_system_learning.Calc.{
  Request, Response, IsInt, int_min, execute, divide, modulo, fresh, set_code, set_result, int,
}

-- A quotient leaves the range of `int` at one place only.
pub quot-IsInt :
    (a b : ℤ) → IsInt a → b ≢ pos 0 → (IsInt (quot a b)) ⊎ ((a ≡ int_min) × (b ≡ negsuc 0))
unfolding quot
quot-IsInt (pos a) (pos b) h ne = ground (arith, div-le_self a b)
quot-IsInt (pos a) (negsuc b) h ne = ground (arith, div-le_self a (suc b))
quot-IsInt (negsuc a) (pos b) h ne = ground (arith, div-le_self (suc a) b)
quot-IsInt (negsuc a) (negsuc zero) h ne = ground (arith, div-one (suc a))
quot-IsInt (negsuc a) (negsuc (suc b)) h ne = ground (arith, half (suc a) b)
  where
    half : (n k : ℕ) → n / suc (suc k) ≤ n / 2
    half n k = omega (arith, div-mul-le_self n (suc (suc k)))

int_of_IsInt : (v : ℤ) → IsInt v → int v ≡ returned v
int_of_IsInt v h = ground arith

quot_min : (a b : ℤ) → a ≡ int_min → b ≡ negsuc 0 → int (quot a b) ≡ undefined
unfolding quot
quot_min a b p q = rw (p, q) refl

-- A quotient of two `int`s is undefined for the least `int` divided by -1, and nowhere else.
int-quot_undefined :
    (a b : ℤ) → IsInt a → b ≢ pos 0 → int (quot a b) ≡ undefined → (a ≡ int_min) × (b ≡ negsuc 0)
int-quot_undefined a b h ne u = elim (quot-IsInt a b h ne) [
  | inl fits ↦ cc (int_of_IsInt (quot a b) fits)
  | inr e ↦ e
]

divide_undefined_iff :
    (a b : ℤ) → IsInt a → (divide a b ≡ undefined) ↔ ((a ≡ int_min) × (b ≡ negsuc 0))
unfolding divide
divide_undefined_iff a b h = elim (Bool-cases (eqb_ℤ b (pos 0))) [
  | inl zero_div ↦ rw zero_div (λ u. cc, λ e. absurd (ground arith))
  | inr other ↦
      rw other (
        λ u. int-quot_undefined a b h (ground arith) (ground arith),
        λ e. rw (quot_min a b e.0 e.1),
      )
]

modulo_undefined_iff :
    (a b : ℤ) → IsInt a → (modulo a b ≡ undefined) ↔ ((a ≡ int_min) × (b ≡ negsuc 0))
unfolding modulo
modulo_undefined_iff a b h = elim (Bool-cases (eqb_ℤ b (pos 0))) [
  | inl zero_div ↦ rw zero_div (λ u. cc, λ e. absurd (ground arith))
  | inr other ↦
      rw other (
        λ u. int-quot_undefined a b h (ground arith) (ground arith),
        λ e. rw (quot_min a b e.0 e.1),
      )
]

-- For `/` and `%` on `int`s the behaviour of `Cal::Execute` is undefined exactly when the least
-- `int` is divided by -1.
pub execute_undefined_iff :
    (req : Request)
    → IsInt req.x
    → (req.oper ≡ pos b'/') ⊎ (req.oper ≡ pos b'%')
    → (execute req ≡ undefined) ↔ ((req.x ≡ int_min) × (req.y ≡ negsuc 0))
unfolding execute
execute_undefined_iff req h (inl slash) = rw slash (divide_undefined_iff req.x req.y h)
execute_undefined_iff req h (inr percent) = rw percent (modulo_undefined_iff req.x req.y h)

rem-IsInt : (a b : ℤ) → IsInt a → IsInt (rem a b)
unfolding rem
rem-IsInt (pos a) (pos b) h = omega (arith, mod-le a b)
rem-IsInt (pos a) (negsuc b) h = omega (arith, mod-le a (suc b))
rem-IsInt (negsuc a) (pos b) h = ground (arith, mod-le (suc a) b)
rem-IsInt (negsuc a) (negsuc b) h = ground (arith, mod-le (suc a) (suc b))

int-IsInt : (v w : ℤ) → int v ≡ returned w → IsInt w
int-IsInt v w e = ground arith

abbrev Good : Outcome Response → Type 0
Good o =
    (resp : Response)
    → o ≡ returned resp
    → IsInt resp.result × (pos 0 ≤ℤ resp.code) × (resp.code ≤ℤ pos 3)

int-Good : (v : ℤ) → Good (int v >>= λ r. returned (set_result fresh r))
int-Good v resp e = ground arith

code-Good : (c : ℕ) → c ≤ 3 → Good (returned (set_code fresh (pos c)))
code-Good c h resp e = ground arith

int_then-Good : (v w : ℤ) → IsInt w → Good (int v >>= λ r. returned (set_result fresh w))
int_then-Good v w h resp e = ground arith

modulo-Good : (a b : ℤ) → IsInt a → Good (modulo a b)
unfolding modulo
modulo-Good a b h =
    if_cases Good (eqb_ℤ b (pos 0)) (λ t. code-Good 2 (omega arith))
      (λ t. int_then-Good (quot a b) (rem a b) (rem-IsInt a b h))

divide-Good : (a b : ℤ) → Good (divide a b)
unfolding divide
divide-Good a b =
    if_cases Good (eqb_ℤ b (pos 0)) (λ t. code-Good 1 (omega arith)) (λ t. int-Good (quot a b))

-- Every answer of `Cal::Execute` to a first operand that is an `int` holds an `int` as its result and
-- a code from 0 to 3.
pub execute_range :
    (req : Request) (resp : Response)
    → IsInt req.x
    → execute req ≡ returned resp
    → IsInt resp.result × (pos 0 ≤ℤ resp.code) × (resp.code ≤ℤ pos 3)
unfolding execute
execute_range req resp h e = good resp e
  where
    good : Good (execute req)
    good =
        if_cases Good (eqb_ℤ req.oper (pos b'+')) (λ t. int-Good (req.x +ℤ req.y))
          λ t.
            if_cases Good (eqb_ℤ req.oper (pos b'-')) (λ t. int-Good (req.x -ℤ req.y))
              λ t.
                if_cases Good (eqb_ℤ req.oper (pos b'*')) (λ t. int-Good (req.x *ℤ req.y))
                  λ t.
                    if_cases Good (eqb_ℤ req.oper (pos b'/')) (λ t. divide-Good req.x req.y)
                      λ t.
                        if_cases Good (eqb_ℤ req.oper (pos b'%')) (λ t. modulo-Good req.x req.y h)
                          λ t. code-Good 3 (omega arith)
