-- ===== src/Text/Equal.antt =====
-- `==` of std::string.
use linux_system_learning.Prelude.{◌≡◌, refl, ap₂, Bool, true, false, ◌&&◌, [], ◌∷◌, arith, ◌==◌}
use linux_system_learning.Text.{Bytes, eqb}

pub eqb_refl : (s : Bytes) → eqb s s ≡ true
eqb_refl [] = refl
eqb_refl (c ∷ s) = ground (arith, eqb_refl s)

pub eqb_sym : (s t : Bytes) → eqb s t ≡ eqb t s
eqb_sym [] [] = refl
eqb_sym [] (d ∷ t) = refl
eqb_sym (c ∷ s) [] = refl
eqb_sym (c ∷ s) (d ∷ t) = ground (arith, eqb_sym s t)

and_left : (a b : Bool) → (a && b) ≡ true → a ≡ true
and_left true b h = refl
and_left false b h = h

and_right : (a b : Bool) → (a && b) ≡ true → b ≡ true
and_right true b h = h
and_right false b h = cc

pub eqb→eq : (s t : Bytes) → eqb s t ≡ true → s ≡ t
eqb→eq [] [] h = refl
eqb→eq [] (d ∷ t) h = cc
eqb→eq (c ∷ s) [] h = cc
eqb→eq (c ∷ s) (d ∷ t) h =
    let first : c ≡ d = ground (arith, and_left (c == d) (eqb s t) h) in
    ap₂ ◌∷◌ first (eqb→eq s t (and_right (c == d) (eqb s t) h))
