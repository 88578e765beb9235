-- ===== src/RingQueue/Window.antt =====
-- A stretch of a circular array.
use linux_system_learning.Prelude.{
  ℕ, zero, suc, ◌+◌, ◌-◌, ◌%◌, ◌≤◌, ◌<◌, ◌≡◌, ◌≢◌, refl, ap, ap₂, ◌∙◌, List, [], ◌∷◌, ◌++◌, arith,
  get_or, set, length, dec_lt, get_or-set_self, get_or-set_ne,
}
use native.Mathlib.Nat.{mod-eq_of_lt, mod-eq-sub-mod, mod-add-mod, mod-lt}

module _ {ℓ} {A : Type ℓ} (blank : A) (cap : ℕ) where
  -- The `n` elements that follow one another from index `from` on.
  pub window : List A → ℕ → ℕ → List A
  window rq from zero = []
  window rq from (suc n) = get_or rq from blank ∷ window rq ((from + 1) % cap) n

  pub length-window : (rq : List A) (from n : ℕ) → length (window rq from n) ≡ n
  unfolding window
  length-window rq from zero = refl
  length-window rq from (suc n) = ap suc (length-window rq ((from + 1) % cap) n)

  -- Fewer than `cap` places further round is another place.
  further-ne : (from n : ℕ) → from < cap → suc n < cap → (from + suc n) % cap ≢ from
  further-ne from n in_range short = elim (dec_lt (from + suc n) cap) [
    | yes below ↦ omega (arith, mod-eq_of_lt below)
    | no over ↦ omega (
      arith,
      mod-eq-sub-mod {n = from + suc n} {m = cap} (omega arith),
      mod-eq_of_lt {n = from + suc n - cap} {m = cap} (omega arith),
    )
  ]

  pub shift-mod : (from n : ℕ) → (from + suc n) % cap ≡ ((from + 1) % cap + n) % cap
  shift-mod from n = rw mod-add-mod (ap (λ k. k % cap) (omega arith))

  set_at :
      (rq : List A) (x : A) (from n place : ℕ)
      → cap ≤ length rq
      → from < cap
      → n < cap
      → place ≡ (from + n) % cap
      → window (set rq place x) from (suc n) ≡ window rq from n ++ x ∷ []
  unfolding window
  set_at rq x from zero place room in_range short e =
      let here : place ≡ from = e ∙ ap (λ k. k % cap) (omega arith) ∙ mod-eq_of_lt in_range in
      rw here (ap (λ y. y ∷ []) (get_or-set_self rq from x blank (omega arith)))
  set_at rq x from (suc n) place room in_range short e =
      ap₂ ◌∷◌ (get_or-set_ne rq place from x blank (rw e (further-ne from n in_range short))) (
        set_at rq x ((from + 1) % cap) n place room (mod-lt _ (omega arith)) (omega arith)
          (e ∙ shift-mod from n))

  -- Storing in the place behind a window that is not all of the array makes it one longer.
  pub window-set :
      (rq : List A) (x : A) (from n : ℕ)
      → cap ≤ length rq
      → from < cap
      → n < cap
      → window (set rq ((from + n) % cap) x) from (suc n) ≡ window rq from n ++ x ∷ []
  window-set rq x from n room in_range short =
      set_at rq x from n ((from + n) % cap) room in_range short refl

  pub window-zero : (rq : List A) (from : ℕ) → window rq from 0 ≡ []
  unfolding window
  window-zero rq from = refl

  pub window-suc :
      (rq : List A) (from n : ℕ)
      → window rq from (suc n) ≡ get_or rq from blank ∷ window rq ((from + 1) % cap) n
  unfolding window
  window-suc rq from n = refl
