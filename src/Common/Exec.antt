-- ===== src/Common/Exec.antt =====
-- Programs that change a world and may raise.
use mathlib.Core.Path.{◌≡◌, refl}
use ai_agent_hub.Common.Result.{Result, ok, err}

abbrev pub Exec : Type 0 → Type 0 → Type 0 → Type 0
Exec W E A = W → Result E A × W

module _ {W E A : Type 0} where
  abbrev pub pure : A → Exec W E A
  pure a w = (ok a, w)

  abbrev pub raise : E → Exec W E A
  raise e w = (err e, w)

-- What comes after a step, by how the step ended.
abbrev pub continue_with : {W E A B : Type 0} → (A → Exec W E B) → Result E A × W → Result E B × W
continue_with f (ok a, w) = f a w
continue_with f (err e, w) = (err e, w)

infixl 5 ◌>>=◌ ◌>>◌
abbrev pub ◌>>=◌ : {W E A B : Type 0} → Exec W E A → (A → Exec W E B) → Exec W E B
◌>>=◌ m f w = continue_with f (m w)

abbrev pub ◌>>◌ : {W E B : Type 0} → Exec W E (Unit {0}) → Exec W E B → Exec W E B
m >> k = m >>= λ _. k

-- What holds after a chain: what holds after its second part, or after its first if that raises.
pub after-bind :
    {W E A B : Type 0} (f : A → Exec W E B) (P : Result E B × W → Type 0) (p : Result E A × W)
    → ((a : A) → p.0 ≡ ok a → P (f a p.1))
    → ((e : E) → p.0 ≡ err e → P (err e, p.1))
    → P (continue_with f p)
after-bind f P (ok a, w) goes fails = goes a refl
after-bind f P (err e, w) goes fails = fails e refl

module _ {W E A B : Type 0} where
  -- A sequence that returns has a first part that returned.
  pub bind-eq-ok :
      (m : Exec W E A) (f : A → Exec W E B) (w : W) {b : B}
      → ((m >>= f) w).0 ≡ ok b
      → (a : A) × (w' : W) × (m w ≡ (ok a, w')) × ((f a w').0 ≡ ok b)
  bind-eq-ok m f w {b = b} h = inverted (m w) refl h
    where
      inverted :
          (r : Result E A × W)
          → m w ≡ r
          → (continue_with f r).0 ≡ ok b
          → (a : A) × (w' : W) × (m w ≡ (ok a, w')) × ((f a w').0 ≡ ok b)
      inverted (ok a, w') e h = (a, w', e, h)
      inverted (err x, w') e h = cc
