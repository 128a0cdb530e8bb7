-- ===== src/Base/Pairs.antt =====
-- Lists whose entries are pairwise apart, as a loop finds them: each against those it has passed.
use mathlib.Core.Logic.{◌↔◌}
use mathlib.Core.List.{List, [], ◌∷◌, ◌++◌}
use rv1126_custom_part.Base.Lists.{All}

pub All-snoc {ℓ κ} :
    {A : Type ℓ} (P : A → Type κ) (xs : List A) (y : A) → All P (xs ++ y ∷ []) ↔ (All P xs × P y)
All-snoc P [] y = (λ h. (tt, h.0), λ h. (h.1, tt))
All-snoc P (x ∷ xs) y = (
  λ h. ((h.0, ((All-snoc P xs y).0 h.1).0), ((All-snoc P xs y).0 h.1).1),
  λ h. (h.0.0, (All-snoc P xs y).1 (h.0.1, h.1)),
)

module _ {ℓ κ} {A : Type ℓ} (R : A → A → Type κ) where
  -- Each entry is apart from every later one.
  abbrev pub Apart : List A → Type κ
  Apart [] = Unit
  Apart (x ∷ xs) = All (R x) xs × Apart xs

  -- Each entry is apart from all of `before`.
  abbrev pub Against : List A → List A → Type κ
  Against before [] = Unit
  Against before (x ∷ xs) = All (λ b. R b x) before × Against before xs

  pub Against-snoc :
      (before : List A) (y : A) (xs : List A)
      → Against (before ++ y ∷ []) xs ↔ (Against before xs × All (R y) xs)
  Against-snoc before y [] = (λ h. (tt, tt), λ h. tt)
  Against-snoc before y (x ∷ xs) =
      let here = All-snoc (λ b. R b x) before y in
      let rest = Against-snoc before y xs in
      (
        λ h. (((here.0 h.0).0, (rest.0 h.1).0), ((here.0 h.0).1, (rest.0 h.1).1)),
        λ h. (here.1 (h.0.0, h.1.0), rest.1 (h.0.1, h.1.1)),
      )

  pub Against-nil : (xs : List A) → Against [] xs
  Against-nil [] = tt
  Against-nil (x ∷ xs) = (tt, Against-nil xs)
