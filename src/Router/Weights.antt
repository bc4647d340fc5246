-- ===== src/Router/Weights.antt =====
-- The weighted choice among the channels of a tier.
use deepseek_moderation_api.Prelude.{
  ℕ, ◌+◌, ◌-◌, ◌<◌, ◌≡◌, List, [], ◌∷◌, ◌++◌, arith, ltb, inl, inr, Bool-cases, All, false,
}
use deepseek_moderation_api.Router.Tier.{Entry}
use deepseek_moderation_api.Router.Acquire.{share, total_weight, choose}

-- Each channel of a tier is chosen for exactly as many of the drawn numbers as its share (weight
-- times remaining quota) counts: those from the sum of the shares before it, up to its own share.
pub choose-by_share :
    (first : Entry) (xs : List Entry) (e : Entry) (ys : List Entry) (k : ℕ)
    → k < share e
    → (choose first (xs ++ e ∷ ys) (total_weight xs + k) ≡ e)
      × (total_weight xs + k < total_weight (xs ++ e ∷ ys))
unfolding choose total_weight
choose-by_share first [] e ys k h = (ground arith, omega arith)
choose-by_share first (x ∷ xs) e ys k h =
    let (ih, below) = choose-by_share first xs e ys k h in
    let late : ltb (share x + total_weight xs + k) (share x) ≡ false = ground arith in
    let less : share x + total_weight xs + k - share x ≡ total_weight xs + k = omega arith in
    (rw (late, less) ih, omega (arith, below))

-- The chosen entry is one of the list, whatever number is drawn.
pub choose-All {ℓ} :
    (P : Entry → Type ℓ) (first : Entry) (es : List Entry) (pick : ℕ)
    → P first
    → All P es
    → P (choose first es pick)
unfolding choose
choose-All P first [] pick p a = p
choose-All P first (e ∷ es) pick p a = elim (Bool-cases (ltb pick (share e))) [
  | inl hit ↦ rw hit a.0
  | inr miss ↦ rw miss (choose-All P first es (pick - share e) p a.1)
]
