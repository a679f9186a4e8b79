-- ===== src/Planner/Ordering/Walks.antt =====
-- Chains of dependencies.
use hermes_kernel_v.Prelude.{
  String, ◌≡◌, ◌⊎◌, inl, inr, true, List, [], ◌∷◌, ◌++◌, Option, some, refl, ap, sym, subst,
}
use hermes_kernel_v.Prelude.Texts.{has}
use hermes_kernel_v.Planner.Domain.{PlanStep}

-- The first step depends on the second, directly or through steps that are there.
pub data Leads (known : String → Option PlanStep) (a : String) : String → Type 0 where
  one :
      (b : String) (s : PlanStep) → known a ≡ some s → has b s.dependencies ≡ true → Leads known a b
  next :
      (b c : String) (s : PlanStep)
      → Leads known a b
      → known b ≡ some s
      → has c s.dependencies ≡ true
      → Leads known a c

-- The first dependency of a chain.
pub record Starts (known : String → Option PlanStep) (a c : String) : Type 0 where
  pub step : PlanStep
  pub dep : String
  pub found : known a ≡ some step
  pub listed : has dep step.dependencies ≡ true
  pub onward : (dep ≡ c) ⊎ Leads known dep c

pub Leads-Starts :
    (known : String → Option PlanStep) (a c : String) → Leads known a c → Starts known a c
Leads-Starts known a _ (one c s e m) = record {
  step = s;
  dep = c;
  found = e;
  listed = m;
  onward = inl refl;
}
Leads-Starts known a _ (next b c s w e m) =
    let h = Leads-Starts known a b w in
    record {
      step = h.step;
      dep = h.dep;
      found = h.found;
      listed = h.listed;
      onward = inr (elim h.onward [
        | inl same ↦ subst (λ q. Leads known q c) (sym same) (one c s e m)
        | inr w' ↦ next b c s w' e m
      ]);
    }

-- A list that ends in one more element is split before that element or at it.
pub concat-split {ℓ} :
    {A : Type ℓ} (l xs ys : List A) (a s : A)
    → l ++ a ∷ [] ≡ xs ++ s ∷ ys
    → ((l ≡ xs) × (a ≡ s)) ⊎ ((zs : List A) × (l ≡ xs ++ s ∷ zs))
concat-split [] [] ys a s e = inl (refl, cc)
concat-split [] (x ∷ []) ys a s e = absurd (cc)
concat-split [] (x ∷ y ∷ xs) ys a s e = absurd (cc)
concat-split (b ∷ l) [] ys a s e = let same : b ≡ s = cc in inr (l, ap (λ q. q ∷ l) same)
concat-split (b ∷ l) (x ∷ xs) ys a s e =
    let same : b ≡ x = cc in
    let rest : l ++ a ∷ [] ≡ xs ++ s ∷ ys = cc in
    elim (concat-split l xs ys a s rest) [ inl (p, q) ↦ inl (cc, q) | inr (zs, p) ↦ inr (zs, cc) ]

pub nil-split {ℓ} : {A : Type ℓ} (xs ys : List A) (s : A) → [] ≡ xs ++ s ∷ ys → ⊥
nil-split [] ys s e = cc
nil-split (x ∷ xs) ys s e = cc
