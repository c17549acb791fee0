-- ===== src/Spectrometer/Complex/Elements.antt =====
-- Lists of elements and of listeners, as append, remove and unhook change them.
use gyoto.Prelude.{
  ℕ, zero, suc, ◌≡◌, ◌≢◌, refl, ap, ◌⊎◌, inl, inr, ℕ_discrete, some, List, [], ◌∷◌, ◌++◌, length,
  get_elem?, arith,
}
use gyoto.Hooks.{hook, unhook}
use gyoto.Spectrometer.Complex.{Listener, complex, other, same, at, all_but}

module _ {ℓ} {A : Type ℓ} where
  abbrev pub Occurs : A → List A → Type ℓ
  Occurs a xs = (i : ℕ) × (get_elem? xs i ≡ some a)

pub append-occurs :
    (xs : List ℕ) (e x i : ℕ)
    → get_elem? (xs ++ (e ∷ [])) i ≡ some x
    → (get_elem? xs i ≡ some x) ⊎ ((i ≡ length xs) × (x ≡ e))
append-occurs [] e x zero q = inr (refl, cc)
append-occurs [] e x (suc i) q = cc
append-occurs (y ∷ xs) e x zero q = inl q
append-occurs (y ∷ xs) e x (suc i) q = elim (append-occurs xs e x i q) [
  | inl old ↦ inl old
  | inr (p, r) ↦ inr (ap suc p, r)
]

-- Where an element of what remains stood.
abbrev pub old_index : ℕ → ℕ → ℕ
old_index zero j = suc j
old_index (suc i) zero = zero
old_index (suc i) (suc j) = suc (old_index i j)

pub old_index-ne : (i j : ℕ) → old_index i j ≢ i
old_index-ne zero j = λ e. omega (arith, e)
old_index-ne (suc i) zero = λ e. omega (arith, e)
old_index-ne (suc i) (suc j) = λ e. old_index-ne i j (omega (arith, e))

pub old_index-injective : (i j k : ℕ) → old_index i j ≡ old_index i k → j ≡ k
old_index-injective zero j k e = omega (arith, e)
old_index-injective (suc i) zero zero e = refl
old_index-injective (suc i) zero (suc k) e = absurd (omega (arith, e))
old_index-injective (suc i) (suc j) zero e = absurd (omega (arith, e))
old_index-injective (suc i) (suc j) (suc k) e =
    ap suc (old_index-injective i j k (omega (arith, e)))

pub all_but_lem :
    (i j : ℕ) (xs : List ℕ) → get_elem? (all_but i xs) j ≡ get_elem? xs (old_index i j)
all_but_lem zero j [] = refl
all_but_lem zero j (x ∷ xs) = refl
all_but_lem (suc i) zero [] = refl
all_but_lem (suc i) (suc j) [] = refl
all_but_lem (suc i) zero (x ∷ xs) = refl
all_but_lem (suc i) (suc j) (x ∷ xs) = all_but_lem i j xs

pub unhook-complex :
    (ls : List Listener) (k : ℕ) → get_elem? (unhook same complex ls) k ≢ some complex
unhook-complex [] k = λ e. cc
unhook-complex (complex ∷ ls) k = unhook-complex ls k
unhook-complex (other n ∷ ls) zero = λ e. cc
unhook-complex (other n ∷ ls) (suc k) = unhook-complex ls k

pub hook-Occurs :
    (e x : ℕ) (f : ℕ → List Listener)
    → Occurs complex (f x)
    → Occurs complex (at e (hook complex (f e)) f x)
hook-Occurs e x f (k, q) = elim (ℕ_discrete x e) [
  | yes same_one ↦ (0, ground arith)
  | no ne ↦ (k, ground arith)
]
