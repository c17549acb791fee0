-- ===== src/Scenery/Mpi/Manager/Busy.antt =====
-- The workers that have not been told that all is done.
use gyoto.Prelude.{
  ℕ, zero, suc, ◌+◌, ◌≡◌, refl, sym, ap, some, List, [], ◌∷◌, get_elem?, set, replicate, arith,
}
use gyoto.Scenery.Worker.{Pc, ready, working, stopped}

abbrev pub is_busy : {F : Type 0} → Pc F → ℕ
is_busy stopped = 0
is_busy p = 1

abbrev pub busy : {F : Type 0} → List (Pc F) → ℕ
busy [] = 0
busy (p ∷ ps) = is_busy p + busy ps

pub busy-replicate : (F : Type 0) (n : ℕ) → busy {F = F} (replicate n ready) ≡ n
busy-replicate F zero = refl
busy-replicate F (suc n) = omega (arith, busy-replicate F n)

module _ {F : Type 0} where
  pub set-get_elem? :
      (ws : List (Pc F)) (w : ℕ) {p : Pc F} → get_elem? ws w ≡ some p → set ws w p ≡ ws
  set-get_elem? [] w e = refl
  set-get_elem? (q ∷ ws) zero e = let same : q ≡ _ = cc in ap (λ t. t ∷ ws) (sym same)
  set-get_elem? (q ∷ ws) (suc w) e = ap (λ (ts : List (Pc F)). q ∷ ts) (set-get_elem? ws w e)

  pub set-set : (ws : List (Pc F)) (w : ℕ) (p q : Pc F) → set (set ws w p) w q ≡ set ws w q
  set-set [] w p q = refl
  set-set (r ∷ ws) zero p q = refl
  set-set (r ∷ ws) (suc w) p q = ap (λ (ts : List (Pc F)). r ∷ ts) (set-set ws w p q)

  pub busy-set :
      (ws : List (Pc F)) (w : ℕ) {p : Pc F} (q : Pc F)
      → get_elem? ws w ≡ some p
      → busy (set ws w q) + is_busy p ≡ busy ws + is_busy q
  busy-set [] w q e = cc
  busy-set (r ∷ ws) zero {p = p} q e = let same : is_busy r ≡ is_busy p = cc in omega arith
  busy-set (r ∷ ws) (suc w) q e = omega (arith, busy-set ws w q e)

  pub idle_stopped :
      (ws : List (Pc F)) (w : ℕ) {p : Pc F} → busy ws ≡ 0 → get_elem? ws w ≡ some p → p ≡ stopped
  idle_stopped [] w h e = cc
  idle_stopped (stopped ∷ ws) zero h e = cc
  idle_stopped (ready ∷ ws) zero h e = absurd (omega arith)
  idle_stopped (working x c ∷ ws) zero h e = absurd (omega arith)
  idle_stopped (r ∷ ws) (suc w) h e = idle_stopped ws w (omega arith) e

  -- Some worker has not stopped.
  pub busy-suc :
      (ws : List (Pc F)) (k : ℕ)
      → busy ws ≡ suc k
      → (w : ℕ) × (p : Pc F) × (get_elem? ws w ≡ some p) × (is_busy p ≡ 1)
  busy-suc [] k h = absurd (omega arith)
  busy-suc (ready ∷ ws) k h = (0, ready, refl, refl)
  busy-suc (working x c ∷ ws) k h = (0, working x c, refl, refl)
  busy-suc (stopped ∷ ws) k h = let (w, p, e, b) = busy-suc ws k (omega arith) in (suc w, p, e, b)
