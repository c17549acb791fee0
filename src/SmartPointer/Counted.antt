-- ===== src/SmartPointer/Counted.antt =====
-- Reference counts are right, and no object is deleted while a pointer holds it.
mod Tests
use gyoto.Prelude.{
  ℕ, zero, suc, ◌+◌, ◌-◌, ◌^◌, ◌%◌, ◌≡◌, ◌≢◌, ◌<◌, ◌≤◌, refl, ap, sym, ◌∙◌, ◌⊎◌, inl, inr,
  ℕ_discrete, Bool, true, false, Bool-cases, ==_iff, ◌==◌, if◌then◌else◌, Option, none, some, List,
  [], ◌∷◌, ◌++◌, length, get_elem?, get_elem?-set_ne, set, Outcome, ok, throws, undefined, Error,
  ◌>>=◌, arith,
}
use gyoto.SmartPointer.{
  Store, at, inc_ref, dec_ref, hold, make, duplicate, assign, same_object, assign_object, destroy,
  deref,
}
use gyoto.SmartPointer.Holders.{
  hits, holders, hits-le, holders-le, holders-set, holders-append, holders-hit, get_elem?-set-some,
  Owes, inc_ref-Owes, release-Owes,
}

-- The count of each object that is there is the number of the pointers that hold it, and no pointer
-- holds an object that was deleted.
pub IsCounted : Store → Type 0
IsCounted s = Owes (λ o. 0) s

-- A pointer that was null takes an object whose count has been raised for it.
rehold-Owes :
    (p : ℕ) (right : Option ℕ) (s : Store) {x : Option ℕ}
    → get_elem? s.pointers p ≡ some x
    → Owes (λ o. hits o right) (hold p none s)
    → IsCounted (hold p right s)
unfolding IsCounted
rehold-Owes p right s g h o =
    let empty = holders-set o s.pointers p none g in
    let full = holders-set o s.pointers p right g in
    elim (h o) [
      | inl (a, b) ↦ inl (a, omega (arith, b, empty, full))
      | inr (a, b) ↦ inr (a, omega (arith, b, empty, full))
    ]

-- An object that a pointer holds is there, and its count is small.
held_lem :
    (p o : ℕ) (s : Store)
    → get_elem? s.pointers p ≡ some (some o)
    → length s.pointers < 2 ^ 31 - 1
    → IsCounted s
    → (s.deleted o ≡ false) × (s.counts o ≡ holders o s.pointers) × (s.counts o < 2 ^ 31 - 1)
unfolding IsCounted
held_lem p o s g room h = elim (h o) [
  | inl (a, b) ↦ (a, omega (arith, b), omega (arith, b, holders-le o s.pointers))
  | inr (a, b) ↦ absurd (omega (arith, b, holders-hit o s.pointers p g))
]

assign_steps :
    (p q : ℕ) (s s₁ s₂ : Store) (left right : Option ℕ)
    → (p == q) ≡ false
    → get_elem? s.pointers q ≡ some right
    → inc_ref right s ≡ ok s₁
    → get_elem? s₁.pointers p ≡ some left
    → dec_ref p left s₁ ≡ ok s₂
    → assign p q s ≡ ok (hold p right s₂)
unfolding assign
assign_steps p q s s₁ s₂ left right apart gq r₁ gp r₂ = rw (apart, gq, r₁, gp, r₂) refl

-- Where the counts are right, operator= of one smart pointer to another returns: it touches no object that was deleted. The
-- pointer then holds what the other one does, each object that is there is counted by its holders, and
-- no pointer holds a deleted object. There are fewer than 2 ^ 31 - 1 pointers.
pub assign-IsCounted :
    (p q : ℕ) (s : Store) (left right : Option ℕ)
    → get_elem? s.pointers p ≡ some left
    → get_elem? s.pointers q ≡ some right
    → length s.pointers < 2 ^ 31 - 1
    → IsCounted s
    → (s' : Store) × (assign p q s ≡ ok s') × (get_elem? s'.pointers p ≡ some right) × IsCounted s'
unfolding assign IsCounted
assign-IsCounted p q s left right gp gq room h = elim (Bool-cases (p == q)) [
  | inl self ↦ let e = (==_iff p q).0 self in (s, rw self refl, rw e gq, h)
  | inr apart ↦
      let (s₁, r₁, kept, h₁) = raise_right in
      let gp₁ : get_elem? s₁.pointers p ≡ some left = rw kept gp in
      let (s₂, r₂, h₂, (x, g₂)) =
        release-Owes p left s₁ (λ o. hits o right) gp₁ h₁ (low s₁ kept gp₁ h₁) in
      (
        hold p right s₂,
        assign_steps p q s s₁ s₂ left right apart gq r₁ gp₁ r₂,
        get_elem?-set-some s₂.pointers p right g₂,
        rehold-Owes p right s₂ g₂ h₂,
      )
]
  where
    raise_right :
        (s₁ : Store) × (inc_ref right s ≡ ok s₁)
        × (s₁.pointers ≡ s.pointers)
        × Owes (λ o. hits o right) s₁
    raise_right = inc_ref-Owes right s h (λ o e.
        let gq' = rw e at gq in let (alive, same, few) = held_lem q o s gq' room h in (alive, few))

    low :
        (s₁ : Store)
        → s₁.pointers ≡ s.pointers
        → get_elem? s₁.pointers p ≡ some left
        → Owes (λ o. hits o right) s₁
        → (o : ℕ) → left ≡ some o
        → s₁.counts o < 2 ^ 32
    low s₁ kept gp₁ h₁ o e = elim (h₁ o) [
      | inl (a, b) ↦ omega (arith, b, holders-le o s₁.pointers, hits-le o right, ap length kept)
      | inr (a, b) ↦
          let gp₂ = rw e at gp₁ in absurd (omega (arith, b, holders-hit o s₁.pointers p gp₂))
    ]

-- Where the counts are right, and there are fewer than 2 ^ 31 - 1 pointers, the end of a smart
-- pointer's lifetime deletes no object that another pointer holds, touches none
-- that was deleted, and leaves each object that is there counted by its holders.
pub destroy-IsCounted :
    (p : ℕ) (s : Store) (obj : Option ℕ)
    → get_elem? s.pointers p ≡ some obj
    → length s.pointers < 2 ^ 31 - 1
    → IsCounted s
    → (s' : Store) × (destroy p s ≡ ok s') × (get_elem? s'.pointers p ≡ some none) × IsCounted s'
unfolding destroy IsCounted
destroy-IsCounted p s obj g room h =
    let (s', r, h', (x, g')) =
      release-Owes p obj s (λ o. 0) g h
        (λ o e.
          let g₁ = rw e at g in
          let (alive, same, few) = held_lem p o s g₁ room h in omega (arith, few)) in
    (hold p none s', rw (g, r) refl, get_elem?-set-some s'.pointers p none g', h')

-- Where the counts are right, and there are fewer than 2 ^ 31 - 1 pointers, a copy of a smart pointer
-- can be made and holds the same object, which is counted once more.
pub duplicate-IsCounted :
    (q : ℕ) (s : Store) (obj : Option ℕ)
    → get_elem? s.pointers q ≡ some obj
    → length s.pointers < 2 ^ 31 - 1
    → IsCounted s
    → (s' : Store) × (duplicate q s ≡ ok s')
      × (s'.pointers ≡ s.pointers ++ (obj ∷ []))
      × IsCounted s'
unfolding duplicate make IsCounted
duplicate-IsCounted q s obj g room h =
    let (s₁, r, kept, h₁) = inc_ref-Owes obj s h (λ o e.
      let g₁ = rw e at g in let (alive, same, few) = held_lem q o s g₁ room h in (alive, few)) in
    (
      record s₁ { pointers = s₁.pointers ++ (obj ∷ []) },
      rw (g, r) refl,
      rw kept refl,
      λ o. elim (h₁ o) [
        | inl (a, b) ↦ inl (a, omega (arith, b, holders-append o s₁.pointers obj))
        | inr (a, b) ↦ inr (a, omega (arith, b, holders-append o s₁.pointers obj))
      ],
    )

-- Where the counts are right, an object that a smart pointer holds has not been deleted, and operator-> gives it; through a null
-- pointer operator-> throws.
pub deref_lem :
    (p : ℕ) (s : Store)
    → IsCounted s
    → ((o : ℕ)
        → get_elem? s.pointers p ≡ some (some o)
        → (deref p s ≡ ok o) × (s.deleted o ≡ false))
      × (get_elem? s.pointers p ≡ some none → deref p s ≡ throws Error.null_dereference)
unfolding deref IsCounted
deref_lem p s h = (
  λ o g. (
    rw g refl,
    elim (h o) [
      | inl (a, b) ↦ a
      | inr (a, b) ↦ absurd (omega (arith, b, holders-hit o s.pointers p g))
    ],
  ),
  λ g. rw g refl,
)
