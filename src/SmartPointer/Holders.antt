-- ===== src/SmartPointer/Holders.antt =====
-- Counters and the pointers that hold an object, through one change of a counter.
use gyoto.Prelude.{
  ℕ, zero, suc, ◌+◌, ◌-◌, ◌^◌, ◌%◌, ◌≡◌, ◌≢◌, ◌<◌, ◌≤◌, refl, ◌∙◌, ◌⊎◌, inl, inr, ℕ_discrete, true,
  false, Bool-cases, ==_iff, ◌==◌, if◌then◌else◌, Option, none, some, List, [], ◌∷◌, ◌++◌, length,
  get_elem?, set, ok, arith,
}
use gyoto.SmartPointer.{Store, at, inc_ref, dec_ref, hold}

abbrev pub hits : ℕ → Option ℕ → ℕ
hits o none = 0
hits o (some o') = if o' == o then 1 else 0

-- How many pointers of the list hold the object.
abbrev pub holders : ℕ → List (Option ℕ) → ℕ
holders o [] = 0
holders o (x ∷ xs) = hits o x + holders o xs

pub hits-le : (o : ℕ) (x : Option ℕ) → hits o x ≤ 1
hits-le o none = omega arith
hits-le o (some o') = ground arith

pub holders-le : (o : ℕ) (xs : List (Option ℕ)) → holders o xs ≤ length xs
holders-le o [] = omega arith
holders-le o (x ∷ xs) = omega (arith, hits-le o x, holders-le o xs)

pub holders-set :
    (o : ℕ) (xs : List (Option ℕ)) (p : ℕ) {old : Option ℕ} (new : Option ℕ)
    → get_elem? xs p ≡ some old
    → holders o (set xs p new) + hits o old ≡ holders o xs + hits o new
holders-set o [] p new e = cc
holders-set o (x ∷ xs) zero {old} new e = let same : x ≡ old = cc in rw same (omega arith)
holders-set o (x ∷ xs) (suc p) new e = omega (arith, holders-set o xs p new e)

pub holders-append :
    (o : ℕ) (xs : List (Option ℕ)) (x : Option ℕ)
    → holders o (xs ++ (x ∷ [])) ≡ holders o xs + hits o x
holders-append o [] x = omega arith
holders-append o (y ∷ xs) x = omega (arith, holders-append o xs x)

pub holders-hit :
    (o : ℕ) (xs : List (Option ℕ)) (p : ℕ) → get_elem? xs p ≡ some (some o) → 0 < holders o xs
holders-hit o [] p e = cc
holders-hit o (x ∷ xs) zero e = let same : x ≡ some o = cc in rw same (ground arith)
holders-hit o (x ∷ xs) (suc p) e = omega (arith, holders-hit o xs p e)

pub get_elem?-set-some :
    (xs : List (Option ℕ)) (p : ℕ) {old : Option ℕ} (v : Option ℕ)
    → get_elem? xs p ≡ some old
    → get_elem? (set xs p v) p ≡ some v
get_elem?-set-some [] p v e = cc
get_elem?-set-some (x ∷ xs) zero v e = refl
get_elem?-set-some (x ∷ xs) (suc p) v e = get_elem?-set-some xs p v e

-- While counts and pointers are changed one by one, the count of each object that is there is the
-- number of its holders and `extra` more.
abbrev pub Owes : (ℕ → ℕ) → Store → Type 0
Owes extra s =
    (o : ℕ)
    → ((s.deleted o ≡ false) × (s.counts o ≡ holders o s.pointers + extra o))
      ⊎ ((s.deleted o ≡ true) × (holders o s.pointers + extra o ≡ 0))

pub inc_ref-Owes :
    (obj : Option ℕ) (s : Store)
    → Owes (λ o. 0) s
    → ((o : ℕ) → obj ≡ some o → (s.deleted o ≡ false) × (s.counts o < 2 ^ 31 - 1))
    → (s' : Store) × (inc_ref obj s ≡ ok s')
      × (s'.pointers ≡ s.pointers)
      × Owes (λ o. hits o obj) s'
unfolding inc_ref
inc_ref-Owes none s h fit = (
  s,
  refl,
  refl,
  λ o. elim (h o) [ inl (a, b) ↦ inl (a, omega arith) | inr (a, b) ↦ inr (a, omega arith) ],
)
inc_ref-Owes (some o') s h fit =
    let (alive, low) = fit o' refl in
    let below : (s.counts o' == 2 ^ 31 - 1) ≡ false = ground arith in
    (
      record s { counts = at o' (s.counts o' + 1) s.counts },
      rw (alive, below) refl,
      refl,
      λ o. elim (ℕ_discrete o o') [
        | yes e ↦ elim (h o) [
          | inl (a, b) ↦ inl (a, ground arith)
          | inr (a, b) ↦ absurd (let a' = rw e at a in cc)
        ]
        | no ne ↦ elim (h o) [
          | inl (a, b) ↦ inl (a, ground arith)
          | inr (a, b) ↦ inr (a, ground arith)
        ]
      ],
    )

hits_self : (o : ℕ) → hits o (some o) ≡ 1
hits_self o = ground arith

hits-other : (o o' : ℕ) → o ≢ o' → hits o (some o') ≡ 0
hits-other o o' ne = ground arith

-- What pointer `p` held is given back; the pointer itself is then null.
pub release-Owes :
    (p : ℕ) (obj : Option ℕ) (s : Store) (extra : ℕ → ℕ)
    → get_elem? s.pointers p ≡ some obj
    → Owes extra s
    → ((o : ℕ) → obj ≡ some o → s.counts o < 2 ^ 32)
    → (s' : Store) × (dec_ref p obj s ≡ ok s')
      × Owes extra (hold p none s')
      × ((x : Option ℕ) × (get_elem? s'.pointers p ≡ some x))
unfolding dec_ref
release-Owes p none s extra g h low = (
  s,
  refl,
  (λ o. elim (h o) [
    | inl (a, b) ↦ inl (a, omega (arith, b, holders-set o s.pointers p none g))
    | inr (a, b) ↦ inr (a, omega (arith, b, holders-set o s.pointers p none g))
  ]),
  (none, g),
)
release-Owes p (some o') s extra g h low =
    let held = holders-hit o' s.pointers p g in
    let fits = low o' refl in
    let c = s.counts o' in
    let (alive, count) = still_there (extra o') held (h o') in
    let less : (c + (2 ^ 32 - 1)) % 2 ^ 32 ≡ c - 1 = omega arith in
    let cleared = set s.pointers p none in
    let one_less : holders o' cleared + 1 ≡ holders o' s.pointers =
      omega (arith, holders-set o' s.pointers p none g, hits_self o') in
    let same_others : (o : ℕ) → o ≢ o' → holders o cleared ≡ holders o s.pointers =
      λ o ne. omega (arith, holders-set o s.pointers p none g, hits-other o o' ne) in
    elim (Bool-cases (c - 1 == 0)) [
      | inl last ↦
          let s' = record s {
            counts = at o' (c - 1) s.counts;
            deleted = at o' true s.deleted;
            pointers = cleared;
          } in
          let there = get_elem?-set-some s.pointers p none g in
          let twice : (o : ℕ) → holders o (set cleared p none) ≡ holders o cleared =
            λ o. omega (arith, holders-set o cleared p none there) in
          (
            s',
            rw (alive, less, last) refl,
            (λ o. elim (ℕ_discrete o o') [
              | yes e ↦ rw e (
                  inr (ground arith, omega (arith, twice o', one_less, count, (==_iff _ _).0 last)))
              | no ne ↦ elim (h o) [
                | inl (a, b) ↦ inl (
                  ground (arith, a),
                  at_other o (c - 1) s.counts ne ∙ omega (arith, b, twice o, same_others o ne),
                )
                | inr (a, b) ↦ inr (ground (arith, a), omega (arith, b, twice o, same_others o ne))
              ]
            ]),
            (none, there),
          )
      | inr more ↦ (
        record s { counts = at o' (c - 1) s.counts },
        rw (alive, less, more) refl,
        (λ o. elim (ℕ_discrete o o') [
          | yes e ↦ rw e (inl (alive, at_self (c - 1) s.counts ∙ omega (arith, one_less, count)))
          | no ne ↦ elim (h o) [
            | inl (a, b) ↦
                inl (a, at_other o (c - 1) s.counts ne ∙ omega (arith, b, same_others o ne))
            | inr (a, b) ↦ inr (a, omega (arith, b, same_others o ne))
          ]
        ]),
        (some o', g),
      )
    ]
  where
    at_self : (n : ℕ) (f : ℕ → ℕ) → at o' n f o' ≡ n
    at_self n f = ground arith

    at_other : (o n : ℕ) (f : ℕ → ℕ) → o ≢ o' → at o' n f o ≡ f o
    at_other o n f ne = ground arith

    still_there :
        (e : ℕ)
        → 0 < holders o' s.pointers
        → ((s.deleted o' ≡ false) × (s.counts o' ≡ holders o' s.pointers + e))
          ⊎ ((s.deleted o' ≡ true) × (holders o' s.pointers + e ≡ 0))
        → (s.deleted o' ≡ false) × (s.counts o' ≡ holders o' s.pointers + e)
    still_there e held (inl x) = x
    still_there e held (inr (a, b)) = absurd (omega arith)
