-- ===== src/SmartPointer.antt =====
-- Gyoto::SmartPointer and Gyoto::SmartPointee, in include/GyotoSmartPointer.h and lib/SmartPointer.C.
-- An object is its address; the smart pointers are the places of a list. What the destructor of an
-- object does besides is left out, and so is the mutex around each change of a counter.
pub mod Counted
pub mod Holders
use gyoto.Prelude.{
  ℕ, zero, suc, ◌+◌, ◌-◌, ◌^◌, ◌%◌, ◌≡◌, Bool, true, false, ◌==◌, if◌then◌else◌, Option, none, some,
  List, [], ◌∷◌, ◌++◌, length, get_elem?, set, Outcome, ok, throws, undefined, or_undefined, Error,
  ◌>>=◌,
}

-- `counts` are the values of refCount, an int of 32 bits, in two's complement. A pointer that is null,
-- or whose lifetime has ended, is none.
pub record Store : Type 0 where
  pub counts : ℕ → ℕ
  pub deleted : ℕ → Bool
  pub pointers : List (Option ℕ)

abbrev pub at {ℓ} : {A : Type ℓ} → ℕ → A → (ℕ → A) → ℕ → A
at o a f k = if k == o then a else f k

-- if (obj) obj->incRefCount(): undefined on an object that was deleted, and at the greatest int
pub inc_ref : Option ℕ → Store → Outcome Store
inc_ref none s = ok s
inc_ref (some o) s =
    if s.deleted o
    then undefined
    else (if s.counts o == 2 ^ 31 - 1
        then undefined
        else ok (record s { counts = at o (s.counts o + 1) s.counts }))

-- decRef of pointer `p`, which holds `obj`: the object goes, and the pointer is null, when the count
-- reaches 0.
pub dec_ref : ℕ → Option ℕ → Store → Outcome Store
dec_ref p none s = ok s
dec_ref p (some o) s =
    let n = (s.counts o + (2 ^ 32 - 1)) % 2 ^ 32 in
    if s.deleted o
    then undefined
    else (if n == 0
        then ok (record s {
          counts = at o n s.counts;
          deleted = at o true s.deleted;
          pointers = set s.pointers p none;
        })
        else ok (record s { counts = at o n s.counts }))

abbrev hold : ℕ → Option ℕ → Store → Store
hold p obj s = record s { pointers = set s.pointers p obj }

-- SmartPointer(T*): a new pointer, at the end of the list
pub make : Option ℕ → Store → Outcome Store
unfolding inc_ref
make orig s = do s' ← inc_ref orig s; ok (record s' { pointers = s'.pointers ++ (orig ∷ []) })

-- SmartPointer(SmartPointer const &)
pub duplicate : ℕ → Store → Outcome Store
unfolding make
duplicate q s = do obj ← or_undefined (get_elem? s.pointers q); make obj s

-- operator=(SmartPointer &)
pub assign : ℕ → ℕ → Store → Outcome Store
unfolding inc_ref dec_ref
assign p q s = if p == q then ok s else (do
  right ← or_undefined (get_elem? s.pointers q)
  s₁ ← inc_ref right s
  obj ← or_undefined (get_elem? s₁.pointers p)
  s₂ ← dec_ref p obj s₁
  ok (hold p right s₂))

abbrev same_object : Option ℕ → Option ℕ → Bool
same_object none none = true
same_object none (some o) = false
same_object (some o) none = false
same_object (some o) (some o') = o == o'

-- operator=(T*)
pub assign_object : ℕ → Option ℕ → Store → Outcome Store
unfolding inc_ref dec_ref
assign_object p right s = do
  obj ← or_undefined (get_elem? s.pointers p)
  if same_object obj right then ok s else (do s₁ ← dec_ref p obj s; inc_ref right (hold p right s₁))

-- ~SmartPointer
pub destroy : ℕ → Store → Outcome Store
unfolding dec_ref
destroy p s = do
  obj ← or_undefined (get_elem? s.pointers p)
  s' ← dec_ref p obj s
  ok (hold p none s')

-- operator-> and operator*
pub deref : ℕ → Store → Outcome ℕ
deref p s = do
  obj ← or_undefined (get_elem? s.pointers p)
  elim obj [ none ↦ throws Error.null_dereference | some o ↦ ok o ]
