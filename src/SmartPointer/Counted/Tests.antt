-- ===== src/SmartPointer/Counted/Tests.antt =====
-- Runs of three smart pointers over two objects.
use gyoto.Prelude.{
  ◌≡◌, refl, Bool, true, false, inl, ◌==◌, if◌then◌else◌, Option, none, some, [], ◌∷◌, get_elem?,
  ℕ_discrete, Outcome, ok, arith,
}
use gyoto.SmartPointer.{Store, assign, destroy}
use gyoto.SmartPointer.Counted.{IsCounted, assign-IsCounted, destroy-IsCounted}

-- Two pointers hold object 4, the third holds object 5.
abbrev three : Store
three = record {
  counts = λ o. if o == 4 then 2 else (if o == 5 then 1 else 0);
  deleted = λ o. false;
  pointers = some 4 ∷ some 4 ∷ some 5 ∷ [];
}

three-IsCounted : IsCounted three
unfolding IsCounted
three-IsCounted o = elim (ℕ_discrete o 4) [
  | yes e ↦ rw e (inl (refl, refl))
  | no ne ↦ elim (ℕ_discrete o 5) [
    | yes e ↦ rw e (inl (refl, refl))
    | no ne' ↦ inl (refl, ground arith)
  ]
]

abbrev deleted_five : Outcome Store → Option Bool
deleted_five (ok s) = some (s.deleted 5)
deleted_five r = none

-- The last pointer to object 5 takes object 4 instead.
last_holder : deleted_five (assign 2 0 three) ≡ some true
unfolding assign
last_holder = refl

still_held : deleted_five (assign 0 2 three) ≡ some false
unfolding assign
still_held = refl

assign-IsCounted_example :
    (s' : Store) × (assign 2 0 three ≡ ok s')
    × (get_elem? s'.pointers 2 ≡ some (some 4))
    × IsCounted s'
assign-IsCounted_example =
    assign-IsCounted 2 0 three (some 5) (some 4) refl refl (omega arith) three-IsCounted

destroy-IsCounted_example :
    (s' : Store) × (destroy 2 three ≡ ok s') × (get_elem? s'.pointers 2 ≡ some none) × IsCounted s'
destroy-IsCounted_example = destroy-IsCounted 2 three (some 5) refl (omega arith) three-IsCounted
