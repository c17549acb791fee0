-- ===== src/Spectrometer/Complex.antt =====
-- Gyoto::Spectrometer::Complex, in lib/ComplexSpectrometer.C: several spectrometers as one, which is
-- told of each change of its elements.
mod Tests
pub mod Elements
pub mod Gather
pub mod Coherent
use gyoto.Prelude.{
  ℕ, zero, suc, ◌+◌, ◌-◌, ◌*◌, ◌^◌, Bool, true, false, ◌==◌, leb, ltb, if◌then◌else◌, Option, none,
  some, List, [], ◌∷◌, ◌++◌, map, length, take, get_elem?, Outcome, ok, undefined, or_undefined,
  require, Error, ◌>>=◌, ◌>>◌,
}
use gyoto.Hooks.{hook, unhook, tell_listeners}
use gyoto.Spectrometer.{Generic}

module _ {ℓ} {A : Type ℓ} where
  -- memcpy of the first `n` cells of an array, which reads past the end of one that is shorter: a null
  -- pointer has no cell.
  abbrev pub first_cells : ℕ → List A → Outcome (List A)
  first_cells n cells = if leb n (length cells) then ok (take n cells) else undefined

module _ {F : Type 0} where
  -- The two loops of tell: the counts, then the copies. Each array is copied by the count that its
  -- element announces. The elements' arrays stand one after the other in the new ones, and the channel
  -- indices are raised by `boffset`, the boundaries copied before.
  abbrev pub count : List (Generic F) → ℕ × ℕ
  count [] = (0, 0)
  count (e ∷ es) =
      let (nsamples, nboundaries) = count es in (e.nsamples + nsamples, e.nboundaries + nboundaries)

  abbrev pub copy : (Generic F → ℕ) → (Generic F → List F) → List (Generic F) → Outcome (List F)
  copy announced array [] = ok []
  copy announced array (e ∷ es) = do
    cells ← first_cells (announced e) (array e)
    later ← copy announced array es
    ok (cells ++ later)

  abbrev pub copy_chanind : ℕ → List (Generic F) → Outcome (List ℕ)
  copy_chanind boffset [] = ok []
  copy_chanind boffset (e ∷ es) = do
    cells ← first_cells (e.nsamples * 2) e.chanind
    later ← copy_chanind (boffset + e.nboundaries) es
    ok (map (λ c. c + boffset) cells ++ later)

  -- What tell makes of the elements.
  pub gather : List (Generic F) → Outcome (Generic F)
  gather es = do
    boundaries ← copy (λ e. e.nboundaries) (λ e. e.boundaries) es
    widths ← copy (λ e. e.nsamples) (λ e. e.widths) es
    midpoints ← copy (λ e. e.nsamples) (λ e. e.midpoints) es
    chanind ← copy_chanind 0 es
    ok (record {
      nsamples = (count es).0;
      nboundaries = (count es).1;
      boundaries = boundaries;
      chanind = chanind;
      midpoints = midpoints;
      widths = widths;
    })

-- Whoever may be told by a spectrometer: this complex spectrometer, or an object outside.
pub data Listener : Type 0 where
  complex : Listener
  other : ℕ → Listener

abbrev pub same : Listener → Listener → Bool
same complex complex = true
same complex (other n) = false
same (other m) complex = false
same (other m) (other n) = m == n

-- The heap that a complex spectrometer and its elements share. An element is the address of a
-- spectrometer, at which its data and its listeners stand; `told` counts the calls of tellListeners of
-- the complex spectrometer itself.
pub record Heap (F : Type 0) : Type 0 where
  pub spectrometers : ℕ → Generic F
  pub listeners : ℕ → List Listener
  pub elements : List ℕ
  pub generic : Generic F
  pub told : ℕ

abbrev pub at {ℓ} : {A : Type ℓ} → ℕ → A → (ℕ → A) → ℕ → A
at i a f k = if k == i then a else f k

-- The loop of remove: all elements but the one at `i`.
abbrev pub all_but : ℕ → List ℕ → List ℕ
all_but i [] = []
all_but zero (e ∷ es) = es
all_but (suc i) (e ∷ es) = e ∷ all_but i es

module _ {F : Type 0} where
  -- tell
  pub tell : Heap F → Outcome (Heap F)
  unfolding gather
  tell h = do
    generic ← gather (map h.spectrometers h.elements)
    ok (record h { generic = generic; told = h.told + 1 })

  pub notify : Listener → Outcome (Heap F) → Outcome (Heap F)
  unfolding tell
  notify complex h = h >>= tell
  notify (other n) h = h

  -- append, where `cardinal_+1` is a size_t
  pub append : ℕ → Heap F → Outcome (Heap F)
  unfolding tell
  append e h =
      require (ltb (length h.elements + 1) (2 ^ 64)) Error.overflow
      >> tell (record h {
        elements = h.elements ++ (e ∷ []);
        listeners = at e (hook complex (h.listeners e)) h.listeners;
      })

  pub remove : ℕ → Heap F → Outcome (Heap F)
  unfolding tell
  remove i h = require (ltb i (length h.elements)) Error.no_such_element >> (do
    e ← or_undefined (get_elem? h.elements i)
    tell (record h {
      elements = all_but i h.elements;
      listeners = at e (unhook same complex (h.listeners e)) h.listeners;
    }))

  -- operator[]
  pub element : ℕ → Heap F → Outcome ℕ
  element i h =
      require (leb i (length h.elements)) Error.no_such_element
      >> or_undefined (get_elem? h.elements i)

  -- A setter of the spectrometer at `e`: its data change, then it tells its listeners, unless the
  -- setter returns before it does, as reset_ of a uniform spectrometer does without samples or kind.
  -- `made` is what the setter makes: the data, and whether it comes to tellListeners.
  pub change : ℕ → Generic F × Bool → Heap F → Outcome (Heap F)
  unfolding notify
  change e made h =
      let changed = record h { spectrometers = at e made.0 h.spectrometers } in
      if made.1 then tell_listeners notify (h.listeners e) (ok changed) else ok changed
