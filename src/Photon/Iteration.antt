-- ===== src/Photon/Iteration.antt =====
-- The integration loop of Photon::hit, in lib/Photon.C. `A` is what else the call changes: the
-- transmissions of the photon, its crossings of the equatorial plane, and the data that the object
-- fills. The object, the metric, the integrator and the arithmetic on double are parameters, which are
-- taken to return.
pub mod Backward
use gyoto.Prelude.{
  ℕ, zero, suc, ◌+◌, ◌-◌, ◌^◌, Bool, true, false, ◌&&◌, ◌||◌, not, leb, ◌==◌, if◌then◌else◌, Option,
  none, some, Outcome, ok, throws, Error, or_undefined, require, undefined, ◌>>=◌, ◌>>◌,
}
use gyoto.Worldline.{
  Worldline, Sample, Direction, forward, backward, tau, x0, x1, x2, x3, expand, store,
}
use gyoto.Worldline.Fill.{Integrator, read_sample}
use gyoto.Photon.Crossings.{Equator, given_up}

pub record Tracing (F I A : Type 0) : Type 0 where
  -- nextStep with the step that object_->deltaMax allows at the sample
  pub integrator : Integrator F I
  pub tmin : F
  -- rr as a function of x1, x2 and x3, where the kind of coordinates is one of the two known
  pub radius : Option (F → F → F → F)
  -- object_->rMax() and DBL_MAX
  pub r_max : F
  pub infinite : F
  -- object_->Impact(this, ind, data)
  pub impact : Worldline F → ℕ → A → Bool × A
  -- getTransmissionMax() < GYOTO_LIMIT_TRANSMISSION
  pub opaque : A → Bool
  -- the crossings of the equatorial plane
  pub equator : Equator F A
  -- transmission_freqobs_ and all of transmission_ are set to 1
  pub clear : A → A
  -- the shadow that is drawn where the integrator stops, and the coordinates of an outgoing photon
  pub darken : A → A
  pub record_outgoing : Sample F → A → A
  -- whether `data` is not null
  pub has_data : Bool

-- ind += dir and ind -= dir on size_t; no index that is raised is 2^64 - 1.
abbrev pub next : Direction → ℕ → ℕ
next forward ind = ind + 1
next backward zero = 2 ^ 64 - 1
next backward (suc ind) = ind

-- if (dir==1) ++imax_; else --imin_;
abbrev pub extend : {F : Type 0} → Direction → Worldline F → Worldline F
extend forward w = record w { imax = w.imax + 1 }
extend backward w = record w { imin = next backward w.imin }

-- The arrays are expanded for the next iteration.
pub make_room : {F : Type 0} → Direction → Worldline F → ℕ → Worldline F × ℕ
make_room forward w ind =
    if ind == w.x_size then expand (record w { imax = w.x_size - 1 }) forward else (w, ind)
make_room backward w ind = if w.imin == 0 then expand w backward else (w, ind)

module _ {F I A : Type 0} (tracing : Tracing F I A) where
  open tracing use {
    integrator, tmin, radius, r_max, impact, opaque, equator, darken, record_outgoing, has_data,
  }

  -- a <= b
  abbrev pub le : F → F → Bool
  le a b = integrator.lt a b || integrator.eq a b

  -- The switch on the kind of coordinates.
  abbrev pub radius_of : F → F → F → Outcome F
  radius_of a b c = elim radius [ none ↦ throws Error.incompatible_kind | some r ↦ ok (r a b c) ]

  pub radius_at : Worldline F → ℕ → Outcome F
  radius_at w ind = do
    a ← or_undefined (w.cells x1 ind)
    b ← or_undefined (w.cells x2 ind)
    c ← or_undefined (w.cells x3 ind)
    radius_of a b c

  -- x0_[ind] is past tmin_, after an iteration
  abbrev pub beyond : Direction → F → Bool
  beyond forward t = integrator.lt tmin t
  beyond backward t = integrator.lt t tmin

  abbrev pub Rest : Type 0
  Rest = Worldline F → ℕ → Sample F → I → Bool → F → A → Outcome (Bool × Worldline F × A)

  -- The end of an iteration: go on unless this was the last one.
  pub finish :
      Bool
      → Direction
      → Rest
      → Worldline F
      → ℕ
      → Sample F
      → I
      → Bool
      → F
      → A
      → Outcome (Bool × Worldline F × A)
  unfolding make_room
  finish stop dir go_on w ind coord state hitt rr a = elim (stop || beyond dir (coord x0)) [
    | true ↦ ok (hitt, w, a)
    | false ↦ go_on (make_room dir w ind).0 (make_room dir w ind).1 coord state hitt rr a
  ]

  -- An iteration once its sample is stored at `ind`.
  pub approach :
      Direction
      → Rest
      → Worldline F
      → ℕ
      → Sample F
      → I
      → Bool
      → F
      → A
      → Outcome (Bool × Worldline F × A)
  unfolding radius_at finish
  approach dir go_on w ind coord state hitt rr_prev a = do
    require ((w.imin == ind) || (w.imax == ind)) Error.bad_index
    rr ← radius_at w ind
    elim (integrator.lt rr r_max) [
      | true ↦
          let (h, a') = impact w ind a in
          finish (((hitt || h) && not has_data) || opaque a') dir go_on w ind coord state
            (hitt || h) rr a'
      | false ↦ elim (integrator.lt rr_prev rr) [
        | true ↦ ok (hitt, w, record_outgoing coord a)
        | false ↦ finish false dir go_on w ind coord state hitt rr a
      ]
    ]

  -- The sample of an iteration is stored, unless the iterations are used up.
  pub advance :
      Option Rest
      → Direction
      → Worldline F
      → ℕ
      → Sample F
      → I
      → Bool
      → F
      → A
      → Outcome (Bool × Worldline F × A)
  unfolding approach
  advance none dir w ind coord state hitt rr_prev a = ok (hitt, w, a)
  advance (some go_on) dir w ind coord state hitt rr_prev a = do
    w' ← store w (next dir ind) coord
    approach dir go_on (extend dir w') (next dir ind) coord state hitt rr_prev a

  -- The same unless the date is still `previous` or the metric stops the integration.
  pub advance_from :
      Option Rest
      → Direction
      → Worldline F
      → ℕ
      → Sample F
      → I
      → Bool
      → F
      → A
      → F
      → Outcome (Bool × Worldline F × A)
  unfolding advance
  advance_from go_on dir w ind coord state hitt rr_prev a previous =
      elim (integrator.eq (coord x0) previous || integrator.is_stop_condition coord) [
        | true ↦ ok (hitt, w, a)
        | false ↦ advance go_on dir w ind coord state hitt rr_prev a
      ]

  -- An iteration once the crossings are counted.
  pub after_crossings :
      Option Rest
      → Direction
      → Worldline F
      → ℕ
      → Bool × Sample F × I
      → Bool
      → F
      → Bool × A
      → Outcome (Bool × Worldline F × A)
  unfolding advance_from
  after_crossings go_on dir w ind (stop, coord, state) hitt rr_prev (dropped, a) =
      if dropped
      then ok (false, w, a)
      else (if stop
          then ok (hitt, w, darken a)
          else (or_undefined (w.cells x0 ind)
              >>= advance_from go_on dir w ind coord state hitt rr_prev a))

  -- An iteration, with what nextStep gives. Null `data` is dereferenced.
  pub iteration :
      Option Rest
      → Direction
      → Worldline F
      → ℕ
      → Bool × Sample F × I
      → Bool
      → F
      → A
      → Outcome (Bool × Worldline F × A)
  unfolding after_crossings
  iteration go_on dir w ind (stop, coord, state) hitt rr_prev a =
      if not has_data
      then undefined
      else (given_up equator w ind coord a
          >>= after_crossings go_on dir w ind (stop, coord, state) hitt rr_prev)

  -- The integration loop, with the samples that maxiter_ still allows.
  pub loop : ℕ → Direction → Rest
  unfolding iteration
  loop zero dir w ind coord state hitt rr_prev a =
      iteration none dir w ind (integrator.next_step state coord) hitt rr_prev a
  loop (suc left) dir w ind coord state hitt rr_prev a =
      let rest = loop left dir in
      iteration (some rest) dir w ind (integrator.next_step state coord) hitt rr_prev a
