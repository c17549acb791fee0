-- ===== src/Disk3d/Cells.antt =====
-- Disk3D::getIndices and the reads of getVelocity, in lib/Disk3D.C.
pub mod Within
use gyoto.Prelude.{
  ℕ, zero, suc, ◌+◌, ◌-◌, ◌*◌, ◌%◌, ◌^◌, Bool, true, false, ◌&&◌, not, leb, ◌==◌, if◌then◌else◌,
  Option, none, some, List, get_elem?, Outcome, ok, throws, undefined, Error, or_undefined, ◌>>=◌,
}
use gyoto.PatternDisk.{Double}
use gyoto.PatternDisk.Cells.{below, le, unwind}
use gyoto.Disk3d.{Disk3d}

-- rr, zz and phi, cylindrical, and co[0]
pub record Cylindrical (F : Type 0) : Type 0 where
  pub rr : F
  pub zz : F
  pub phi : F
  pub t : F

-- k % n, which is undefined for n = 0
unfoldable pub remainder : ℕ → ℕ → Outcome ℕ
remainder zero k = undefined
remainder (suc n) k = ok (k % suc n)

-- An index that is at most n; n stands for n-1.
unfoldable pub checked_index : ℕ → ℕ → Outcome ℕ
checked_index n k =
    if k == n then ok (below n) else (if leb k n then ok k else throws Error.impossible_index)

module _ {F : Type 0} (double : Double F) where
  open double use {nought, one, one_half, two_pi, add, sub, mul, div, floor, lt, eq, to_size_t}

  -- size_t(floor((x-first)/step+0.5))
  abbrev pub nearest : F → F → F → Option ℕ
  nearest x first step = to_size_t (floor (add (div (sub x first) step) one_half))

  pub nu_index : Disk3d F → F → Outcome ℕ
  nu_index d nu =
      if le double nu d.nu0
      then ok 0
      else (or_undefined (nearest nu d.nu0 d.dnu) >>= λ k.
          ok (if leb d.nnu k then below d.nnu else k))

  -- while (phi>2.*M_PI) phi -= 2.*M_PI, with the number of rounds as fuel
  unfoldable pub unwind_down : ℕ → F → F
  unwind_down zero phi = phi
  unwind_down (suc rounds) phi =
      let rest = unwind_down rounds (sub phi two_pi) in if lt two_pi phi then rest else phi

  -- phi in the frame of the pattern
  abbrev pub pattern_phi : ℕ → Disk3d F → Cylindrical F → F
  pattern_phi rounds d co =
      unwind_down rounds
        (unwind double rounds (sub co.phi (mul d.omega_pattern (sub co.t d.t_pattern))))

  pub phi_index : Disk3d F → F → Outcome ℕ
  phi_index d phi =
      if lt phi d.phimin
      then ok 0
      else (if lt d.phimax phi
          then ok (below d.nphi)
          else (or_undefined (nearest phi d.phimin d.dphi) >>= remainder d.nphi))

  -- If zmin>=0, the disk is taken to be symmetric.
  abbrev pub above : Disk3d F → F → F
  above d zz = if lt zz nought && le double nought d.zmin then mul zz (sub nought one) else zz

  abbrev pub z_index : Disk3d F → F → Outcome ℕ
  z_index d zz = or_undefined (nearest (above d zz) d.zmin d.dz) >>= checked_index d.nz

  abbrev pub r_index : Disk3d F → F → Outcome ℕ
  r_index d rr = or_undefined (nearest rr d.rin d.dr) >>= checked_index d.nr

  -- getIndices(i, co, nu)
  unfoldable pub get_indices : ℕ → Disk3d F → Cylindrical F → F → Outcome (ℕ × ℕ × ℕ × ℕ)
  unfolding nu_index phi_index
  get_indices rounds d co nu = do
    i_nu ← nu_index d nu
    elim (eq (mul (mul d.dphi d.dz) d.dr) nought) [
      | true ↦ throws Error.step_null
      | false ↦ (do
        i_phi ← phi_index d (pattern_phi rounds d co)
        i_z ← z_index d co.zz
        i_r ← r_index d co.rr
        ok (i_nu, i_phi, i_z, i_r))
    ]

  -- velocity_[i[3]*3*nphi_*nz_+i[2]*3*nphi_+i[1]*3+component]
  abbrev pub velocity_at : Disk3d F → List F → ℕ × ℕ × ℕ × ℕ → ℕ → Outcome F
  velocity_at d values (i_nu, i_phi, i_z, i_r) component =
      or_undefined
        (get_elem? values (i_r * 3 * d.nphi * d.nz + i_z * 3 * d.nphi + i_phi * 3 + component))

  -- phiprime, zprime and rprime of getVelocity
  pub grid_velocity : ℕ → Disk3d F → List F → Cylindrical F → Outcome (F × F × F)
  unfolding get_indices
  grid_velocity rounds d values co = do
    i ← get_indices rounds d co nought
    phiprime ← velocity_at d values i 0
    zprime ← velocity_at d values i 1
    rprime ← velocity_at d values i 2
    ok (phiprime, zprime, rprime)
