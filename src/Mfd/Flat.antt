-- ===== src/Mfd/Flat.antt =====
-- What the bus drivers of drivers/mfd promise to the register map above them: a flat memory.
use linux_ptp_driver_package.Prelude.{
  ℕ, List, if◌then◌else◌, ◌%◌, ◌∷◌, ◌==◌, ◌≡◌, ◌/◌, arith, ◌*◌, ◌+◌, [],
}
use linux_ptp_driver_package.Bus.{M, pure, ◌>>=◌, ok, ◌>>◌, >>=-ok, >>-ok}
use linux_ptp_driver_package.Mfd.Ddata.{Ddata}

-- `reg_read` and `reg_write` of a regmap configuration. `*val` holds a number before the read.
pub record BusOps (Dev : Type 0) : Type 0 where
  pub reg_read : ℕ → ℕ → M (Ddata Dev) ℕ
  pub reg_write : ℕ → ℕ → M (Ddata Dev) (Unit {0})

pub data Access : Type 0 where
  load : ℕ → Access
  store : ℕ → ℕ → Access

abbrev pub address : Access → ℕ
address (load reg) = reg
address (store reg val) = reg

abbrev pub update : (ℕ → ℕ) → ℕ → ℕ → ℕ → ℕ
update cells a v x = if x == a then v else cells x

-- The specification: the values that the loads see, and the memory afterwards.
abbrev pub flat_values : List Access → (ℕ → ℕ) → List ℕ
flat_values [] cells = []
flat_values (load reg ∷ rest) cells = cells reg ∷ flat_values rest cells
flat_values (store reg val ∷ rest) cells = flat_values rest (update cells reg (val % 256))

abbrev pub flat_cells : List Access → (ℕ → ℕ) → ℕ → ℕ
flat_cells [] cells = cells
flat_cells (load reg ∷ rest) cells = flat_cells rest cells
flat_cells (store reg val ∷ rest) cells = flat_cells rest (update cells reg (val % 256))

-- The driver's calls one after the other, up to the first that fails. A caller that reads a
-- register starts from a zeroed `*val`.
unfoldable pub run : {Dev : Type 0} → BusOps Dev → List Access → M (Ddata Dev) (List ℕ)
run ops [] = pure []
run ops (load reg ∷ rest) = do v ← ops.reg_read reg 0; vs ← run ops rest; pure (v ∷ vs)
run ops (store reg val ∷ rest) = do ops.reg_write reg val; run ops rest

-- A driver over a chip whose registers are `cell`, in the states that are `Ready`, at the addresses
-- that `InWindow` admits.
pub record IsFlat {Dev : Type 0} (ops : BusOps Dev) (cell : Dev → ℕ → ℕ)
    (Ready : Ddata Dev → Type 0) (InWindow : ℕ → Type 0) : Type 0 where
  pub read_flat :
      (reg val : ℕ) (s : Ddata Dev) {w : ℕ} {s' : Ddata Dev}
      → InWindow reg
      → Ready s
      → ops.reg_read reg val s ≡ ok w s'
      → (w ≡ val / 256 * 256 + cell s.dev reg) × (cell s'.dev ≡ cell s.dev) × Ready s'
  pub write_flat :
      (reg val : ℕ) (s : Ddata Dev) {u : Unit {0}} {s' : Ddata Dev}
      → InWindow reg
      → Ready s
      → ops.reg_write reg val s ≡ ok u s'
      → (cell s'.dev ≡ update (cell s.dev) reg (val % 256)) × Ready s'

abbrev pub All : (ℕ → Type 0) → List Access → Type 0
All P [] = Unit
All P (a ∷ rest) = P (address a) × All P rest

module _ {Dev : Type 0} {ops : BusOps Dev} {cell : Dev → ℕ → ℕ} {Ready : Ddata Dev → Type 0}
    {InWindow : ℕ → Type 0} (flat : IsFlat ops cell Ready InWindow) where
  -- A sequence of accesses that succeeds sees the values of the flat memory, leaves the chip's
  -- registers as the flat memory, and leaves the driver ready for more.
  pub run_refines :
      (rest : List Access) (s : Ddata Dev) {vs : List ℕ} {s' : Ddata Dev}
      → All InWindow rest
      → Ready s
      → run ops rest s ≡ ok vs s'
      → (vs ≡ flat_values rest (cell s.dev))
        × (cell s'.dev ≡ flat_cells rest (cell s.dev))
        × Ready s'
  unfolding run
  run_refines [] s p r e = ground (arith, r)
  run_refines (load reg ∷ rest) s p r e =
      let (w, t, loaded, e') = >>=-ok (ops.reg_read reg 0) _ e in
      let (vs, t', others, done) = >>=-ok (run ops rest) _ e' in
      let (now, kept, ready) = flat.read_flat reg 0 s p.0 r loaded in
      let (later, cells, ready') = run_refines rest t p.1 ready others in
      ground (arith, now, kept, later, cells, ready', done)
  run_refines (store reg val ∷ rest) s p r e =
      let (u, t, stored, others) = >>-ok (ops.reg_write reg val) _ e in
      let (now, ready) = flat.write_flat reg val s p.0 r stored in
      let (later, cells, ready') = run_refines rest t p.1 ready others in
      ground (arith, now, later, cells, ready')
