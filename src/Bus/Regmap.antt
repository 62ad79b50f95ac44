-- ===== src/Bus/Regmap.antt =====
-- The kernel's register map, an interface: `regmap_bulk_read` and `regmap_bulk_write` over a chip
-- in some state, and what a register of the chip promises of them.
use linux_ptp_driver_package.Prelude.{ℕ, ◌<◌, List, [], ◌∷◌, ◌≡◌, get_or, length}
use linux_ptp_driver_package.Bus.{ok, M, pure, ◌>>=◌, Outcome, fail}

-- regmap_bulk_read(map, reg, buf, count) and regmap_bulk_write(map, reg, buf, count).
pub record Regmap (Dev : Type 0) : Type 0 where
  pub bulk_read : ℕ → ℕ → M Dev (List ℕ)
  pub bulk_write : ℕ → List ℕ → M Dev (Unit {0})

module _ {Dev : Type 0} (regmap : Regmap Dev) where
  -- A transfer of one byte, the form that most calls have.
  abbrev pub read_byte : ℕ → M Dev ℕ
  read_byte a = do bs ← regmap.bulk_read a 1; pure (get_or bs 0 0)

  abbrev pub write_byte : ℕ → ℕ → M Dev (Unit {0})
  write_byte a v = regmap.bulk_write a (v ∷ [])

-- A read that succeeds gave the byte `v`, and left it there.
abbrev pub Gives : {Dev : Type 0} → (Dev → ℕ) → ℕ → Outcome Dev (List ℕ) → Type 0
Gives cell v (ok bs d) = (bs ≡ v ∷ []) × (cell d ≡ v)
Gives cell v (fail e d) = Unit

-- A write that succeeds left the byte or bytes `v` there.
abbrev pub Leaves : {Dev A : Type 0} → (Dev → A) → A → Outcome Dev (Unit {0}) → Type 0
Leaves cell v (ok u d) = cell d ≡ v
Leaves cell v (fail e d) = Unit

-- The one-byte register at `a` holds what was last written to it: a read returns its contents and
-- leaves them, a write of a byte replaces them. Nothing is said of a transfer that fails.
pub record Register {Dev : Type 0} (regmap : Regmap Dev) (a : ℕ) : Type 0 where
  pub cell : Dev → ℕ
  pub is_byte : (d : Dev) → cell d < 256
  pub reads : (d : Dev) → Gives cell (cell d) (regmap.bulk_read a 1 d)
  pub writes : (v : ℕ) (d : Dev) → v < 256 → Leaves cell v (regmap.bulk_write a (v ∷ []) d)

abbrev pub AreBytes : List ℕ → Type 0
AreBytes [] = Unit
AreBytes (b ∷ bs) = (b < 256) × AreBytes bs

-- The `n` bytes at `a` hold what was last written to them at once.
pub record Block {Dev : Type 0} (regmap : Regmap Dev) (a n : ℕ) : Type 0 where
  pub bytes : Dev → List ℕ
  pub fills :
      (bs : List ℕ) (d : Dev)
      → length bs ≡ n
      → AreBytes bs
      → Leaves bytes bs (regmap.bulk_write a bs d)
