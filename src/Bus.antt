-- ===== src/Bus.antt =====
-- What every driver of the package stands on: kernel return codes, functions that change a state
-- and may return an error, and the register map (regmap) through which a chip is reached.
pub mod Errno
pub mod Regmap
use linux_ptp_driver_package.Prelude.{zero, ◌≡◌, refl, Bool, true, false, if◌then◌else◌}
use linux_ptp_driver_package.Prelude.Int.{ℤ, pos, negsuc}

-- How a function ends: it returns 0 with what it stored through its pointers, or a nonzero code.
-- The state is what it leaves behind in both cases.
pub data Outcome (S A : Type 0) : Type 0 where
  ok : A → S → Outcome S A
  fail : ℤ → S → Outcome S A

abbrev pub M : Type 0 → Type 0 → Type 0
M S A = S → Outcome S A

module _ {S : Type 0} where
  infixl 5 ◌>>=◌ ◌>>◌
  abbrev pub ◌>>=◌ : {A B : Type 0} → M S A → (A → M S B) → M S B
  ◌>>=◌ m f s = elim (m s) [ ok a s' ↦ f a s' | fail e s' ↦ fail e s' ]

  abbrev pub ◌>>◌ : {B : Type 0} → M S (Unit {0}) → M S B → M S B
  ◌>>◌ m k s = elim (m s) [ ok a s' ↦ k s' | fail e s' ↦ fail e s' ]

  abbrev pub pure : {A : Type 0} → A → M S A
  pure a s = ok a s

  abbrev pub throw : {A : Type 0} → ℤ → M S A
  throw e s = fail e s

  abbrev pub get : M S S
  get s = ok s s

  abbrev pub put : S → M S (Unit {0})
  put s _ = ok tt s

  -- `(void)f()`: the code is dropped, what was done stays.
  abbrev pub ignore : {A : Type 0} → M S A → M S (Unit {0})
  ignore m s = elim (m s) [ ok a s' ↦ ok tt s' | fail e s' ↦ ok tt s' ]

  -- `err = m(); (void)k(); return err;`.
  abbrev pub finally : {A : Type 0} → M S A → M S (Unit {0}) → M S A
  finally m k s = elim (m s) [
    | ok a s' ↦ elim (k s') [ ok u t ↦ ok a t | fail c t ↦ ok a t ]
    | fail e s' ↦ elim (k s') [ ok u t ↦ fail e t | fail c t ↦ fail e t ]
  ]

  -- `return err;` where `err` is a code that another call gave: 0 is success.
  abbrev pub status : ℤ → M S (Unit {0})
  status (pos zero) s = ok tt s
  status e s = fail e s

-- A function that stores its result through a pointer: given what the variable holds, its code, what
-- the variable holds then, and the state.
abbrev pub Filler : Type 0 → Type 0 → Type 0
Filler S A = A → S → ℤ × A × S

-- The variable is assigned just where the function succeeds.
abbrev pub filling : {S A : Type 0} → M S A → Filler S A
filling m old s = elim (m s) [ ok a t ↦ (pos 0, a, t) | fail e t ↦ (e, old, t) ]

module _ {S A B : Type 0} where
  -- Inversion of a successful sequence: both parts succeeded, one after the other.
  pub >>=-ok :
      (m : M S A) (f : A → M S B) {s : S} {b : B} {s' : S}
      → (m >>= f) s ≡ ok b s'
      → (a : A) × (t : S) × (m s ≡ ok a t) × (f a t ≡ ok b s')
  >>=-ok m f {s} {b} {s'} e = go (m s) refl e
    where
      go :
          (o : Outcome S A)
          → m s ≡ o
          → (elim o [ ok a t ↦ f a t | fail c t ↦ fail c t ]) ≡ ok b s'
          → (a : A) × (t : S) × (m s ≡ ok a t) × (f a t ≡ ok b s')
      go (ok a t) h e = (a, t, h, e)
      go (fail c t) h e = cc

module _ {S B : Type 0} where
  pub >>-ok :
      (m : M S (Unit {0})) (k : M S B) {s : S} {b : B} {s' : S}
      → (m >> k) s ≡ ok b s'
      → (a : Unit {0}) × (t : S) × (m s ≡ ok a t) × (k t ≡ ok b s')
  >>-ok m k {s} {b} {s'} e = go (m s) refl e
    where
      go :
          (o : Outcome S (Unit {0}))
          → m s ≡ o
          → (elim o [ ok a t ↦ k t | fail c t ↦ fail c t ]) ≡ ok b s'
          → (a : Unit {0}) × (t : S) × (m s ≡ ok a t) × (k t ≡ ok b s')
      go (ok a t) h e = (a, t, h, e)
      go (fail c t) h e = cc

-- What a call left behind, whether it succeeded or failed.
abbrev pub After : {S A : Type 0} → (S → Type 0) → Outcome S A → Type 0
After P (ok a s) = P s
After P (fail e s) = P s

module _ {S A B : Type 0} where
  -- A sequence leaves `Q` if its first part leaves `P`, from which the second leaves `Q`, and a
  -- failure of the first part is enough for `Q`.
  pub After->>= :
      (m : M S A) (f : A → M S B) (P Q : S → Type 0) (s : S)
      → After P (m s)
      → ((t : S) → P t → Q t)
      → ((a : A) (t : S) → P t → After Q (f a t))
      → After Q ((m >>= f) s)
  After->>= m f P Q s p failed next = go (m s) p
    where
      go : (o : Outcome S A) → After P o → After Q (elim o [ ok a t ↦ f a t | fail e t ↦ fail e t ])
      go (ok a t) p = next a t p
      go (fail e t) p = failed t p

module _ {S B : Type 0} where
  -- A sequence keeps `P` if both parts do.
  pub After->> :
      (m : M S (Unit {0})) (k : M S B) (P : S → Type 0) (s : S)
      → After P (m s)
      → ((t : S) → P t → After P (k t))
      → After P ((m >> k) s)
  After->> m k P s p next = go (m s) p
    where
      go :
          (o : Outcome S (Unit {0}))
          → After P o
          → After P (elim o [ ok a t ↦ k t | fail e t ↦ fail e t ])
      go (ok a t) p = next t p
      go (fail e t) p = p

module _ {S A : Type 0} (Q : S → Type 0) where
  pub After-if :
      (b : Bool) (m k : M S A) (s : S)
      → After Q (m s)
      → After Q (k s)
      → After Q ((if b then m else k) s)
  After-if true m k s p q = p
  After-if false m k s p q = q

  pub After-weaken :
      (P : S → Type 0) (o : Outcome S A) → ((t : S) → P t → Q t) → After P o → After Q o
  After-weaken P (ok a t) f p = f t p
  After-weaken P (fail e t) f p = f t p
