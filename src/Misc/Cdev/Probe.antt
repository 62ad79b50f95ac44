-- ===== src/Misc/Cdev/Probe.antt =====
-- drivers/misc/rsmu_cdev.c: attaching the character device to a chip and leaving it.
use linux_ptp_driver_package.Prelude.{
  ℕ, ◌≡◌, Bool, true, false, Option, none, some, if◌then◌else◌, refl,
}
use linux_ptp_driver_package.Bus.{M, Outcome, ok, ◌>>◌, fail, throw, pure, After}
use linux_ptp_driver_package.Prelude.Int.{ℤ, negsuc, pos}
use linux_ptp_driver_package.Bus.Errno.{einval, enodev}
use linux_ptp_driver_package.Mfd.Ddata.{RsmuType, cm, sabre, fc3, unknown}

-- `rsmu_init_ops`: the entry of `ops_array` for the type; `none` is the return of -EINVAL.
unfoldable pub rsmu_init_ops : RsmuType → Option ℕ
rsmu_init_ops cm = some 0
rsmu_init_ops sabre = some 1
rsmu_init_ops fc3 = some 2
rsmu_init_ops unknown = none

-- What the kernel holds for a device, with the state of the family's driver: the index, and whether
-- the device is registered.
pub record Cdev (S : Type 0) : Type 0 where
  pub index : Option ℕ
  pub registered : Bool
  pub ops : Option ℕ
  pub rsmu : S

module _ {S : Type 0} where
  abbrev pub on_rsmu : {A : Type 0} → M S A → M (Cdev S) A
  on_rsmu m s = elim (m s.rsmu) [
    | ok a t ↦ ok a (record s { rsmu = t })
    | fail e t ↦ fail e (record s { rsmu = t })
  ]

  abbrev pub ida_simple_remove : M (Cdev S) (Unit {0})
  ida_simple_remove s = ok tt (record s { index = none })

  -- What follows the index: on failure it is given back.
  unfoldable pub attach : RsmuType → Option (M S (Unit {0})) → Bool → M (Cdev S) (Unit {0})
  attach type device_init misc_register s = elim (rsmu_init_ops type) [
    | none ↦ (ida_simple_remove >> throw einval) s
    | some n ↦
        let init : M (Cdev S) (Unit {0}) = elim device_init [
          | none ↦ pure tt
          | some f ↦ on_rsmu f
        ] in
        elim (init (record s { ops = some n })) [
          | fail e t ↦ (ida_simple_remove >> throw e) t
          | ok u t ↦
              if misc_register
              then ok tt (record t { registered = true })
              else (ida_simple_remove >> throw enodev) t
        ]
  ]

  -- `ida_simple_get` gives an index or a negative code; `misc_register` is whether that succeeds.
  unfoldable pub rsmu_probe : RsmuType → ℤ → Option (M S (Unit {0})) → Bool → M (Cdev S) (Unit {0})
  rsmu_probe type (negsuc e) device_init misc_register s = fail (negsuc e) s
  rsmu_probe type (pos n) device_init misc_register s =
      attach type device_init misc_register (record s { index = some n })

  unfoldable pub rsmu_remove : M (Cdev S) (Unit {0})
  rsmu_remove s = ok tt (record s { registered = false; index = none })

  -- What a device that is attached, or not attached, holds.
  abbrev pub Holds : Bool → Cdev S → Type 0
  Holds true s = (s.registered ≡ true) × (n : ℕ) × (s.index ≡ some n)
  Holds false s = (s.registered ≡ false) × (s.index ≡ none)

  abbrev pub OutcomeHolds : Outcome (Cdev S) (Unit {0}) → Type 0
  OutcomeHolds (ok u s) = Holds true s
  OutcomeHolds (fail e s) = Holds false s

  initialised :
      (o : Outcome (Cdev S) (Unit {0})) (misc_register : Bool) (n : ℕ)
      → After (λ t. (t.registered ≡ false) × (t.index ≡ some n)) o
      → OutcomeHolds (elim o [
        | fail e t ↦ (ida_simple_remove >> throw e) t
        | ok u t ↦
            if misc_register
            then ok tt (record t { registered = true })
            else (ida_simple_remove >> throw enodev) t
      ])
  initialised (ok u t) true n (_, index) = (refl, n, index)
  initialised (ok u t) false n (free, _) = (free, refl)
  initialised (fail e t) misc_register n (free, _) = (free, refl)

  on_rsmu_keeps :
      (f : M S (Unit {0})) (t : Cdev S) (n : ℕ)
      → (t.registered ≡ false) × (t.index ≡ some n)
      → After (λ t'. (t'.registered ≡ false) × (t'.index ≡ some n)) (on_rsmu f t)
  on_rsmu_keeps f t n k = go (f t.rsmu)
    where
      go :
          (o : Outcome S (Unit {0}))
          → After (λ t'. (t'.registered ≡ false) × (t'.index ≡ some n)) (on_rsmu (λ r. o) t)
      go (ok u r) = k
      go (fail e r) = k

  attached :
      (found : Option ℕ) (device_init : Option (M S (Unit {0}))) (misc_register : Bool) (n : ℕ)
      (s : Cdev S)
      → (s.registered ≡ false) × (s.index ≡ some n)
      → OutcomeHolds (elim found [
        | none ↦ (ida_simple_remove >> throw einval) s
        | some k ↦
            let init : M (Cdev S) (Unit {0}) = elim device_init [
              | none ↦ pure tt
              | some f ↦ on_rsmu f
            ] in
            elim (init (record s { ops = some k })) [
              | fail e t ↦ (ida_simple_remove >> throw e) t
              | ok u t ↦
                  if misc_register
                  then ok tt (record t { registered = true })
                  else (ida_simple_remove >> throw enodev) t
            ]
      ])
  attached none device_init misc_register n s h = (h.0, refl)
  attached (some k) none misc_register n s h =
      initialised (ok tt (record s { ops = some k })) misc_register n h
  attached (some k) (some f) misc_register n s h =
      initialised (on_rsmu f (record s { ops = some k })) misc_register n
        (on_rsmu_keeps f (record s { ops = some k }) n h)

  -- An attempt to attach to a chip of any type, with any outcome of the kernel's calls and of the
  -- family's initialisation, ends with the device registered and its index taken if it succeeds, and
  -- with neither if it fails.
  pub rsmu_probe-OutcomeHolds :
      (type : RsmuType) (index : ℤ) (device_init : Option (M S (Unit {0}))) (misc_register : Bool)
      (s : Cdev S)
      → Holds false s
      → OutcomeHolds (rsmu_probe type index device_init misc_register s)
  unfolding rsmu_probe attach
  rsmu_probe-OutcomeHolds type (negsuc e) device_init misc_register s h = h
  rsmu_probe-OutcomeHolds type (pos n) device_init misc_register s h =
      attached (rsmu_init_ops type) device_init misc_register n (record s { index = some n })
        (h.0, refl)
