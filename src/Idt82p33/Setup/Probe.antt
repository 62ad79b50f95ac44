-- ===== src/Idt82p33/Setup/Probe.antt =====
-- What attaching to a chip leaves behind when it fails.
use mathlib.Core.List.{append_assoc}
use linux_ptp_driver_package.Prelude.{
  ℕ, ◌≡◌, List, [], ◌∷◌, ◌++◌, if◌then◌else◌, refl, true, false, arith,
}
use linux_ptp_driver_package.Idt82p33.State.{
  Channel, Request, cancel_adjtime, clock_unregister, Idt82p33,
}
use linux_ptp_driver_package.Bus.Regmap.{Regmap}
use linux_ptp_driver_package.Clockmatrix.Kernel.{Kernel}
use linux_ptp_driver_package.Idt82p33.Setup.{
  idt82p33_ptp_clock_unregister_all, unregister_one, idt82p33_probe, Registration, idt82p33_reset,
  set_up_channels,
}
use linux_ptp_driver_package.Bus.{◌>>◌, throw, fail, Outcome, ok, M, ignore}
use linux_ptp_driver_package.Idt82p33.Firmware.{Image, idt82p33_load_firmware}

-- What one round of `idt82p33_ptp_clock_unregister_all` asks for, and what both do.
abbrev pub unregistration : ℕ → (ℕ → Channel) → List Request
unregistration i c = cancel_adjtime i ∷ (if (c i).ptp_clock then clock_unregister i ∷ [] else [])

abbrev pub unregistrations : (ℕ → Channel) → List Request
unregistrations c = unregistration 0 c ++ unregistration 1 c

-- The last requests were those, whatever was asked for before.
abbrev pub EndsUnregistered : {Dev : Type 0} → Idt82p33 Dev → Type 0
EndsUnregistered s = (before : List Request) × (s.requests ≡ before ++ unregistrations s.channel)

-- What a failure leaves.
abbrev pub Failed : {S A : Type 0} → (S → Type 0) → Outcome S A → Type 0
Failed P (ok a s) = Unit
Failed P (fail e s) = P s

module _ {S A B : Type 0} (P : S → Type 0) where
  Failed-ignore :
      (m : M S A) (k : M S B) (s : S) → ((t : S) → Failed P (k t)) → Failed P ((ignore m >> k) s)
  Failed-ignore m k s next = go (m s)
    where
      go :
          (o : Outcome S A)
          → Failed P
              (elim (elim o as (λ x. Outcome S (Unit {0})) [
                | ok a t ↦ ok tt t
                | fail e t ↦ ok tt t
              ]) [ ok u t ↦ k t | fail e t ↦ fail e t ])
      go (ok a t) = next t
      go (fail e t) = next t

module _ {Dev : Type 0} (regmap : Regmap Dev) (kernel : Kernel Dev) where
  unregistered_one :
      (i : ℕ) (s : Idt82p33 Dev)
      → unregister_one i s
        ≡ ok tt (record s { requests = s.requests ++ unregistration i s.channel })
  unfolding unregister_one
  unregistered_one i s =
      ground (arith, append_assoc s.requests (cancel_adjtime i ∷ []) (clock_unregister i ∷ []))

  -- The state with both clocks unregistered.
  unregistered :
      (s : Idt82p33 Dev)
      → idt82p33_ptp_clock_unregister_all s
        ≡ ok tt (record s { requests = s.requests ++ unregistrations s.channel })
  unfolding idt82p33_ptp_clock_unregister_all
  unregistered s =
      let one = record s { requests = s.requests ++ unregistration 0 s.channel } in
      ground (
        arith,
        unregistered_one 0 s,
        unregistered_one 1 one,
        append_assoc s.requests (unregistration 0 s.channel) (unregistration 1 s.channel),
      )

  after_set_up :
      (o : Outcome (Idt82p33 Dev) (Unit {0}))
      → Failed EndsUnregistered
          (elim o [ ok u t ↦ ok u t | fail e t ↦ (idt82p33_ptp_clock_unregister_all >> throw e) t ])
  after_set_up (ok u t) = tt
  after_set_up (fail e t) = rw (unregistered t, ◌>>◌) (t.requests, refl)

  -- An attempt to attach that fails ends by taking back the delayed work of both channels, and by
  -- unregistering each clock that is registered then.
  pub idt82p33_probe-EndsUnregistered :
      (stale : ℕ → ℕ) (ptp_clock_register : ℕ → Registration) (image : Image) (s : Idt82p33 Dev)
      → Failed EndsUnregistered (idt82p33_probe regmap kernel stale ptp_clock_register image s)
  unfolding idt82p33_probe
  idt82p33_probe-EndsUnregistered stale ptp_clock_register image s =
      Failed-ignore EndsUnregistered (idt82p33_reset regmap kernel true) _ s (λ t.
        Failed-ignore EndsUnregistered (idt82p33_load_firmware regmap image) _ t (λ t'.
          Failed-ignore EndsUnregistered (idt82p33_reset regmap kernel false) _ t'
            (λ t''. after_set_up (set_up_channels regmap kernel stale ptp_clock_register t''))))
