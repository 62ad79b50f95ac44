-- ===== src/Clockmatrix/Version.antt =====
-- drivers/ptp/ptp_clockmatrix.c: comparing firmware versions.
use Prim.Native.String.{String}
use linux_ptp_driver_package.Clockmatrix.State.{FwVersion, v_default, v487, v520}
use linux_ptp_driver_package.Prelude.{
  ◌≤◌, ◌<◌, ℕ, ◌≡◌, ◌↔◌, ◌⊎◌, Option, none, some, List, [], ◌∷◌, arith, if◌then◌else◌, ltb,
}
use linux_ptp_driver_package.Prelude.Int.{ℤ, pos, negsuc, ltb_ℤ}

-- The loop over the three numbers of both versions.
unfoldable pub compare_numbers : List ℕ → List ℕ → ℤ
compare_numbers [] ver2 = pos 0
compare_numbers (a ∷ ver1) [] = pos 0
compare_numbers (a ∷ ver1) (b ∷ ver2) =
    if ltb b a then pos 1 else if ltb a b then negsuc 0 else compare_numbers ver1 ver2

-- `sscanf` of "%hhu.%hhu.%hhu" gives the three numbers of a version, or `none` if it finds fewer.
abbrev pub Scan : Type 0
Scan = String → Option (ℕ × ℕ × ℕ)

module _ (sscanf : Scan) where
  unfoldable pub idtcm_strverscmp : String → String → ℤ
  unfolding compare_numbers
  idtcm_strverscmp version1 version2 = elim (sscanf version1) [
    | none ↦ negsuc 0
    | some (a1, a2, a3) ↦ elim (sscanf version2) [
      | none ↦ negsuc 0
      | some (b1, b2, b3) ↦ compare_numbers (a1 ∷ a2 ∷ a3 ∷ []) (b1 ∷ b2 ∷ b3 ∷ [])
    ]
  ]

  unfoldable pub idtcm_fw_version : String → FwVersion
  unfolding idtcm_strverscmp
  idtcm_fw_version version =
      let ver = if ltb_ℤ (idtcm_strverscmp version "4.8.7") (pos 0) then v_default else v487 in
      if ltb_ℤ (idtcm_strverscmp version "5.2.0") (pos 0) then ver else v520

-- Version numbers in order: `a` is not before `b`.
abbrev pub AtLeast : ℕ × ℕ × ℕ → ℕ × ℕ × ℕ → Type 0
AtLeast (a1, a2, a3) (b1, b2, b3) = (b1 < a1) ⊎ ((a1 ≡ b1) × ((b2 < a2) ⊎ ((a2 ≡ b2) × (b3 ≤ a3))))

module _ (sscanf : Scan) (reads_487 : sscanf "4.8.7" ≡ some (4, 8, 7))
    (reads_520 : sscanf "5.2.0" ≡ some (5, 2, 0)) where
  -- A version string with three numbers is classed 5.2.0 exactly when it is 5.2.0 or later, and
  -- 4.8.7 exactly when it is 4.8.7 or later but before 5.2.0; a string without three is the default.
  pub idtcm_fw_version_lem :
      (version : String)
      → ((sscanf version ≡ none) → idtcm_fw_version sscanf version ≡ v_default)
        × ((a1 a2 a3 : ℕ)
            → sscanf version ≡ some (a1, a2, a3)
            → ((idtcm_fw_version sscanf version ≡ v520) ↔ AtLeast (a1, a2, a3) (5, 2, 0))
              × ((idtcm_fw_version sscanf version ≡ v_default)
                  ↔ ¬ (AtLeast (a1, a2, a3) (4, 8, 7))))
  unfolding idtcm_fw_version idtcm_strverscmp compare_numbers
  idtcm_fw_version_lem version = (
    λ h. ground (arith, h, reads_487, reads_520),
    λ a1 a2 a3 h. rw (idtcm_fw_version, idtcm_strverscmp, h, reads_487, reads_520) (ground arith),
  )
