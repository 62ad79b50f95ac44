-- ===== src/Clockmatrix/Polls.antt =====
-- How often the polling loops of drivers/ptp/ptp_clockmatrix.c read the chip.
use linux_ptp_driver_package.Clockmatrix.State.{
  Idtcm, idtcm_read, read_u8, idtcm_write, on_chip, fw_reg, write_u8,
}
use linux_ptp_driver_package.Prelude.{
  ◌+◌, ◌%◌, ◌^◌, ◌≤◌, ℕ, zero, suc, List, arith, if◌then◌else◌, ◌==◌, get_or, bit_and, Bool, Option,
  none, some,
}
use linux_ptp_driver_package.Bus.{
  Outcome, ok, fail, After, After->>=, pure, After-if, After-weaken, M, throw, ◌>>=◌,
}
use linux_ptp_driver_package.Bus.Regmap.{Regmap}
use linux_ptp_driver_package.Clockmatrix.Kernel.{Kernel}
use linux_ptp_driver_package.Clockmatrix.Boot.{
  poll_boot_status, read_boot_status, boot_done, word_of, wait_for_boot_status_ready,
}
use linux_ptp_driver_package.Clockmatrix.Registers.{
  general_status, boot_status, tod_write_cmd, tod_read_primary_cmd, tod_read_primary_cmd_v520,
  tod_read_primary_base, tod_write,
}
use linux_ptp_driver_package.Clockmatrix.Tod.{
  wait_written, tod_write_selection_mask, note_start_time, wait_trigger, raw_gettime_immediate,
  raw_settime, now, raw_gettime, set_dpll_scsr_tod, tod_read_trigger_mask, converted,
}
use linux_ptp_driver_package.Bus.Errno.{eio}
use linux_ptp_driver_package.Clockmatrix.Time.{Timespec, tod_byte_count}

-- The chip with a count of the reads that were made of it.
abbrev pub Counted : Type 0 → Type 0
Counted Dev = Dev × ℕ

abbrev pub with_count : {Dev A : Type 0} → ℕ → Outcome Dev A → Outcome (Counted Dev) A
with_count n (ok a d) = ok a (d, n)
with_count n (fail e d) = fail e (d, n)

abbrev pub counted : {Dev : Type 0} → Regmap Dev → Regmap (Counted Dev)
counted regmap = record {
  bulk_read = λ a count d. with_count (suc d.1) (regmap.bulk_read a count d.0);
  bulk_write = λ a buf d. with_count d.1 (regmap.bulk_write a buf d.0);
}

abbrev pub counted_kernel : {Dev : Type 0} → Kernel Dev → Kernel (Counted Dev)
counted_kernel kernel = record {
  ktime_get_raw = λ d. let (t, d') = kernel.ktime_get_raw d.0 in (t, (d', d.1));
  timespec64_to_ns = kernel.timespec64_to_ns;
  ns_to_timespec64 = kernel.ns_to_timespec64;
  timespec64_add_ns = kernel.timespec64_add_ns;
  find_pin = kernel.find_pin;
}

abbrev pub reads : {Dev : Type 0} → Idtcm (Counted Dev) → ℕ
reads s = s.dev.1

module _ {Dev : Type 0} (regmap : Regmap Dev) (kernel : Kernel Dev) where
  -- At most `n` more reads than in `s`.
  abbrev pub WithinReads : ℕ → Idtcm (Counted Dev) → Idtcm (Counted Dev) → Type 0
  WithinReads n s t = reads t ≤ reads s + n

  one_read :
      (m a n : ℕ) (s : Idtcm (Counted Dev))
      → After (WithinReads 1 s) (idtcm_read (counted regmap) m a n s)
  unfolding idtcm_read
  one_read m a n s = go (regmap.bulk_read ((m + a) % 2 ^ 32) n s.dev.0)
    where
      go :
          (o : Outcome Dev (List ℕ))
          → After (WithinReads 1 s) (on_chip (counted regmap) (λ d. with_count (suc d.1) o) s)
      go (ok a d) = omega arith
      go (fail e d) = omega arith

  one_read_u8 :
      (m a : ℕ) (s : Idtcm (Counted Dev)) → After (WithinReads 1 s) (read_u8 (counted regmap) m a s)
  unfolding read_u8
  one_read_u8 m a s =
      After->>= (idtcm_read (counted regmap) m a 1) (λ bs. pure (get_or bs 0 0)) (WithinReads 1 s)
        (WithinReads 1 s) s (one_read m a 1 s) (λ t p. p) (λ bs t p. p)

  no_read_write :
      (m a : ℕ) (bs : List ℕ) (s : Idtcm (Counted Dev))
      → After (WithinReads 0 s) (idtcm_write (counted regmap) m a bs s)
  unfolding idtcm_write
  no_read_write m a bs s = go (regmap.bulk_write ((m + a) % 2 ^ 32) bs s.dev.0)
    where
      go :
          (o : Outcome Dev (Unit {0}))
          → After (WithinReads 0 s) (on_chip (counted regmap) (λ d. with_count d.1 o) s)
      go (ok a d) = omega arith
      go (fail e d) = omega arith

  -- Another round of a loop: if `rest` stays within `n` reads of `t`, which is within one of `s`, it
  -- stays within one more of `s`.
  one_more :
      (n : ℕ) (s t : Idtcm (Counted Dev)) (rest : M (Idtcm (Counted Dev)) (Unit {0})) (b : Bool)
      → WithinReads 1 s t
      → After (WithinReads n t) (rest t)
      → After (WithinReads (suc n) s) ((if b then pure tt else rest) t)
  one_more n s t rest b p q =
      After-if (WithinReads (suc n) s) b (pure tt) rest t (omega arith)
        (After-weaken (WithinReads (suc n) s) (WithinReads n t) (rest t) (λ t' r. omega arith) q)

  -- Waiting for the boot reads the status at most as often as there are rounds left.
  poll_boot_status_reads :
      (n : ℕ) (s : Idtcm (Counted Dev))
      → After (WithinReads n s) (poll_boot_status (counted regmap) n s)
  unfolding poll_boot_status read_boot_status
  poll_boot_status_reads zero s = omega arith
  poll_boot_status_reads (suc n) s =
      After->>= (read_boot_status (counted regmap)) _ (WithinReads 1 s) (WithinReads (suc n) s) s
        (After->>= (idtcm_read (counted regmap) general_status boot_status 4)
          (λ bs. pure (word_of bs)) (WithinReads 1 s) (WithinReads 1 s) s (one_read _ _ 4 s)
          (λ t p. p) (λ bs t p. p))
        (λ t p. omega arith)
        (λ word t p.
          one_more n s t (poll_boot_status (counted regmap) n) (word == boot_done) p
            (poll_boot_status_reads n t))

  wait_written_reads :
      (i n : ℕ) (s : Idtcm (Counted Dev))
      → After (WithinReads (suc n) s) (wait_written (counted regmap) (counted_kernel kernel) i n s)
  unfolding wait_written
  wait_written_reads i zero s =
      After->>= (read_u8 (counted regmap) (s.channel i).tod_write tod_write_cmd) _ (WithinReads 1 s)
        (WithinReads 1 s) s (one_read_u8 _ _ s) (λ t p. p)
        (λ cmd t p.
          After-if (WithinReads 1 s) (bit_and cmd tod_write_selection_mask == 0) (pure tt)
            (throw eio) t p p)
  wait_written_reads i (suc n) s =
      After->>= (read_u8 (counted regmap) (s.channel i).tod_write tod_write_cmd) _ (WithinReads 1 s)
        (WithinReads (suc (suc n)) s) s (one_read_u8 _ _ s) (λ t p. omega arith)
        (λ cmd t p.
          one_more (suc n) s t (wait_written (counted regmap) (counted_kernel kernel) i n)
            (bit_and cmd tod_write_selection_mask == 0) p (wait_written_reads i n t))

  -- Reads add up over a sequence.
  within_then :
      {A B : Type 0} (n a b : ℕ) (m : M (Idtcm (Counted Dev)) A) (f : A → M (Idtcm (Counted Dev)) B)
      (s : Idtcm (Counted Dev))
      → a + b ≤ n
      → After (WithinReads a s) (m s)
      → ((x : A) (t : Idtcm (Counted Dev)) → After (WithinReads b t) (f x t))
      → After (WithinReads n s) ((m >>= f) s)
  within_then n a b m f s h p q =
      After->>= m f (WithinReads a s) (WithinReads n s) s p (λ t r. omega arith)
        (λ x t r.
          After-weaken (WithinReads n s) (WithinReads b t) (f x t) (λ t' r'. omega arith) (q x t))

  converted_reads :
      {A : Type 0} (o : Option A) (s : Idtcm (Counted Dev))
      → After (WithinReads 0 s) (converted o s)
  converted_reads none s = omega arith
  converted_reads (some a) s = omega arith

  abbrev world : Kernel (Counted Dev)
  world = counted_kernel kernel

  note_start_time_reads :
      (s : Idtcm (Counted Dev)) → After (WithinReads 0 s) (note_start_time (counted regmap) world s)
  unfolding note_start_time now
  note_start_time_reads s =
      After-if (WithinReads 0 s) (s.calculate_overhead_flag == 0) (pure tt) _ s (omega arith)
        (omega arith)

  wait_trigger_reads :
      (i n : ℕ) (s : Idtcm (Counted Dev))
      → After (WithinReads n s) (wait_trigger (counted regmap) world i n s)
  unfolding wait_trigger
  wait_trigger_reads i zero s = omega arith
  wait_trigger_reads i (suc n) s =
      within_then (suc n) 0 (suc n) (note_start_time (counted regmap) world) _ s (omega arith)
        (note_start_time_reads s)
        (λ u t.
          After->>=
            (read_u8 (counted regmap) (t.channel i).tod_read_primary
              (fw_reg t.fw_ver tod_read_primary_cmd tod_read_primary_cmd_v520))
            _ (WithinReads 1 t) (WithinReads (suc n) t) t (one_read_u8 _ _ t) (λ t' p. omega arith)
            (λ trigger t' p.
              one_more n t t' (wait_trigger (counted regmap) world i n)
                (bit_and trigger tod_read_trigger_mask == 0) p (wait_trigger_reads i n t')))

  -- Reading the time reads the chip at most 11 times before it gives a result: ten polls of the
  -- trigger, and the time itself.
  pub raw_gettime_immediate_reads :
      (i : ℕ) (s : Idtcm (Counted Dev))
      → After
          (WithinReads 11 s)
          (raw_gettime_immediate (counted regmap) (counted_kernel kernel) i s)
  unfolding raw_gettime_immediate raw_gettime write_u8
  raw_gettime_immediate_reads i s =
      within_then 11 0 11 (write_u8 (counted regmap) (s.channel i).tod_read_primary _ _) _ s
        (omega arith) (no_read_write _ _ _ s)
        (λ u t.
          within_then 11 10 1 (wait_trigger (counted regmap) world i 10) _ t (omega arith)
            (wait_trigger_reads i 10 t)
            (λ u t'.
              within_then 1 1 0
                (idtcm_read (counted regmap) (t'.channel i).tod_read_primary tod_read_primary_base
                  tod_byte_count)
                _ t' (omega arith) (one_read _ _ _ t') (λ buf t''. converted_reads _ t'')))

  -- Setting the time reads the chip at most 22 times before it gives a result: the trigger register
  -- once to change it, and 21 polls of it.
  pub raw_settime_reads :
      (i : ℕ) (ts : Timespec) (wr_type : ℕ) (s : Idtcm (Counted Dev))
      → After
          (WithinReads 22 s)
          (raw_settime (counted regmap) (counted_kernel kernel) i ts wr_type s)
  unfolding raw_settime set_dpll_scsr_tod write_u8
  raw_settime_reads i ts wr_type s =
      let n = (s.channel i).tod_write in
      within_then 22 0 22 (converted _) _ s (omega arith) (converted_reads _ s) (λ buf t.
        within_then 22 0 22 (idtcm_write (counted regmap) n tod_write buf) _ t (omega arith)
          (no_read_write _ _ _ t)
          (λ u t1.
            within_then 22 1 21 (read_u8 (counted regmap) n tod_write_cmd) _ t1 (omega arith)
              (one_read_u8 _ _ t1)
              (λ cmd t2.
                within_then 21 0 21 (write_u8 (counted regmap) n tod_write_cmd _) _ t2 (omega arith)
                  (no_read_write _ _ _ t2) (λ u t3. wait_written_reads i 20 t3))))

  -- Waiting for the chip to boot reads its status at most 30 times before it gives a result.
  pub wait_for_boot_status_ready_reads :
      (s : Idtcm (Counted Dev))
      → After (WithinReads 30 s) (wait_for_boot_status_ready (counted regmap) s)
  unfolding wait_for_boot_status_ready
  wait_for_boot_status_ready_reads s = poll_boot_status_reads 30 s
