-- ===== src/Config/General.antt =====
-- internal/core/config/general.go and validate/general.go: the section on the whole scan.
use mathlib.Core.List.{append-nil, append_assoc}
use bgscan.Base.{
  ℕ, ◌*◌, ◌≡◌, refl, ◌∙◌, ap, List, [], ◌∷◌, ◌++◌, Option, none, some, Bool, true, ◌≢◌, ◌⊎◌, inl,
  inr, if◌then◌else◌,
}
use bgscan.Config.Platforms.{Platform, android, desktop, server, Tier, low, mid, high}
use bgscan.Config.Texts.{Text, codes}
use bgscan.Config.Checks.{
  ℤ, pos, lt, duration, millisecond, Report, report, report-none, report-passes, CheckError,
  out_of_range, negative, fix, fix-passes, fix-warns, fix-keeps, fix-replaces, check_int,
  check_uint16, check_duration, check_prefix, check_string, check_enum, check_directory_name,
  batch_size_field, status_interval_field, max_successful_ips_field, max_ips_to_test_field,
  pipeline_mode_field, max_ips_per_stage_field, min_probe_duration_field, probe_per_sec_field,
  probe_burst_field,
}

pub record GeneralConfig : Type 0 where
  pub status_interval : ℤ
  pub max_successful_ips : ℤ
  pub max_ips_to_test : ℤ
  pub max_ips_per_stage : ℤ
  pub batch_size : ℤ
  pub pipeline_mode : Text
  pub shuffled : Bool
  pub min_probe_duration : ℤ
  pub probe_per_sec : ℤ
  pub probe_burst : ℤ

abbrev pub allowed_pipeline_modes : List Text
allowed_pipeline_modes =
    codes "sequential"
    ∷ codes "simple"
    ∷ codes "streaming"
    ∷ codes "parallel"
    ∷ codes "batch"
    ∷ codes "pipeline"
    ∷ []

abbrev pub general_status_interval : ℤ → Option CheckError
general_status_interval v = check_duration (duration v) (100 * millisecond) (60_000 * millisecond)

-- The two counters are only compared with 0.
abbrev pub not_negative : ℤ → Option CheckError
not_negative v = if lt v (pos 0) then some negative else none

abbrev pub general_ips : ℤ → Option CheckError
general_ips v = check_int v 1 10_000_000

abbrev pub general_mode : Text → Option CheckError
general_mode v = check_enum v allowed_pipeline_modes

abbrev pub general_probe_duration : ℤ → Option CheckError
general_probe_duration v = check_duration (duration v) (10 * millisecond) (5000 * millisecond)

abbrev pub general_per_sec : ℤ → Option CheckError
general_per_sec v = check_int v 1 1_000_000

abbrev pub general_burst : ℤ → Option CheckError
general_burst v = check_int v 1 10_000

-- An entry of generalDefaults.
abbrev pub general_entry : ℕ → ℕ → ℕ → ℕ → ℕ → GeneralConfig
general_entry ips batch probe per_sec burst = record {
  status_interval = pos 1000;
  max_successful_ips = pos 0;
  max_ips_to_test = pos 0;
  max_ips_per_stage = pos ips;
  batch_size = pos batch;
  pipeline_mode = codes "streaming";
  shuffled = true;
  min_probe_duration = pos probe;
  probe_per_sec = pos per_sec;
  probe_burst = pos burst;
}

-- DefaultGeneralConfig, by what DetectPlatform and SelectTier return.
abbrev pub default_general : Platform → Tier → GeneralConfig
default_general server low = general_entry 50000 2000 20 400 100
default_general server mid = general_entry 200000 10000 10 800 200
default_general server high = general_entry 500000 20000 5 2000 300
default_general desktop low = general_entry 20000 1000 50 200 50
default_general desktop mid = general_entry 100000 5000 50 500 100
default_general desktop high = general_entry 100000 5000 50 800 100
default_general android low = general_entry 10000 500 100 120 30
default_general android mid = general_entry 50000 2000 80 160 50
default_general android high = general_entry 100000 5000 50 220 100

unfoldable pub validate_general : GeneralConfig → Report
validate_general c =
    report status_interval_field (general_status_interval c.status_interval)
    ++ report max_successful_ips_field (not_negative c.max_successful_ips)
    ++ report max_ips_to_test_field (not_negative c.max_ips_to_test)
    ++ report max_ips_per_stage_field (general_ips c.max_ips_per_stage)
    ++ report batch_size_field (general_ips c.batch_size)
    ++ report pipeline_mode_field (general_mode c.pipeline_mode)
    ++ report min_probe_duration_field (general_probe_duration c.min_probe_duration)
    ++ report probe_per_sec_field (general_per_sec c.probe_per_sec)
    ++ report probe_burst_field (general_burst c.probe_burst)

-- NormalizeGeneral: the section after it, and its warnings.
unfoldable pub normalize_general : GeneralConfig → GeneralConfig → GeneralConfig × Report
normalize_general def c =
    let (status_interval, w0) =
      fix status_interval_field general_status_interval def.status_interval c.status_interval [] in
    let (max_successful_ips, w1) =
      fix max_successful_ips_field not_negative def.max_successful_ips c.max_successful_ips w0 in
    let (max_ips_to_test, w2) =
      fix max_ips_to_test_field not_negative def.max_ips_to_test c.max_ips_to_test w1 in
    let (max_ips_per_stage, w3) =
      fix max_ips_per_stage_field general_ips def.max_ips_per_stage c.max_ips_per_stage w2 in
    let (batch_size, w4) = fix batch_size_field general_ips def.batch_size c.batch_size w3 in
    let (pipeline_mode, w5) =
      fix pipeline_mode_field general_mode def.pipeline_mode c.pipeline_mode w4 in
    let (min_probe_duration, w6) =
      fix min_probe_duration_field general_probe_duration def.min_probe_duration
        c.min_probe_duration w5 in
    let (probe_per_sec, w7) =
      fix probe_per_sec_field general_per_sec def.probe_per_sec c.probe_per_sec w6 in
    let (probe_burst, w8) = fix probe_burst_field general_burst def.probe_burst c.probe_burst w7 in
    (
      record {
        status_interval = status_interval;
        max_successful_ips = max_successful_ips;
        max_ips_to_test = max_ips_to_test;
        max_ips_per_stage = max_ips_per_stage;
        batch_size = batch_size;
        pipeline_mode = pipeline_mode;
        shuffled = c.shuffled;
        min_probe_duration = min_probe_duration;
        probe_per_sec = probe_per_sec;
        probe_burst = probe_burst;
      },
      w8,
    )

-- The defaults, but for the probe duration.
default_general-valid :
    (p : Platform) (t : Tier)
    → validate_general (record (default_general p t) { min_probe_duration = pos 50 }) ≡ []
unfolding validate_general check_int check_uint16 check_duration check_prefix check_string
    check_enum check_directory_name duration
default_general-valid server low = refl
default_general-valid server mid = refl
default_general-valid server high = refl
default_general-valid desktop low = refl
default_general-valid desktop mid = refl
default_general-valid desktop high = refl
default_general-valid android low = refl
default_general-valid android mid = refl
default_general-valid android high = refl

normalize_general-valid :
    (def c : GeneralConfig)
    → validate_general (record def { min_probe_duration = pos 50 }) ≡ []
    → let after = (normalize_general def c).0 in
      validate_general after
      ≡ report min_probe_duration_field (general_probe_duration after.min_probe_duration)
unfolding validate_general normalize_general
normalize_general-valid def c h =
    let (p8, r8) = report-none _ probe_burst_field (general_burst def.probe_burst) h in
    let (p7, r7) = report-none _ probe_per_sec_field (general_per_sec def.probe_per_sec) r8 in
    let (p6, r6) = report-none _ min_probe_duration_field (general_probe_duration (pos 50)) r7 in
    let (p5, r5) = report-none _ pipeline_mode_field (general_mode def.pipeline_mode) r6 in
    let (p4, r4) = report-none _ batch_size_field (general_ips def.batch_size) r5 in
    let (p3, r3) = report-none _ max_ips_per_stage_field (general_ips def.max_ips_per_stage) r4 in
    let (p2, r2) = report-none _ max_ips_to_test_field (not_negative def.max_ips_to_test) r3 in
    let (p1, r1) =
      report-none _ max_successful_ips_field (not_negative def.max_successful_ips) r2 in
    let p0 = report-passes status_interval_field (general_status_interval def.status_interval) r1 in
    rw
      (
        fix-passes status_interval_field general_status_interval def.status_interval
            c.status_interval _ p0,
        fix-passes max_successful_ips_field not_negative def.max_successful_ips c.max_successful_ips
            _ p1,
        fix-passes max_ips_to_test_field not_negative def.max_ips_to_test c.max_ips_to_test _ p2,
        fix-passes max_ips_per_stage_field general_ips def.max_ips_per_stage c.max_ips_per_stage _
            p3,
        fix-passes batch_size_field general_ips def.batch_size c.batch_size _ p4,
        fix-passes pipeline_mode_field general_mode def.pipeline_mode c.pipeline_mode _ p5,
        fix-passes probe_per_sec_field general_per_sec def.probe_per_sec c.probe_per_sec _ p7,
        fix-passes probe_burst_field general_burst def.probe_burst c.probe_burst _ p8,
      )
      (simp append-nil)

default_probe_duration :
    (p : Platform) (t : Tier)
    → (p ≢ server) ⊎ (t ≢ high)
    → general_probe_duration (default_general p t).min_probe_duration ≡ none
unfolding check_duration duration
default_probe_duration server low h = refl
default_probe_duration server mid h = refl
default_probe_duration server high (inl h) = absurd (h refl)
default_probe_duration server high (inr h) = absurd (h refl)
default_probe_duration desktop low h = refl
default_probe_duration desktop mid h = refl
default_probe_duration desktop high h = refl
default_probe_duration android low h = refl
default_probe_duration android mid h = refl
default_probe_duration android high h = refl

-- For any section, on every platform and tier but the high tier of a server: what NormalizeGeneral
-- leaves passes ValidateGeneral.
pub normalize_general-repairs :
    (p : Platform) (t : Tier) (c : GeneralConfig)
    → (p ≢ server) ⊎ (t ≢ high)
    → validate_general (normalize_general (default_general p t) c).0 ≡ []
unfolding normalize_general
normalize_general-repairs p t c h =
    let def = default_general p t in
    normalize_general-valid def c (default_general-valid p t)
    ∙ ap (report min_probe_duration_field) (
        fix-passes min_probe_duration_field general_probe_duration def.min_probe_duration
          c.min_probe_duration _ (default_probe_duration p t h))

-- On the high tier of a server, whose default MinProbeDuration is 5 ms, NormalizeGeneral does not
-- repair an invalid MinProbeDuration: ValidateGeneral refuses the replacement too.
pub normalize_general-server_high :
    (c : GeneralConfig) (e : CheckError)
    → general_probe_duration c.min_probe_duration ≡ some e
    → validate_general (normalize_general (default_general server high) c).0
      ≡ (min_probe_duration_field, out_of_range) ∷ []
unfolding normalize_general check_duration duration
normalize_general-server_high c e h =
    normalize_general-valid (default_general server high) c (default_general-valid server high)
    ∙ ap (λ v. report min_probe_duration_field (general_probe_duration v))
        (fix-replaces min_probe_duration_field general_probe_duration (pos 5) c.min_probe_duration _
          e h)

-- The warnings of NormalizeGeneral are the errors of ValidateGeneral, in order, whatever the defaults.
pub normalize_general-warns :
    (def c : GeneralConfig) → (normalize_general def c).1 ≡ validate_general c
unfolding validate_general normalize_general
normalize_general-warns def c = simp (fix-warns, append_assoc)

-- A section that passes ValidateGeneral is left as it is, and without a warning.
pub normalize_general-keeps :
    (def c : GeneralConfig)
    → validate_general c ≡ []
    → let r = normalize_general def c in (r.0 ≡ c) × (r.1 ≡ [])
unfolding validate_general normalize_general
normalize_general-keeps def c h =
    let (p8, r8) = report-none _ probe_burst_field (general_burst c.probe_burst) h in
    let (p7, r7) = report-none _ probe_per_sec_field (general_per_sec c.probe_per_sec) r8 in
    let (p6, r6) =
      report-none _ min_probe_duration_field (general_probe_duration c.min_probe_duration) r7 in
    let (p5, r5) = report-none _ pipeline_mode_field (general_mode c.pipeline_mode) r6 in
    let (p4, r4) = report-none _ batch_size_field (general_ips c.batch_size) r5 in
    let (p3, r3) = report-none _ max_ips_per_stage_field (general_ips c.max_ips_per_stage) r4 in
    let (p2, r2) = report-none _ max_ips_to_test_field (not_negative c.max_ips_to_test) r3 in
    let (p1, r1) = report-none _ max_successful_ips_field (not_negative c.max_successful_ips) r2 in
    let p0 = report-passes status_interval_field (general_status_interval c.status_interval) r1 in
    let same : (normalize_general def c).0 ≡ c =
      rw
        (
          fix-keeps status_interval_field general_status_interval def.status_interval
              c.status_interval _ p0,
          fix-keeps max_successful_ips_field not_negative def.max_successful_ips
              c.max_successful_ips _ p1,
          fix-keeps max_ips_to_test_field not_negative def.max_ips_to_test c.max_ips_to_test _ p2,
          fix-keeps max_ips_per_stage_field general_ips def.max_ips_per_stage c.max_ips_per_stage _
              p3,
          fix-keeps batch_size_field general_ips def.batch_size c.batch_size _ p4,
          fix-keeps pipeline_mode_field general_mode def.pipeline_mode c.pipeline_mode _ p5,
          fix-keeps min_probe_duration_field general_probe_duration def.min_probe_duration
              c.min_probe_duration _ p6,
          fix-keeps probe_per_sec_field general_per_sec def.probe_per_sec c.probe_per_sec _ p7,
          fix-keeps probe_burst_field general_burst def.probe_burst c.probe_burst _ p8,
        )
        refl in
    (same, normalize_general-warns def c ∙ h)
