-- ===== src/Config/Writer.antt =====
-- internal/core/config/writer.go and validate/writer.go: the section on the result writer.
use mathlib.Core.List.{append_assoc}
use bgscan.Base.{ℕ, ◌*◌, ◌≡◌, refl, ◌∙◌, [], ◌++◌, Option, Bool, false}
use bgscan.Config.Platforms.{Platform, android, desktop, server, Tier, low, mid, high}
use bgscan.Config.Texts.{Text, codes}
use bgscan.Config.Checks.{
  ℤ, pos, duration, millisecond, Report, report, report-none, report-passes, CheckError, fix,
  fix-passes, fix-warns, fix-keeps, check_int, check_uint16, check_duration, check_prefix,
  check_string, check_enum, check_directory_name, merge_flush_interval_field, chan_size_field,
  batch_size_field, result_base_dir_field,
}

pub record WriterConfig : Type 0 where
  pub merge_flush_interval : ℤ
  pub chan_size : ℤ
  pub batch_size : ℤ
  pub result_base_dir : Text
  pub ignore_err : Bool

abbrev pub writer_interval : ℤ → Option CheckError
writer_interval v = check_duration (duration v) (100 * millisecond) (300_000 * millisecond)

abbrev pub writer_chan_size : ℤ → Option CheckError
writer_chan_size v = check_int v 1 1_000_000

abbrev pub writer_batch_size : ℤ → Option CheckError
writer_batch_size v = check_int v 1 102_400

-- writerBase.
abbrev pub writer_base : WriterConfig
writer_base = record {
  merge_flush_interval = pos 2000;
  chan_size = pos 0;
  batch_size = pos 0;
  result_base_dir = codes "result";
  ignore_err = false;
}

abbrev pub with_writer : WriterConfig → ℕ → ℕ → WriterConfig
with_writer base chan_size batch_size = record base {
  chan_size = pos chan_size;
  batch_size = pos batch_size;
}

-- DefaultWriterConfig, by what DetectPlatform and SelectTier return.
abbrev pub default_writer : Platform → Tier → WriterConfig
default_writer server low = with_writer writer_base 1024 4096
default_writer server mid = with_writer writer_base 4096 16384
default_writer server high = with_writer writer_base 16384 65536
default_writer desktop low = with_writer writer_base 512 2048
default_writer desktop mid = with_writer writer_base 1024 4096
default_writer desktop high = with_writer writer_base 2048 8192
default_writer android low = with_writer writer_base 128 512
default_writer android mid = with_writer writer_base 256 1024
default_writer android high = with_writer writer_base 512 2048

unfoldable pub validate_writer : WriterConfig → Report
validate_writer c =
    report merge_flush_interval_field (writer_interval c.merge_flush_interval)
    ++ report chan_size_field (writer_chan_size c.chan_size)
    ++ report batch_size_field (writer_batch_size c.batch_size)
    ++ report result_base_dir_field (check_directory_name c.result_base_dir)

-- NormalizeWriter: the section after it, and its warnings.
unfoldable pub normalize_writer : WriterConfig → WriterConfig → WriterConfig × Report
normalize_writer def c =
    let (merge_flush_interval, w0) =
      fix merge_flush_interval_field writer_interval def.merge_flush_interval c.merge_flush_interval
        [] in
    let (chan_size, w1) = fix chan_size_field writer_chan_size def.chan_size c.chan_size w0 in
    let (batch_size, w2) = fix batch_size_field writer_batch_size def.batch_size c.batch_size w1 in
    let (result_base_dir, w3) =
      fix result_base_dir_field check_directory_name def.result_base_dir c.result_base_dir w2 in
    (
      record {
        merge_flush_interval = merge_flush_interval;
        chan_size = chan_size;
        batch_size = batch_size;
        result_base_dir = result_base_dir;
        ignore_err = c.ignore_err;
      },
      w3,
    )

default_writer-valid : (p : Platform) (t : Tier) → validate_writer (default_writer p t) ≡ []
unfolding validate_writer check_int check_uint16 check_duration check_prefix check_string check_enum
    check_directory_name duration
default_writer-valid server low = refl
default_writer-valid server mid = refl
default_writer-valid server high = refl
default_writer-valid desktop low = refl
default_writer-valid desktop mid = refl
default_writer-valid desktop high = refl
default_writer-valid android low = refl
default_writer-valid android mid = refl
default_writer-valid android high = refl

normalize_writer-valid :
    (def c : WriterConfig)
    → validate_writer def ≡ []
    → validate_writer (normalize_writer def c).0 ≡ []
unfolding validate_writer normalize_writer
normalize_writer-valid def c h =
    let (p3, r3) =
      report-none _ result_base_dir_field (check_directory_name def.result_base_dir) h in
    let (p2, r2) = report-none _ batch_size_field (writer_batch_size def.batch_size) r3 in
    let (p1, r1) = report-none _ chan_size_field (writer_chan_size def.chan_size) r2 in
    let p0 =
      report-passes merge_flush_interval_field (writer_interval def.merge_flush_interval) r1 in
    rw
      (
        fix-passes merge_flush_interval_field writer_interval def.merge_flush_interval
            c.merge_flush_interval _ p0,
        fix-passes chan_size_field writer_chan_size def.chan_size c.chan_size _ p1,
        fix-passes batch_size_field writer_batch_size def.batch_size c.batch_size _ p2,
        fix-passes result_base_dir_field check_directory_name def.result_base_dir c.result_base_dir
            _ p3,
      )
      refl

-- On every platform and tier, for any section: what NormalizeWriter leaves passes ValidateWriter.
pub normalize_writer-repairs :
    (p : Platform) (t : Tier) (c : WriterConfig)
    → validate_writer (normalize_writer (default_writer p t) c).0 ≡ []
normalize_writer-repairs p t c =
    normalize_writer-valid (default_writer p t) c (default_writer-valid p t)

-- The warnings of NormalizeWriter are the errors of ValidateWriter, in order, whatever the defaults.
pub normalize_writer-warns : (def c : WriterConfig) → (normalize_writer def c).1 ≡ validate_writer c
unfolding validate_writer normalize_writer
normalize_writer-warns def c = simp (fix-warns, append_assoc)

-- A section that passes ValidateWriter is left as it is, and without a warning.
pub normalize_writer-keeps :
    (def c : WriterConfig)
    → validate_writer c ≡ []
    → let r = normalize_writer def c in (r.0 ≡ c) × (r.1 ≡ [])
unfolding validate_writer normalize_writer
normalize_writer-keeps def c h =
    let (p3, r3) = report-none _ result_base_dir_field (check_directory_name c.result_base_dir) h in
    let (p2, r2) = report-none _ batch_size_field (writer_batch_size c.batch_size) r3 in
    let (p1, r1) = report-none _ chan_size_field (writer_chan_size c.chan_size) r2 in
    let p0 = report-passes merge_flush_interval_field (writer_interval c.merge_flush_interval) r1 in
    let same : (normalize_writer def c).0 ≡ c =
      rw
        (
          fix-keeps merge_flush_interval_field writer_interval def.merge_flush_interval
              c.merge_flush_interval _ p0,
          fix-keeps chan_size_field writer_chan_size def.chan_size c.chan_size _ p1,
          fix-keeps batch_size_field writer_batch_size def.batch_size c.batch_size _ p2,
          fix-keeps result_base_dir_field check_directory_name def.result_base_dir c.result_base_dir
              _ p3,
        )
        refl in
    (same, normalize_writer-warns def c ∙ h)
