-- ===== src/Errors/Examples.antt =====
-- An error raised with and without MM_ERROR_IGNORE.
use mmlib.Base.{ℕ, ◌≡◌, refl, Bool, false, none, some, [], ◌∷◌, ◌==◌, take, length, if◌then◌else◌}
use mmlib.Base.Int.{pos}
use mmlib.Base.CString.{codes}
use mmlib.Errors.{
  Errors, Logging, Raised, mm_raise_error_vfull, mm_save_errorstate, mm_set_errorstate,
  mm_get_lasterror_number, mm_get_lasterror_desc, mm_get_lasterror_location, mm_get_lasterror_extid,
  mm_get_lasterror_module, source_location, or_text,
}
use mmlib.Log.{log_fails, write_fails, format_log_str}
use mmlib.Errors.Raise.{raised_errno, mm_raise_error_vfull_lem}

abbrev no_error : (ℕ → Bool) → Errors
no_error flags = record {
  last_error = record {
    flags = flags;
    errnum = pos 0;
    extended_id = [];
    module_name = [];
    location = [];
    desc = [];
  };
  errno = pos 0;
  log = [];
  overrun = false;
}

abbrev usual : Errors
usual = no_error (λ i. false)

abbrev ignoring : Errors
ignoring = no_error (λ i. i == 0)

abbrev logging : Logging
logging = record {
  maxloglvl = pos 3;
  timestamp = codes "01/01/26 10:00:00";
  results = some 80 ∷ [];
  write_errno = λ errno. pos 5;
}

-- Nothing can be written.
abbrev broken_log : Logging
broken_log = record {
  maxloglvl = pos 3;
  timestamp = codes "01/01/26 10:00:00";
  results = none ∷ [];
  write_errno = λ errno. pos 5;
}

abbrev missing_file : Raised
missing_file = record {
  errnum = pos 2;
  module_name = some (codes "demo");
  func = some (codes "main");
  srcfile = none;
  srcline = codes "7";
  extid = none;
  desc = codes "no such file";
}

mm_raise_error_vfull_lem_example :
    let t = mm_raise_error_vfull broken_log usual missing_file in
    let id = take 63 (or_text missing_file.extid []) in
    (mm_get_lasterror_number t ≡ pos 2)
    × (mm_get_lasterror_desc t ≡ take 255 (codes "no such file"))
    × (mm_get_lasterror_location t ≡ take 255 (source_location missing_file))
    × (mm_get_lasterror_module t ≡ take 31 (or_text missing_file.module_name (codes "unknown")))
    × (mm_get_lasterror_extid t ≡ (if length id == 0 then none else some id))
    × (t.errno ≡ raised_errno broken_log usual missing_file)
    × ((i : ℕ) → t.last_error.flags i ≡ false)
    × (mm_raise_error_vfull broken_log ignoring missing_file ≡ ignoring)
    × (mm_get_lasterror_desc (mm_set_errorstate usual (mm_save_errorstate t))
        ≡ take 255 (codes "no such file"))
    × ((mm_set_errorstate usual (mm_save_errorstate t)).errno ≡ pos 2)
mm_raise_error_vfull_lem_example =
    mm_raise_error_vfull_lem broken_log usual ignoring usual missing_file refl refl

-- The error of the write takes the place of the error's number.
raised_errno_runs :
    (raised_errno broken_log usual missing_file ≡ pos 5)
    × (raised_errno logging usual missing_file ≡ pos 2)
unfolding log_fails write_fails format_log_str
raised_errno_runs = (refl, refl)
