-- ===== src/Errors.antt =====
-- src/error.c, the error state of a thread, over the log of src/log.c. Texts that the C library formats (the
-- description, the number of a line) come as they are formatted, and so do the results of mm_write; an error that
-- mm_log raises is ignored, as the flags say while it runs, but what a failing write makes of errno stays.
pub mod Raise
mod Examples
use mmlib.Base.{
  ℕ, zero, suc, ◌+◌, ◌-◌, Bool, true, false, ◌&&◌, Option, none, some, List, [], ◌∷◌, ◌++◌, ◌==◌,
  length, take, if◌then◌else◌,
}
use mmlib.Base.Int.{ℤ, pos, negsuc}
use mmlib.Base.CString.{Bytes, codes}
use mmlib.Log.{log_error, mm_log, log_fails}

-- The bits of an int.
abbrev pub Flags : Type 0
Flags = ℕ → Bool

-- MM_ERROR_IGNORE and MM_ERROR_NOLOG are the bits 0 and 1.
abbrev pub error_ignore : Flags
error_ignore i = i == 0

abbrev pub error_set : Flags
error_set i = true

pub record ErrorInfo : Type 0 where
  pub flags : Flags
  pub errnum : ℤ
  pub extended_id : Bytes
  pub module_name : Bytes
  pub location : Bytes
  pub desc : Bytes

-- The state of a thread, and what was written to the log; `overrun` says whether mm_log wrote behind its buffer.
pub record Errors : Type 0 where
  pub last_error : ErrorInfo
  pub errno : ℤ
  pub log : Bytes
  pub overrun : Bool

abbrev with_flags : ErrorInfo → Flags → ErrorInfo
with_flags info flags = record {
  flags = flags;
  errnum = info.errnum;
  extended_id = info.extended_id;
  module_name = info.module_name;
  location = info.location;
  desc = info.desc;
}

abbrev pub with_info : Errors → ErrorInfo → Errors
with_info s info = record { last_error = info; errno = s.errno; log = s.log; overrun = s.overrun }

-- `(mask & flags) | (~mask & previous)`, and the previous flags.
unfoldable pub mm_error_set_flags : Errors → (flags mask : Flags) → Errors × Flags
mm_error_set_flags s flags mask =
    let previous = s.last_error.flags in
    (with_info s (with_flags s.last_error (λ i. if mask i then flags i else previous i)), previous)

-- What is known of the log, what mm_write will return, and what it makes of errno where it fails.
pub record Logging : Type 0 where
  pub maxloglvl : ℤ
  pub timestamp : Bytes
  pub results : List (Option ℕ)
  pub write_errno : ℤ → ℤ

abbrev with_errno : Errors → ℤ → Errors
with_errno s errno = record {
  last_error = s.last_error;
  errno = errno;
  log = s.log;
  overrun = s.overrun;
}

abbrev add_log : Errors → Option Bytes → Errors
add_log s none = record { last_error = s.last_error; errno = s.errno; log = s.log; overrun = true }
add_log s (some line) = record {
  last_error = s.last_error;
  errno = s.errno;
  log = s.log ++ line;
  overrun = s.overrun;
}

abbrev pub or_text : Option Bytes → Bytes → Bytes
or_text none text = text
or_text (some s) text = s

-- The arguments of a raise.
pub record Raised : Type 0 where
  pub errnum : ℤ
  pub module_name : Option Bytes
  pub func : Option Bytes
  pub srcfile : Option Bytes
  pub srcline : Bytes
  pub extid : Option Bytes
  pub desc : Bytes

-- "%s() in %s:%i"
abbrev pub source_location : Raised → Bytes
source_location r =
    or_text r.func (codes "unknown")
    ++ (codes "() in " ++ (or_text r.srcfile (codes "unknown") ++ (b':' ∷ r.srcline)))

-- The fields are as long as their buffers, less the terminator.
abbrev pub raised_info : Flags → Raised → ErrorInfo
raised_info flags r = record {
  flags = flags;
  errnum = r.errnum;
  extended_id = take 63 (or_text r.extid []);
  module_name = take 31 (or_text r.module_name (codes "unknown"));
  location = take 255 (source_location r);
  desc = take 255 r.desc;
}

-- "%s (%s)"
abbrev pub log_message : ErrorInfo → Bytes
log_message info = info.desc ++ (b' ' ∷ b'(' ∷ (info.location ++ (b')' ∷ [])))

abbrev pub errno_after : (errno errnum : ℤ) → ℤ
errno_after errno (pos zero) = errno
errno_after errno errnum = errnum

-- The log of a raise, with errors ignored meanwhile.
abbrev log_raised : Logging → Errors → (name : Bytes) → Errors
log_raised l s name =
    let (quiet, flags) = mm_error_set_flags s error_set error_ignore in
    let msg = log_message s.last_error in
    let written = with_errno quiet (
      if log_fails l.maxloglvl (pos log_error) l.timestamp name msg l.results
      then l.write_errno s.errno
      else s.errno) in
    let logged =
      add_log written (mm_log l.maxloglvl (pos log_error) l.timestamp name msg l.results) in
    (mm_error_set_flags logged flags error_ignore).0

-- The state once its fields are set.
abbrev pub set_error : Errors → Raised → Errors
set_error s r = record {
  last_error = raised_info s.last_error.flags r;
  errno = errno_after s.errno r.errnum;
  log = s.log;
  overrun = s.overrun;
}

unfoldable pub mm_raise_error_vfull : Logging → Errors → Raised → Errors
mm_raise_error_vfull l s r =
    if s.last_error.flags 0
    then s
    else if s.last_error.flags 1
    then set_error s r
    else log_raised l (set_error s r) (or_text r.module_name (codes "unknown"))

abbrev pub mm_save_errorstate : Errors → ErrorInfo
mm_save_errorstate s = s.last_error

unfoldable pub mm_set_errorstate : Errors → ErrorInfo → Errors
mm_set_errorstate s state = record {
  last_error = state;
  errno = state.errnum;
  log = s.log;
  overrun = s.overrun;
}

unfoldable pub mm_get_lasterror_number : Errors → ℤ
mm_get_lasterror_number s = s.last_error.errnum

unfoldable pub mm_get_lasterror_desc : Errors → Bytes
mm_get_lasterror_desc s = s.last_error.desc

unfoldable pub mm_get_lasterror_location : Errors → Bytes
mm_get_lasterror_location s = s.last_error.location

unfoldable pub mm_get_lasterror_extid : Errors → Option Bytes
mm_get_lasterror_extid s =
    if length s.last_error.extended_id == 0 then none else some s.last_error.extended_id

unfoldable pub mm_get_lasterror_module : Errors → Bytes
mm_get_lasterror_module s = s.last_error.module_name
