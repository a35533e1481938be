-- ===== src/Errors/Raise.antt =====
-- What is left of an error that was raised.
use mmlib.Base.{
  ℕ, ◌≡◌, refl, sym, subst, ◌∙◌, ap, true, false, inl, inr, Bool-cases, Option, none, some, [], ◌∷◌,
  ◌++◌, ◌==◌, length, take, if◌then◌else◌,
}
use mmlib.Base.Int.{ℤ, pos}
use mmlib.Base.CString.{Bytes, codes}
use mmlib.Log.{log_error, mm_log, log_fails}
use mmlib.Errors.{
  ErrorInfo, Errors, Logging, Raised, mm_error_set_flags, mm_raise_error_vfull, mm_save_errorstate,
  mm_set_errorstate, mm_get_lasterror_number, mm_get_lasterror_desc, mm_get_lasterror_location,
  mm_get_lasterror_extid, mm_get_lasterror_module, raised_info, set_error, source_location, or_text,
  errno_after, log_raised, log_message, add_log, with_errno,
}

add_log-last_error : (s : Errors) (line : Option Bytes) → (add_log s line).last_error ≡ s.last_error
add_log-last_error s none = refl
add_log-last_error s (some line) = refl

add_log-errno : (s : Errors) (line : Option Bytes) → (add_log s line).errno ≡ s.errno
add_log-errno s none = refl
add_log-errno s (some line) = refl

-- The same error, with the same flags.
record IsSame (a b : ErrorInfo) : Type 0 where
  errnum : a.errnum ≡ b.errnum
  extended_id : a.extended_id ≡ b.extended_id
  module_name : a.module_name ≡ b.module_name
  location : a.location ≡ b.location
  desc : a.desc ≡ b.desc
  flags : (i : ℕ) → a.flags i ≡ b.flags i

-- What mm_log leaves of errno.
abbrev pub errno_behind : Logging → Errors → (name : Bytes) → ℤ
errno_behind l s name =
    if log_fails l.maxloglvl (pos log_error) l.timestamp name (log_message s.last_error) l.results
    then l.write_errno s.errno
    else s.errno

-- Logging leaves the error, and the flags are as before.
log_raised-IsSame :
    (l : Logging) (s : Errors) (name : Bytes) → IsSame (log_raised l s name).last_error s.last_error
unfolding mm_error_set_flags
log_raised-IsSame l s name =
    let quiet = (mm_error_set_flags s (λ i. true) (λ i. i == 0)).0 in
    let line =
      mm_log l.maxloglvl (pos log_error) l.timestamp name (log_message s.last_error) l.results in
    let kept = add_log-last_error (with_errno quiet (errno_behind l s name)) line in
    record {
      errnum = ap (λ info. info.errnum) kept;
      extended_id = ap (λ info. info.extended_id) kept;
      module_name = ap (λ info. info.module_name) kept;
      location = ap (λ info. info.location) kept;
      desc = ap (λ info. info.desc) kept;
      flags = λ i. elim (Bool-cases (i == 0)) [
        | inl first ↦ rw first refl
        | inr other ↦ rw other (ap (λ info. info.flags i) kept ∙ rw other refl)
      ];
    }

log_raised-errno :
    (l : Logging) (s : Errors) (name : Bytes) → (log_raised l s name).errno ≡ errno_behind l s name
unfolding mm_error_set_flags
log_raised-errno l s name =
    let quiet = (mm_error_set_flags s (λ i. true) (λ i. i == 0)).0 in
    add_log-errno (with_errno quiet (errno_behind l s name))
      (mm_log l.maxloglvl (pos log_error) l.timestamp name (log_message s.last_error) l.results)

-- The state after a raise, with and without a log.
raise-quiet :
    (l : Logging) (s : Errors) (r : Raised)
    → s.last_error.flags 0 ≡ false
    → s.last_error.flags 1 ≡ true
    → mm_raise_error_vfull l s r ≡ set_error s r
unfolding mm_raise_error_vfull
raise-quiet l s r h k =
    let logged = log_raised l (set_error s r) (or_text r.module_name (codes "unknown")) in
    ap (λ b. if b then s else if s.last_error.flags 1 then set_error s r else logged) h
    ∙ ap (λ b. if b then set_error s r else logged) k

raise-logs :
    (l : Logging) (s : Errors) (r : Raised)
    → s.last_error.flags 0 ≡ false
    → s.last_error.flags 1 ≡ false
    → mm_raise_error_vfull l s r
      ≡ log_raised l (set_error s r) (or_text r.module_name (codes "unknown"))
unfolding mm_raise_error_vfull
raise-logs l s r h k =
    let logged = log_raised l (set_error s r) (or_text r.module_name (codes "unknown")) in
    ap (λ b. if b then s else if s.last_error.flags 1 then set_error s r else logged) h
    ∙ ap (λ b. if b then set_error s r else logged) k

raise-ignored :
    (l : Logging) (s : Errors) (r : Raised)
    → s.last_error.flags 0 ≡ true
    → mm_raise_error_vfull l s r ≡ s
unfolding mm_raise_error_vfull
raise-ignored l s r h =
    let logged = log_raised l (set_error s r) (or_text r.module_name (codes "unknown")) in
    ap (λ b. if b then s else if s.last_error.flags 1 then set_error s r else logged) h

-- errno behind a raise that is not ignored, with the number set first.
abbrev pub raised_errno : Logging → Errors → Raised → ℤ
raised_errno l s r =
    let errno = errno_after s.errno r.errnum in
    let name = or_text r.module_name (codes "unknown") in
    let msg = take 255 r.desc ++ (b' ' ∷ b'(' ∷ (take 255 (source_location r) ++ (b')' ∷ []))) in
    if s.last_error.flags 1
    then errno
    else if log_fails l.maxloglvl (pos log_error) l.timestamp name msg l.results
    then l.write_errno errno
    else errno

abbrev Sets : Logging → Errors → Raised → Errors → Type 0
Sets l s r t =
    IsSame t.last_error (raised_info s.last_error.flags r) × (t.errno ≡ raised_errno l s r)

raise-Sets :
    (l : Logging) (s : Errors) (r : Raised)
    → s.last_error.flags 0 ≡ false
    → Sets l s r (mm_raise_error_vfull l s r)
raise-Sets l s r h = elim (Bool-cases (s.last_error.flags 1)) [
  | inl quiet ↦ subst (Sets l s r) (sym (raise-quiet l s r h quiet)) (
    record {
      errnum = refl;
      extended_id = refl;
      module_name = refl;
      location = refl;
      desc = refl;
      flags = λ i. refl;
    },
    rw quiet refl,
  )
  | inr logs ↦
      let name = or_text r.module_name (codes "unknown") in
      subst (Sets l s r) (sym (raise-logs l s r h logs)) (
        log_raised-IsSame l (set_error s r) name,
        log_raised-errno l (set_error s r) name
            ∙ sym (
                ap
                  (λ b.
                    if b then errno_after s.errno r.errnum else errno_behind l (set_error s r) name)
                  logs),
      )
]

-- A raise where errors are not ignored leaves, whether or not it is logged, the error's number, and its
-- texts cut to their buffers, an empty identifier as none, and the flags as they were; errno is the
-- number unless it is 0, or, where the error is logged and mm_write fails, what that makes of it. Where
-- errors are ignored, the state stays as it is, log and errno included. Restored later, the saved state
-- is the same error, and errno its number.
pub mm_raise_error_vfull_lem :
    (l : Logging) (s ignoring later : Errors) (r : Raised)
    → s.last_error.flags 0 ≡ false
    → ignoring.last_error.flags 0 ≡ true
    → let t = mm_raise_error_vfull l s r in
      let id = take 63 (or_text r.extid []) in
      (mm_get_lasterror_number t ≡ r.errnum)
      × (mm_get_lasterror_desc t ≡ take 255 r.desc)
      × (mm_get_lasterror_location t ≡ take 255 (source_location r))
      × (mm_get_lasterror_module t ≡ take 31 (or_text r.module_name (codes "unknown")))
      × (mm_get_lasterror_extid t ≡ (if length id == 0 then none else some id))
      × (t.errno ≡ raised_errno l s r)
      × ((i : ℕ) → t.last_error.flags i ≡ s.last_error.flags i)
      × (mm_raise_error_vfull l ignoring r ≡ ignoring)
      × (mm_get_lasterror_desc (mm_set_errorstate later (mm_save_errorstate t)) ≡ take 255 r.desc)
      × ((mm_set_errorstate later (mm_save_errorstate t)).errno ≡ r.errnum)
unfolding mm_get_lasterror_number mm_get_lasterror_desc mm_get_lasterror_location
    mm_get_lasterror_module mm_get_lasterror_extid mm_set_errorstate
mm_raise_error_vfull_lem l s ignoring later r h ignores =
    let (same, errno) = raise-Sets l s r h in
    (
      same.errnum,
      same.desc,
      same.location,
      same.module_name,
      ap (λ id. if length id == 0 then none else some id) same.extended_id,
      errno,
      same.flags,
      raise-ignored l ignoring r ignores,
      same.desc,
      same.errnum,
    )
