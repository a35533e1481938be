-- ===== src/Process/Search/Candidates.antt =====
-- The search finds the first file that can be run.
use mmlib.Base.{
  ℕ, zero, suc, ◌+◌, ◌<◌, ◌≡◌, refl, sym, ◌∙◌, ap, Bool, true, false, not, ◌||◌, ◌&&◌, ltb, Option,
  none, some, List, [], ◌∷◌, ◌++◌, arith, Bool-cases, inl, inr, length, take, drop, if◌then◌else◌,
}
use mmlib.Base.CString.{Bytes, codes}
use mmlib.Process.Search.{
  Access, granted, denied, absent, failed, no_memory, path_len, Found, found, not_found,
  check_candidate, next_component, dir_length, skip_semicolon, search_exts, try_exts, search_loop,
  search_bin_in_path,
}
use mmlib.Process.Search.Components.{
  components, components-dir_length, length-rest, length-take_dir,
}

-- In each component the name as it is, and then with the extension.
abbrev pub candidates : (base : Bytes) → List Bytes → List Bytes
candidates base [] = []
candidates base (dir ∷ dirs) =
    ((dir ++ (0x5c ∷ base)) ++ codes "")
    ∷ ((dir ++ (0x5c ∷ base)) ++ codes ".exe")
    ∷ candidates base dirs

-- The components before the first one for whose paths there is no memory, and whether all of them are. The buffer
-- grows where a path is longer than those before, by the separator, ".exe" and the terminator.
abbrev pub readable :
    (resize : ℕ → Bool) → (base : Bytes) → (room : ℕ) → List Bytes → List Bytes × Bool
readable resize base room [] = ([], true)
readable resize base room (dir ∷ dirs) =
    let len = length dir + length base + 6 in
    let (others, all) = readable resize base (if ltb room len then len else room) dirs in
    if ltb room len && not (resize len) then ([], false) else (dir ∷ others, all)

abbrev or_first : Access → Bytes → Option Bytes → Option Bytes
or_first granted file rest = some file
or_first _ file rest = rest

abbrev is_denied : Access → Bool
is_denied denied = true
is_denied _ = false

-- The first file that can be run.
abbrev pub first_granted : (access : Bytes → Access) → List Bytes → Option Bytes
first_granted access [] = none
first_granted access (file ∷ files) = or_first (access file) file (first_granted access files)

-- Whether the system denies running one of them.
abbrev pub any_denied : (access : Bytes → Access) → List Bytes → Bool
any_denied access [] = false
any_denied access (file ∷ files) = is_denied (access file) || any_denied access files

abbrev pub answer : Option Bytes → (all is_denied : Bool) → Found
answer (some file) all is_denied = found file
answer none true is_denied = not_found is_denied
answer none false is_denied = no_memory

abbrev outcome :
    (resize : ℕ → Bool)
    → (access : Bytes → Access) → (base : Bytes) → (room : ℕ) → List Bytes
    → (error : Bool) → Found
outcome resize access base room dirs error =
    let (searched, all) = readable resize base room dirs in
    let files = candidates base searched in
    answer (first_granted access files) all (error || any_denied access files)

-- What follows the extensions of one component.
abbrev after_exts : Found → (Bool → Found) → Found
after_exts (found file) next = found file
after_exts (not_found error) next = next error
after_exts no_memory next = no_memory

check_candidate-answer :
    (a : Access) (file : Bytes) (error : Bool) (rest : Option Bytes) (all other : Bool)
    → answer (or_first a file rest) all (error || (is_denied a || other))
      ≡ check_candidate a file error (λ e. answer rest all (e || other))
check_candidate-answer granted file error rest all other = refl
check_candidate-answer denied file true rest all other = refl
check_candidate-answer denied file false rest all other = refl
check_candidate-answer absent file error rest all other = refl
check_candidate-answer failed file error rest all other = refl

check_one :
    (a : Access) (file : Bytes) (error : Bool) (next : Bool → Found)
    → check_candidate a file error next ≡ after_exts (check_candidate a file error not_found) next
check_one granted file error next = refl
check_one denied file error next = refl
check_one absent file error next = refl
check_one failed file error next = refl

-- Both candidates of a component.
check_two :
    (a b : Access) (file other : Bytes) (error : Bool) (rest : Option Bytes) (all more : Bool)
    → answer
        (or_first a file (or_first b other rest))
        all
        (error || (is_denied a || (is_denied b || more)))
      ≡ after_exts
          (check_candidate a file error (λ e. check_candidate b other e not_found))
          (λ e. answer rest all (e || more))
check_two a b file other error rest all more =
    check_candidate-answer a file error (or_first b other rest) all (is_denied b || more) ∙ second a
  where
    one :
        (e : Bool)
        → answer (or_first b other rest) all (e || (is_denied b || more))
          ≡ after_exts (check_candidate b other e not_found) (λ e. answer rest all (e || more))
    one e =
        check_candidate-answer b other e rest all more
        ∙ check_one b other e (λ e. answer rest all (e || more))

    second :
        (a : Access)
        → check_candidate a file error
            (λ e. answer (or_first b other rest) all (e || (is_denied b || more)))
          ≡ after_exts
              (check_candidate a file error (λ e. check_candidate b other e not_found))
              (λ e. answer rest all (e || more))
    second granted = refl
    second denied = one true
    second absent = one error
    second failed = one error

next_component-after_exts :
    (r : Found) (next : Bool → Option Found) (other : Bool → Found)
    → ((error : Bool) → next error ≡ some (other error))
    → next_component r next ≡ some (after_exts r other)
next_component-after_exts (found file) next other h = refl
next_component-after_exts (not_found error) next other h = h error
next_component-after_exts no_memory next other h = refl

-- One component of length `d`: the memory for it, and its candidates.
abbrev component :
    (resize : ℕ → Bool)
    → (access : Bytes → Access) → (base : Bytes) → (room d : ℕ) → (dir : Bytes) → List Bytes
    → (error : Bool) → Found
component resize access base room d dir dirs error =
    let len = d + length base + 6 in
    if ltb room len && not (resize len)
    then no_memory
    else after_exts (try_exts access (dir ++ (0x5c ∷ base)) search_exts error)
        (λ e. outcome resize access base (if ltb room len then len else room) dirs e)

outcome-component :
    (resize : ℕ → Bool) (access : Bytes → Access) (base : Bytes) (room : ℕ) (dir : Bytes)
    (dirs : List Bytes) (error : Bool)
    → outcome resize access base room (dir ∷ dirs) error
      ≡ component resize access base room (length dir) dir dirs error
unfolding try_exts
outcome-component resize access base room dir dirs error =
    let len = length dir + length base + 6 in
    let path = dir ++ (0x5c ∷ base) in
    let (others, all) = readable resize base (if ltb room len then len else room) dirs in
    let files = candidates base others in
    elim (Bool-cases (ltb room len && not (resize len))) [
      | inl e ↦ rw e refl
      | inr e ↦ rw e (
          check_two (access (path ++ codes "")) (access (path ++ codes ".exe")) (path ++ codes "")
            (path ++ codes ".exe") error (first_granted access files) all (any_denied access files))
    ]

if_some :
    (full : Bool) (x : Option Found) (y z : Found)
    → x ≡ some y
    → (if full then some z else x) ≡ some (if full then z else y)
if_some true x y z h = refl
if_some false x y z h = h

search_loop-outcome :
    (fuel : ℕ) (resize : ℕ → Bool) (access : Bytes → Access) (base dir : Bytes) (room : ℕ)
    (error : Bool)
    → length dir < fuel
    → search_loop fuel resize access base dir room error
      ≡ some (outcome resize access base room (components dir) error)
unfolding search_loop
search_loop-outcome zero resize access base dir room error h = absurd (omega arith)
search_loop-outcome (suc fuel) resize access base [] room error h = ground arith
search_loop-outcome (suc fuel) resize access base (c ∷ dir) room error h =
    let d = dir_length (c ∷ dir) in
    let rest = skip_semicolon (drop d (c ∷ dir)) in
    let first = take d (c ∷ dir) in
    let len = path_len d base in
    let wider = if ltb room len then len else room in
    let exts = try_exts access (first ++ (0x5c ∷ base)) search_exts error in
    if_some (ltb room len && not (resize len)) _ _ no_memory (
      next_component-after_exts exts (λ e. search_loop fuel resize access base rest wider e)
        (λ e. outcome resize access base wider (components rest) e)
        (λ e.
          search_loop-outcome fuel resize access base rest wider e
            (omega (arith, length-rest c dir))))
    ∙ ap (λ n. some (component resize access base room n first (components rest) error))
        (sym (length-take_dir (c ∷ dir)))
    ∙ ap some (sym (outcome-component resize access base room first (components rest) error))
    ∙ ap (λ dirs. some (outcome resize access base room dirs error))
        (sym (components-dir_length c dir))

-- The search by pointers into PATH ends, and comes to the first file that can be run among the candidates,
-- which are the name and the name with ".exe" in each component of PATH in turn, up to a component for
-- whose paths the buffer must grow and cannot; if there is none, the error is that of the memory where
-- there is such a component, else EACCES if running one of the candidates is denied, and else ENOENT.
pub search_bin_in_path-first_granted :
    (resize : ℕ → Bool) (access : Bytes → Access) (path base : Bytes)
    → let (dirs, all) = readable resize base 0 (components path) in
      let files = candidates base dirs in
      search_bin_in_path resize access path base
      ≡ some (answer (first_granted access files) all (any_denied access files))
unfolding search_bin_in_path
search_bin_in_path-first_granted resize access path base =
    search_loop-outcome (length path + 1) resize access base path 0 false (omega arith)
