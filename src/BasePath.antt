-- ===== src/BasePath.antt =====
-- app/base_path.py: the mount path behind a proxy. Texts are lists of their code points; `none` of a
-- check is `BasePathConfigurationError`. The reading of a list header (`parse_list_header` of Werkzeug)
-- is an argument, as its values.
mod Segments
pub mod Paths
pub mod Sources
mod Tests
use docsight.Prelude.{
  ℕ, zero, suc, ◌+◌, ◌-◌, ◌*◌, ◌≤◌, Bool, true, false, not, ◌&&◌, ◌||◌, Option, none, some, List,
  [], ◌∷◌, ◌++◌, map, length, any, keep, ltb, leb, ◌==◌, if◌then◌else◌,
}
use docsight.Values.{codes, is_space, is_digit}
use docsight.Docsis.{same_codes}

-- `_MAX_BASE_PATH_LENGTH`
abbrev pub max_base_path_length : ℕ
max_base_path_length = 1024

-- `_MAX_SEGMENT_LENGTH`
abbrev pub max_segment_length : ℕ
max_segment_length = 128

-- `_MAX_TRUSTED_PREFIX_HOPS`
abbrev pub max_trusted_prefix_hops : ℕ
max_trusted_prefix_hops = 32

-- `_SEGMENT_CHARACTERS`
abbrev pub is_segment_character : ℕ → Bool
is_segment_character c =
    leb 65 c && leb c 90
    || leb 97 c && leb c 122
    || is_digit c
    || (c == b'.' || c == b'_' || c == b'~' || c == b'-')

abbrev pub all_of : (ℕ → Bool) → List ℕ → Bool
all_of p [] = true
all_of p (c ∷ s) = p c && all_of p s

abbrev pub is_empty : List ℕ → Bool
is_empty [] = true
is_empty (c ∷ s) = false

-- `_valid_segment`
unfoldable pub valid_segment : List ℕ → Bool
valid_segment s =
    not (is_empty s)
    && leb (length s) max_segment_length
    && not (same_codes s (codes ".") || same_codes s (codes ".."))
    && all_of is_segment_character s

abbrev pub starts_with_slash : List ℕ → Bool
starts_with_slash [] = false
starts_with_slash (c ∷ s) = c == b'/'

-- A test of the last character.
abbrev pub last_is : (ℕ → Bool) → List ℕ → Bool
last_is p [] = false
last_is p (c ∷ []) = p c
last_is p (c ∷ d ∷ s) = last_is p (d ∷ s)

-- `value != value.strip()`, by the two ends.
abbrev pub has_outer_space : List ℕ → Bool
has_outer_space [] = false
has_outer_space (c ∷ s) = is_space c || last_is is_space (c ∷ s)

abbrev pub is_control : ℕ → Bool
is_control c = ltb c 32 || c == 127

-- The one-character markers that a path must not have.
abbrev pub is_marker : ℕ → Bool
is_marker c = c == b'\\' || c == b'%' || c == b'?' || c == b'#'

unfoldable pub has_double_slash : List ℕ → Bool
has_double_slash [] = false
has_double_slash (c ∷ []) = false
has_double_slash (c ∷ d ∷ s) = c == b'/' && d == b'/' || has_double_slash (d ∷ s)

abbrev pub to_first : ℕ → List (List ℕ) → List (List ℕ)
to_first c [] = (c ∷ []) ∷ []
to_first c (g ∷ gs) = (c ∷ g) ∷ gs

-- `split("/")`
unfoldable pub split : List ℕ → List (List ℕ)
split [] = [] ∷ []
split (c ∷ s) = let rest = split s in if c == b'/' then [] ∷ rest else to_first c rest

abbrev pub drop_one : List ℕ → List ℕ
drop_one [] = []
drop_one (c ∷ s) = s

abbrev pub all_valid : List (List ℕ) → Bool
all_valid [] = true
all_valid (g ∷ gs) = valid_segment g && all_valid gs

-- The checks of a path, in their order.
unfoldable pub check_path : List ℕ → Option (List ℕ)
check_path v =
    if ltb max_base_path_length (length v)
    then none
    else if has_outer_space v || not (starts_with_slash v) || last_is (λ c. c == b'/') v
    then none
    else if any is_control v
    then none
    else if any is_marker v || has_double_slash v
    then none
    else if not (all_valid (split (drop_one v)))
    then none
    else some v

-- `normalize_base_path`
unfoldable pub normalize_base_path : Option (List ℕ) → Option (List ℕ)
normalize_base_path none = some []
normalize_base_path (some v) =
    if is_empty v || same_codes v (codes "/") then some [] else check_path v

-- `int` of a text of digits
abbrev pub int_of : ℕ → List ℕ → ℕ
int_of n [] = n
int_of n (c ∷ s) = int_of (n * 10 + (c - 48)) s

-- `0` or digits without a leading zero.
abbrev pub is_hops : List ℕ → Bool
is_hops [] = false
is_hops (c ∷ s) = c == b'0' && is_empty s || (leb 49 c && leb c 57) && all_of is_digit s

-- `parse_trusted_prefix_hops`
unfoldable pub parse_trusted_prefix_hops : Option (List ℕ) → Option ℕ
parse_trusted_prefix_hops none = some 0
parse_trusted_prefix_hops (some []) = some 0
parse_trusted_prefix_hops (some (c ∷ s)) =
    if is_hops (c ∷ s)
    then (if ltb max_trusted_prefix_hops (int_of 0 (c ∷ s)) then none else some (int_of 0 (c ∷ s)))
    else none

-- The n-th value from the end, from 1.
abbrev pub from_end : ℕ → List (List ℕ) → List ℕ
from_end n [] = []
from_end n (v ∷ vs) = let rest = from_end n vs in if n == suc (length vs) then v else rest

abbrev pub or_none : List ℕ → Option (List ℕ)
or_none [] = none
or_none (c ∷ s) = some (c ∷ s)

-- `_trusted_header_value`, by the values of the header.
unfoldable pub trusted_header_value : ℕ → List (List ℕ) → Option (List ℕ)
trusted_header_value hops values =
    if hops == 0
    then none
    else if leb hops (length values)
    then or_none (from_end hops values)
    else none

pub record Middleware : Type 0 where
  pub fixed_prefix : Option (List ℕ)
  pub trusted_hops : ℕ

-- A request is refused, or passed on with its SCRIPT_NAME.
pub data Answer : Type 0 where
  bad_request : Answer
  passed : List ℕ → Answer

abbrev pub agrees : List ℕ → Option (List ℕ) → Bool
agrees p none = true
agrees p (some q) = same_codes p q

-- Whether the sources that are there are one path, and the first of them.
abbrev pub chosen : Option (List ℕ) → Option (List ℕ) → Option (List ℕ) → Answer
chosen none none none = passed []
chosen none none (some c) = passed c
chosen none (some b) c = if agrees b c then passed b else bad_request
chosen (some a) b c = if agrees a b && agrees a c then passed a else bad_request

-- A source that has to be a path where it is there; the outer `none` is the error.
abbrev pub as_source : Option (List ℕ) → Option (Option (List ℕ))
as_source none = none
as_source (some p) = some (some p)

abbrev pub normalized : Option (List ℕ) → Option (Option (List ℕ))
normalized none = some none
normalized (some v) = as_source (normalize_base_path (some v))

abbrev pub answer_of :
    Option (List ℕ) → Option (Option (List ℕ)) → Option (Option (List ℕ)) → Answer
answer_of prefix none selected = bad_request
answer_of prefix (some existing) none = bad_request
answer_of prefix (some existing) (some selected) = chosen prefix selected existing

abbrev pub is_none : Option (List ℕ) → Bool
is_none none = true
is_none (some v) = false

-- `BasePathMiddleware.__call__`, by the SCRIPT_NAME of the request and the values of its header.
unfoldable pub call : Middleware → List ℕ → List (List ℕ) → Answer
call m existing_raw values =
    let selected_raw = trusted_header_value m.trusted_hops values in
    if not (m.trusted_hops == 0) && is_none selected_raw
    then bad_request
    else answer_of m.fixed_prefix (normalized (or_none existing_raw)) (normalized selected_raw)
