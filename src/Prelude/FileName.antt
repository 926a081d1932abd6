-- ===== src/Prelude/FileName.antt =====
-- Texts made into file names: `re.compile(r"[^A-Za-z0-9_.-]+").sub("-", s)` and `.strip(".-")`.
use Prim.Native.Nat.{ℕ}
use Prim.Native.Char.{code}
use Prim.Native.String.{String}
use mathlib.Core.Path.{◌≡◌, refl}
use mathlib.Core.Logic.{inl, inr}
use mathlib.Core.Bool.{Bool, true, false, not, ◌&&◌, ◌||◌}
use native.Mathlib.Omega.{arith}
use azure_mysql_monitoring.Prelude.Tests.{leb, eqb, if◌then◌else◌, Bool-cases}
use azure_mysql_monitoring.Prelude.Text.{is_blank, append}

unfoldable pub is_safe : ℕ → Bool
is_safe c =
    (leb 65 c && leb c 90)
    || (leb 97 c && leb c 122)
    || (leb 48 c && leb c 57)
    || eqb c 95
    || eqb c 46
    || eqb c 45

unfoldable pub is_edge : ℕ → Bool
is_edge c = eqb c 46 || eqb c 45

-- The substitution, with whether the character before belongs to a run that is replaced already.
unfoldable pub replace_unsafe : Bool → String → String
replace_unsafe in_run String.[] = String.[]
replace_unsafe in_run (String.◌∷◌ c s) =
    let kept = replace_unsafe false s in
    let dropped = replace_unsafe true s in
    if is_safe (code c) then String.◌∷◌ c kept else (if in_run then dropped else append "-" dropped)

unfoldable pub lstrip_edge : String → String
lstrip_edge String.[] = String.[]
lstrip_edge (String.◌∷◌ c s) =
    let rest = lstrip_edge s in if is_edge (code c) then rest else String.◌∷◌ c s

unfoldable pub rstrip_edge : String → String
rstrip_edge String.[] = String.[]
rstrip_edge (String.◌∷◌ c s) =
    let rest = rstrip_edge s in
    if is_edge (code c) && is_blank rest then String.[] else String.◌∷◌ c rest

abbrev pub strip_edge : String → String
strip_edge s = rstrip_edge (lstrip_edge s)

-- Every character is a letter or a digit of ASCII, or one of `_`, `.` and `-`.
abbrev pub all_safe : String → Bool
all_safe String.[] = true
all_safe (String.◌∷◌ c s) = is_safe (code c) && all_safe s

-- The first character, if there is one, is neither a dot nor a dash.
abbrev pub starts_plain : String → Bool
starts_plain String.[] = true
starts_plain (String.◌∷◌ c s) = not (is_edge (code c))

pub all_safe-append :
    (s t : String) → all_safe s ≡ true → all_safe t ≡ true → all_safe (append s t) ≡ true
all_safe-append String.[] t h k = k
all_safe-append (String.◌∷◌ c s) t h k = ground (arith, h, k, all_safe-append s t)

pub json_safe : all_safe ".json" ≡ true
unfolding is_safe
json_safe = refl

pub dash_safe : all_safe "-" ≡ true
unfolding is_safe
dash_safe = refl

all_safe_dropped :
    (b : Bool) (s : String) → all_safe s ≡ true → all_safe (if b then s else append "-" s) ≡ true
all_safe_dropped true s h = h
all_safe_dropped false s h = all_safe-append "-" s dash_safe h

all_safe-replace_unsafe : (in_run : Bool) (s : String) → all_safe (replace_unsafe in_run s) ≡ true
unfolding replace_unsafe
all_safe-replace_unsafe in_run String.[] = refl
all_safe-replace_unsafe in_run (String.◌∷◌ c s) = elim (Bool-cases (is_safe (code c))) [
  | inl e ↦ rw e (rw e (all_safe-replace_unsafe false s))
  | inr e ↦ rw e (all_safe_dropped in_run (replace_unsafe true s) (all_safe-replace_unsafe true s))
]

all_safe-lstrip_edge : (s : String) → all_safe s ≡ true → all_safe (lstrip_edge s) ≡ true
unfolding lstrip_edge
all_safe-lstrip_edge String.[] h = refl
all_safe-lstrip_edge (String.◌∷◌ c s) h = ground (arith, h, all_safe-lstrip_edge s)

all_safe-rstrip_edge : (s : String) → all_safe s ≡ true → all_safe (rstrip_edge s) ≡ true
unfolding rstrip_edge
all_safe-rstrip_edge String.[] h = refl
all_safe-rstrip_edge (String.◌∷◌ c s) h = ground (arith, h, all_safe-rstrip_edge s)

starts_plain-lstrip_edge : (s : String) → starts_plain (lstrip_edge s) ≡ true
unfolding lstrip_edge
starts_plain-lstrip_edge String.[] = refl
starts_plain-lstrip_edge (String.◌∷◌ c s) = ground (arith, starts_plain-lstrip_edge s)

starts_plain-rstrip_edge :
    (s : String) → starts_plain s ≡ true → starts_plain (rstrip_edge s) ≡ true
unfolding rstrip_edge
starts_plain-rstrip_edge String.[] h = refl
starts_plain-rstrip_edge (String.◌∷◌ c s) h = ground (arith, h)

-- What `_SAFE.sub("-", s).strip(".-")` leaves has no other characters, and none of `.` and `-` first.
pub safe_strip_edge :
    (s : String)
    → (all_safe (strip_edge (replace_unsafe false s)) ≡ true)
      × (starts_plain (strip_edge (replace_unsafe false s)) ≡ true)
safe_strip_edge s =
    let t = replace_unsafe false s in
    (
      all_safe-rstrip_edge (lstrip_edge t)
          (all_safe-lstrip_edge t (all_safe-replace_unsafe false s)),
      starts_plain-rstrip_edge (lstrip_edge t) (starts_plain-lstrip_edge t),
    )
