-- ===== src/Spool/Names/Stages.antt =====
-- A stem's name at one stage leads to its name at another.
use mathlib.Core.Option
use Prim.Native.Char.{Char, code}
use azure_mysql_monitoring.Prelude.{
  Bool, leb, eqb, Bool-cases, ℕ, suc, ◌+◌, ◌<◌, String, ◌≡◌, refl, ap, inl, inr, true, false, not,
  ◌&&◌, ◌||◌, none, some, arith, ◌==◌, eq_iff, eq_refl,
}
use azure_mysql_monitoring.Prelude.Text.{append}
use azure_mysql_monitoring.Spool.Names.{
  after_prefix, split_once, remove_suffix, before_first, submitted_source_id, ready_name,
  failed_name, ready_name_from_live, name_of,
}
use azure_mysql_monitoring.Spool.Store.{live, ready, failed, submitted}

abbrev starts_with_digit : String → Bool
starts_with_digit String.[] = false
starts_with_digit (String.◌∷◌ c s) = leb 48 (code c) && leb (code c) 57

-- Each dot is before a digit, as the one of a time stamp is.
abbrev pub is_stem : String → Bool
is_stem String.[] = true
is_stem (String.◌∷◌ c s) = (not (eqb (code c) 46) || starts_with_digit s) && is_stem s

abbrev chars : String → ℕ
chars String.[] = 0
chars (String.◌∷◌ c s) = suc (chars s)

chars-append : (s t : String) → chars (append s t) ≡ chars s + chars t
chars-append String.[] t = omega arith
chars-append (String.◌∷◌ c s) t = omega (arith, chars-append s t)

remove_suffix-append :
    (stem suffix : String) → 0 < chars suffix → remove_suffix suffix (append stem suffix) ≡ stem
unfolding remove_suffix
remove_suffix-append String.[] String.[] h = absurd (omega (arith, h))
remove_suffix-append String.[] (String.◌∷◌ c s) h = rw (eq_refl (String.◌∷◌ c s)) refl
remove_suffix-append (String.◌∷◌ c stem) suffix h =
    elim (Bool-cases (String.◌∷◌ c (append stem suffix) == suffix)) [
      | inl same ↦
          let path = (eq_iff (String.◌∷◌ c (append stem suffix)) suffix).0 same in
          absurd (omega (arith, ap chars path, chars-append stem suffix))
      | inr other ↦ rw other (ap (λ s. String.◌∷◌ c s) (remove_suffix-append stem suffix h))
    ]

-- The marker begins with a dot and a letter, so it is not found inside a stem.
after_prefix_stem :
    (c : Char) (s rest : String)
    → is_stem (String.◌∷◌ c s) ≡ true
    → after_prefix ".submitted." (String.◌∷◌ c (append s rest)) ≡ none
unfolding after_prefix
after_prefix_stem c String.[] rest h = ground (arith, h)
after_prefix_stem c (String.◌∷◌ d s) rest h = ground (arith, h)

split_once-append :
    (stem rest : String)
    → is_stem stem ≡ true
    → split_once ".submitted." (append stem (append ".submitted." rest)) ≡ some (stem, rest)
unfolding split_once
split_once-append String.[] rest h = refl
split_once-append (String.◌∷◌ c stem) rest h =
    rw (after_prefix_stem c stem (append ".submitted." rest) h, split_once)
      (rw (split_once-append stem rest (ground (arith, h))) refl)

before_first-append :
    (stem rest : String)
    → is_stem stem ≡ true
    → before_first ".submitted." (append stem (append ".submitted." rest)) ≡ stem
unfolding before_first
before_first-append stem rest h = rw (split_once-append stem rest h, before_first) refl

-- For a stem whose dots are before digits: the renamings of a live segment and of a submitted one
-- lead to the name that the stem has at the new stage, and the source id is read back from the name
-- of a submitted segment.
pub name_of_renamed :
    (stem id : String)
    → is_stem stem ≡ true
    → (Option.map ready_name_from_live (name_of stem live) ≡ name_of stem ready)
      × (Option.map ready_name (name_of stem (submitted id)) ≡ name_of stem ready)
      × (Option.map failed_name (name_of stem (submitted id)) ≡ name_of stem failed)
      × (Option.map submitted_source_id (name_of stem (submitted id)) ≡ some (some id))
unfolding name_of ready_name_from_live ready_name failed_name submitted_source_id
name_of_renamed stem id h =
    let before = before_first-append stem (append id ".jsonl") h in
    (
      ap (λ s. some (append s ".ready.jsonl"))
          (remove_suffix-append stem ".live.jsonl" (omega arith)),
      ap (λ s. some (append s ".ready.jsonl")) before,
      ap (λ s. some (append s ".failed.jsonl")) before,
      ap some (
          rw (split_once-append stem (append id ".jsonl") h, submitted_source_id)
            (ap some (remove_suffix-append id ".jsonl" (omega arith)))),
    )
