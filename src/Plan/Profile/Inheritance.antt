-- ===== src/Plan/Profile/Inheritance.antt =====
-- What `_compile_profiles` computes, without its memo table: each profile is its own text over the
-- profile that it extends.
use mathlib.Core.Option.{some-injective}
use azure_mysql_monitoring.Prelude.{
  Bool-cases, String, ◌≡◌, subst, inl, inr, none, some, List, ◌==◌, eq_iff, ℕ, zero, suc, refl, ◌⊎◌,
  Option, arith, Option-cases, length, [], ◌∷◌,
}
use azure_mysql_monitoring.Plan.Document.{Value, obj, Fields, entries}
use azure_mysql_monitoring.Plan.Errors.{unknown_profile}
use azure_mysql_monitoring.Plan.Group.{mapping}
use azure_mysql_monitoring.Plan.Profile.{
  Profile, Header, Compiler, read_header, build_profile, Recursion, compile_parent, compile_new,
  discard, compile_one, compile_profiles, compile_names, start,
}
use azure_mysql_monitoring.Prelude.Dict.{
  Dict, lookup, insert, lookup-insert, keys, lookup-nil, some-ne-none,
}
use azure_mysql_monitoring.Prelude.Result.{ok, >>=-eq-ok, or_raise, or_raise-eq-ok}
use azure_mysql_monitoring.Prelude.Text.{contains}

-- `name` stands for `p`: its header, the parent that the header names, and its own groups.
pub data Resolves (profiles_data : Dict Value) : String → Profile → Type 0 where
  parentless :
      (name : String) (value : Value) (header : Header) (p : Profile)
      → lookup name profiles_data ≡ some value
      → read_header value ≡ ok header
      → header.extends ≡ none
      → build_profile name header.raw none ≡ ok p
      → Resolves profiles_data name p
  inheriting :
      (name : String) (value : Value) (header : Header) (p : Profile) (parent_name : String)
      (parent : Profile)
      → lookup name profiles_data ≡ some value
      → read_header value ≡ ok header
      → header.extends ≡ some parent_name
      → Resolves profiles_data parent_name parent
      → build_profile name header.raw (some parent) ≡ ok p
      → Resolves profiles_data name p

module _ (profiles_data : Dict Value) where
  -- The memo table holds nothing else.
  abbrev IsSound : Compiler → Type 0
  IsSound c =
      (name : String) (p : Profile)
      → lookup name c.compiled ≡ some p
      → Resolves profiles_data name p

  abbrev Good : Recursion → Type 0
  Good compile =
      (name : String) (c : Compiler) (p : Profile) (c' : Compiler)
      → IsSound c
      → compile name c ≡ ok (p, c')
      → Resolves profiles_data name p × IsSound c'

  IsSound-insert :
      (name : String) (p : Profile) (compiled : Dict Profile) (visiting visiting' : List String)
      → Resolves profiles_data name p
      → IsSound (record { compiled = compiled; visiting = visiting })
      → IsSound (record { compiled = insert name p compiled; visiting = visiting' })
  IsSound-insert name p compiled v v' r s j q h = elim (Bool-cases (name == j)) [
    | inl e ↦
        let here = rw (lookup-insert, e) at h in
        subst (λ n. Resolves profiles_data n q) ((eq_iff name j).0 e)
          (subst (Resolves profiles_data name) (some-injective _ _ here) r)
    | inr e ↦ s j q (rw (lookup-insert, e) at h)
  ]

  -- What the parent's compilation hands to `build_profile`.
  data ParentOf : Option String → Option Profile → Type 0 where
    no_parent : ParentOf none none
    a_parent :
        (name : String) (p : Profile)
        → Resolves profiles_data name p
        → ParentOf (some name) (some p)

  compile_parent-ParentOf :
      (compile : Recursion) (extends : Option String) (c c' : Compiler) (parent : Option Profile)
      → Good compile
      → IsSound c
      → compile_parent compile extends c ≡ ok (parent, c')
      → ParentOf extends parent × IsSound c'
  unfolding compile_parent
  compile_parent-ParentOf compile none c c' none good s h =
      let same : c ≡ c' = ground arith in (no_parent, subst IsSound same s)
  compile_parent-ParentOf compile none c c' (some q) good s h = cc
  compile_parent-ParentOf compile (some name) c c' none good s h =
      let (r, called, h₁) = >>=-eq-ok (compile name c) _ h in cc h₁
  compile_parent-ParentOf compile (some name) c c' (some q) good s h =
      let (r, called, h₁) = >>=-eq-ok (compile name c) _ h in
      let (resolves, sound) = good name c r.0 r.1 s called in
      let same : r.0 ≡ q = ground arith in
      let after : r.1 ≡ c' = ground arith in
      (
        a_parent name q (subst (Resolves profiles_data name) same resolves),
        subst IsSound after sound,
      )

  Resolves-of_parent :
      (name : String) (value : Value) (header : Header) (p : Profile) (extends : Option String)
      (parent : Option Profile)
      → lookup name profiles_data ≡ some value
      → read_header value ≡ ok header
      → header.extends ≡ extends
      → build_profile name header.raw parent ≡ ok p
      → ParentOf extends parent
      → Resolves profiles_data name p
  Resolves-of_parent name value header p extends parent found read e built no_parent =
      parentless name value header p found read e built
  Resolves-of_parent name value header p extends parent found read e built (a_parent n q r) =
      inheriting name value header p n q found read e r built

  compile_new-Resolves :
      (compile : Recursion) (name : String) (value : Value) (c : Compiler) (p : Profile)
      (c' : Compiler)
      → Good compile
      → lookup name profiles_data ≡ some value
      → IsSound c
      → compile_new compile name value c ≡ ok (p, c')
      → Resolves profiles_data name p × IsSound c'
  unfolding compile_new
  compile_new-Resolves compile name value c p c' good found s h =
      let (header, read, h₁) = >>=-eq-ok (read_header value) _ h in
      let (r, called, h₂) = >>=-eq-ok (compile_parent compile header.extends _) _ h₁ in
      let (profile, built, h₃) = >>=-eq-ok (build_profile name header.raw r.0) _ h₂ in
      let (parent, sound) =
        compile_parent-ParentOf compile header.extends _ r.1 r.0 good s called in
      let resolves =
        Resolves-of_parent name value header profile header.extends r.0 found read refl built
          parent in
      let same : profile ≡ p = ground arith in
      let after : record {
        compiled = insert name profile r.1.compiled;
        visiting = discard name r.1.visiting;
      }
          ≡ c' =
        ground arith in
      (
        subst (Resolves profiles_data name) same resolves,
        subst IsSound after (
            IsSound-insert name profile r.1.compiled r.1.visiting (discard name r.1.visiting)
              resolves sound),
      )

  pub compile_one-eq-ok :
      (fuel : ℕ) (name : String) (c : Compiler) (p : Profile) (c' : Compiler)
      → compile_one profiles_data (suc fuel) name c ≡ ok (p, c')
      → ((lookup name c.compiled ≡ some p) × (c ≡ c'))
        ⊎ ((value : Value) × (lookup name profiles_data ≡ some value)
            × (compile_new (compile_one profiles_data fuel) name value c ≡ ok (p, c')))
  unfolding compile_one
  compile_one-eq-ok fuel name c p c' h = elim (Option-cases (lookup name c.compiled)) [
    | inr (q, e) ↦ let h' = rw (e, compile_one) at h in inl (ground (arith, h'), ground (arith, h'))
    | inl e ↦
        let h₁ = rw (e, compile_one) at h in
        elim (Bool-cases (contains c.visiting name)) [
          | inl v ↦ cc (rw v at h₁)
          | inr v ↦
              let h₂ = rw v at h₁ in
              let (value, found, h₃) =
                >>=-eq-ok (or_raise (lookup name profiles_data) (unknown_profile name)) _ h₂ in
              inr (value, or_raise-eq-ok _ _ found, h₃)
        ]
  ]

  compile_one-Resolves : (fuel : ℕ) → Good (compile_one profiles_data fuel)
  compile_one-Resolves zero name c p c' s h = unfold compile_one in cc h
  compile_one-Resolves (suc fuel) name c p c' s h = elim (compile_one-eq-ok fuel name c p c' h) [
    | inl (found, e) ↦ (s name p found, subst IsSound e s)
    | inr (value, found, e) ↦
        compile_new-Resolves _ name value c p c' (compile_one-Resolves fuel) found s e
  ]

  compile_names-IsSound :
      (fuel : ℕ) (names : List String) (c c' : Compiler)
      → IsSound c
      → compile_names profiles_data fuel names c ≡ ok c'
      → IsSound c'
  unfolding compile_names
  compile_names-IsSound fuel [] c c' s h = let same : c ≡ c' = ground arith in subst IsSound same s
  compile_names-IsSound fuel (name ∷ names) c c' s h =
      let (r, called, rest) = >>=-eq-ok (compile_one profiles_data fuel name c) _ h in
      compile_names-IsSound fuel names r.1 c' (compile_one-Resolves fuel name c r.0 r.1 s called).1
        rest

-- Each profile of the result is what its own text and its parent's resolution make of it.
pub compile_profiles-Resolves :
    (fields : Fields) (profiles : Dict Profile) (name : String) (p : Profile)
    → compile_profiles (obj fields) ≡ ok profiles
    → lookup name profiles ≡ some p
    → Resolves (entries fields) name p
unfolding compile_profiles mapping
compile_profiles-Resolves fields profiles name p h found =
    let data' = entries fields in
    let (c, loop, last) = >>=-eq-ok (compile_names data' (suc (length data')) (keys data') _) _ h in
    let same : c.compiled ≡ profiles = ground arith in
    compile_names-IsSound data' (suc (length data')) (keys data') start c nothing loop name p
      (rw same found)
  where
    nothing :
        (n : String) (q : Profile)
        → lookup n start.compiled ≡ some q
        → Resolves (entries fields) n q
    nothing n q e = absurd (some-ne-none (lookup-nil {V = Profile} n) e)
