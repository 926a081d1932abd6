-- ===== src/Plan/Profile/Coverage.antt =====
-- Each profile of the document is compiled, and never for nothing: it has a group.
use azure_mysql_monitoring.Prelude.{
  length, All, ℕ, zero, suc, String, ◌≡◌, refl, subst, inl, inr, true, Option, none, some, List, [],
  ◌∷◌, arith, eq_refl,
}
use azure_mysql_monitoring.Plan.Document.{Value, obj, Fields, entries}
use azure_mysql_monitoring.Plan.Group.{mapping}
use azure_mysql_monitoring.Plan.Profile.{
  Profile, read_header, build_profile, Compiler, Recursion, compile_new, compile_one,
  compile_profiles, compile_parent, compile_names, start,
}
use azure_mysql_monitoring.Plan.Profile.Inheritance.{compile_one-eq-ok}
use azure_mysql_monitoring.Prelude.Dict.{Dict, keys, insert, has, lookup-insert}
use azure_mysql_monitoring.Prelude.Result.{ok, >>=-eq-ok}

-- Keys stay once they are written.
has-insert :
    (k j : String) (p : Profile) (d : Dict Profile) → has j d ≡ true → has j (insert k p d) ≡ true
has-insert k j p d h = rw (lookup-insert, has) (ground arith)

has-insert_self : (k : String) (p : Profile) (d : Dict Profile) → has k (insert k p d) ≡ true
has-insert_self k p d = rw (lookup-insert, eq_refl, has) refl

module _ (profiles_data : Dict Value) where
  abbrev Grows : Compiler → Compiler → Type 0
  Grows c c' = (j : String) → has j c.compiled ≡ true → has j c'.compiled ≡ true

  abbrev Covers : Recursion → Type 0
  Covers compile =
      (name : String) (c : Compiler) (p : Profile) (c' : Compiler)
      → compile name c ≡ ok (p, c')
      → (has name c'.compiled ≡ true) × Grows c c'

  compile_parent-Grows :
      (compile : Recursion) (extends : Option String) (c c' : Compiler) (parent : Option Profile)
      → Covers compile
      → compile_parent compile extends c ≡ ok (parent, c')
      → Grows c c'
  unfolding compile_parent
  compile_parent-Grows compile none c c' parent good h =
      let same : c ≡ c' = ground arith in λ j g. subst (λ d. has j d.compiled ≡ true) same g
  compile_parent-Grows compile (some name) c c' parent good h =
      let (r, called, h₁) = >>=-eq-ok (compile name c) _ h in
      let after : r.1 ≡ c' = ground arith in
      λ j g. subst (λ d. has j d.compiled ≡ true) after ((good name c r.0 r.1 called).1 j g)

  compile_new-Covers :
      (compile : Recursion) (name : String) (value : Value) (c : Compiler) (p : Profile)
      (c' : Compiler)
      → Covers compile
      → compile_new compile name value c ≡ ok (p, c')
      → (has name c'.compiled ≡ true) × Grows c c'
  unfolding compile_new
  compile_new-Covers compile name value c p c' good h =
      let (header, read, h₁) = >>=-eq-ok (read_header value) _ h in
      let (r, called, h₂) = >>=-eq-ok (compile_parent compile header.extends _) _ h₁ in
      let (profile, built, h₃) = >>=-eq-ok (build_profile name header.raw r.0) _ h₂ in
      let grows = compile_parent-Grows compile header.extends _ r.1 r.0 good called in
      let after : insert name profile r.1.compiled ≡ c'.compiled = ground arith in
      (
        subst (λ d. has name d ≡ true) after (has-insert_self name profile r.1.compiled),
        λ j g.
            subst (λ d. has j d ≡ true) after (has-insert name j profile r.1.compiled (grows j g)),
      )

  compile_one-Covers : (fuel : ℕ) → Covers (compile_one profiles_data fuel)
  compile_one-Covers zero name c p c' h = unfold compile_one in cc h
  compile_one-Covers (suc fuel) name c p c' h =
      elim (compile_one-eq-ok profiles_data fuel name c p c' h) [
        | inl (found, e) ↦ (
          subst (λ d. has name d.compiled ≡ true) e (rw (found, has)),
          λ j g. subst (λ d. has j d.compiled ≡ true) e g,
        )
        | inr (value, found, e) ↦ compile_new-Covers _ name value c p c' (compile_one-Covers fuel) e
      ]

  compile_names-Covers :
      (fuel : ℕ) (names : List String) (c c' : Compiler)
      → compile_names profiles_data fuel names c ≡ ok c'
      → All (λ name. has name c'.compiled ≡ true) names × Grows c c'
  unfolding compile_names
  compile_names-Covers fuel [] c c' h =
      let same : c ≡ c' = ground arith in (tt, λ j g. subst (λ d. has j d.compiled ≡ true) same g)
  compile_names-Covers fuel (name ∷ names) c c' h =
      let (r, called, rest) = >>=-eq-ok (compile_one profiles_data fuel name c) _ h in
      let (met, grows) = compile_one-Covers fuel name c r.0 r.1 called in
      let (there, grows') = compile_names-Covers fuel names r.1 c' rest in
      ((grows' name met, there), λ j g. grows' j (grows j g))

-- Every profile that the document names is compiled.
pub compile_profiles-covers :
    (fields : Fields) (profiles : Dict Profile)
    → compile_profiles (obj fields) ≡ ok profiles
    → All (λ name. has name profiles ≡ true) (keys (entries fields))
unfolding compile_profiles mapping
compile_profiles-covers fields profiles h =
    let data' = entries fields in
    let (c, loop, last) = >>=-eq-ok (compile_names data' (suc (length data')) (keys data') _) _ h in
    let same : c.compiled ≡ profiles = ground arith in
    subst (λ d. All (λ name. has name d ≡ true) (keys data')) same
      (compile_names-Covers data' (suc (length data')) (keys data') start c loop).0
