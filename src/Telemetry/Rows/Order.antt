-- ===== src/Telemetry/Rows/Order.antt =====
-- The order of the tags of a point does not show in its series key.
use Prim.Native.Char.{code}
use mathlib.Core.List.{Permᴰ}
use text.Mathlib.TextEquality.{Char-path}
use azure_mysql_monitoring.Prelude.{
  All, String, ◌≡◌, refl, ◌≢◌, true, false, not, [], ◌∷◌, arith, sym, ap, ◌∙◌, subst,
}
use azure_mysql_monitoring.Groups.Rows.{point}
use azure_mysql_monitoring.Plan.Document.{Value, str}
use azure_mysql_monitoring.Prelude.Dict.{Dict}
use azure_mysql_monitoring.Spool.Codec.{encode}
use azure_mysql_monitoring.Telemetry.Point.{TelemetryPoint}
use azure_mysql_monitoring.Telemetry.Rows.{
  text_le, place_tag, sort_tags, object, tag_values, first_chars, series_key,
}

text_le_refl_or : (s t : String) → text_le s t ≡ false → text_le t s ≡ true
unfolding text_le
text_le_refl_or String.[] t h = cc h
text_le_refl_or (String.◌∷◌ c s) String.[] h = refl
text_le_refl_or (String.◌∷◌ c s) (String.◌∷◌ d t) h = ground (arith, h, text_le_refl_or s t)

text_le_antisym : (s t : String) → text_le s t ≡ true → text_le t s ≡ true → s ≡ t
unfolding text_le
text_le_antisym String.[] String.[] h k = refl
text_le_antisym String.[] (String.◌∷◌ d t) h k = cc k
text_le_antisym (String.◌∷◌ c s) String.[] h k = cc h
text_le_antisym (String.◌∷◌ c s) (String.◌∷◌ d t) h k =
    let same : code c ≡ code d = ground (arith, h, k) in
    let rest : s ≡ t = text_le_antisym s t (ground (arith, h, same)) (ground (arith, k, same)) in
    λ i. String.◌∷◌ (Char-path c d same i) (rest i)

text_le_trans : (s t u : String) → text_le s t ≡ true → text_le t u ≡ true → text_le s u ≡ true
unfolding text_le
text_le_trans String.[] t u h k = refl
text_le_trans (String.◌∷◌ c s) String.[] u h k = cc h
text_le_trans (String.◌∷◌ c s) (String.◌∷◌ d t) String.[] h k = cc k
text_le_trans (String.◌∷◌ c s) (String.◌∷◌ d t) (String.◌∷◌ e u) h k =
    ground (arith, h, k, text_le_trans s t u)

text_le-flip : (s t : String) → s ≢ t → text_le t s ≡ not (text_le s t)
text_le-flip s t different = ground (arith, text_le_refl_or s t, text_le_antisym s t, different)

place_swap :
    (x y : String × String) (zs : Dict String)
    → x.0 ≢ y.0
    → place_tag x (place_tag y zs) ≡ place_tag y (place_tag x zs)
unfolding place_tag
place_swap x y [] h = ground (arith, text_le-flip x.0 y.0 h)
place_swap x y (z ∷ zs) h = ground (
  arith,
  text_le-flip x.0 y.0 h,
  text_le_trans x.0 y.0 z.0,
  text_le_trans y.0 x.0 z.0,
  place_swap x y zs h,
)

-- The names of a `dict` differ.
abbrev pub IsDistinct : Dict String → Type 0
IsDistinct [] = Unit
IsDistinct (tag ∷ tags) = All (λ other. tag.0 ≢ other.0) tags × IsDistinct tags

All-perm : (P : String × String → Type 0) {xs ys : Dict String} → Permᴰ xs ys → All P xs → All P ys
All-perm P Permᴰ.nil h = h
All-perm P (Permᴰ.cons e p) h = (subst P e h.0, All-perm P p h.1)
All-perm P (Permᴰ.swap e f) h = (subst P f h.1.0, (subst P e h.0, h.1.1))
All-perm P (Permᴰ.trans p q) h = All-perm P q (All-perm P p h)

IsDistinct-perm : {xs ys : Dict String} → Permᴰ xs ys → IsDistinct xs → IsDistinct ys
IsDistinct-perm Permᴰ.nil h = h
IsDistinct-perm (Permᴰ.cons {a = a} {b = b} {l₂ = l₂} e p) h = (
  subst (λ x. All (λ other. x.0 ≢ other.0) l₂) e (All-perm (λ other. a.0 ≢ other.0) p h.0),
  IsDistinct-perm p h.1,
)
IsDistinct-perm (Permᴰ.swap {a = a} {b = b} {a' = a'} {b' = b'} {l = l} e f) h = (
  (
    λ same. h.0.0 (ap (λ t. t.0) e ∙ (sym same ∙ sym (ap (λ t. t.0) f))),
    subst (λ x. All (λ other. x.0 ≢ other.0) l) f h.1.0,
  ),
  (subst (λ x. All (λ other. x.0 ≢ other.0) l) e h.0.1, h.1.1),
)
IsDistinct-perm (Permᴰ.trans p q) h = IsDistinct-perm q (IsDistinct-perm p h)

sort_tags-perm : {xs ys : Dict String} → Permᴰ xs ys → IsDistinct xs → sort_tags xs ≡ sort_tags ys
unfolding sort_tags
sort_tags-perm Permᴰ.nil h = refl
sort_tags-perm (Permᴰ.cons {l₁ = l₁} {l₂ = l₂} e p) h =
    λ i. place_tag (e i) (sort_tags-perm p h.1 i)
sort_tags-perm (Permᴰ.swap {a = a} {b = b} {l = l} e f) h =
    place_swap a b (sort_tags l) h.0.0 ∙ (λ i. place_tag (f i) (place_tag (e i) (sort_tags l)))
sort_tags-perm (Permᴰ.trans p q) h = sort_tags-perm p h ∙ sort_tags-perm q (IsDistinct-perm p h)

-- Two points of one target and measurement that have the same tags have the same series key, in
-- whatever order their tags come, and whatever their other dimensions, fields and times are.
pub series_key-perm :
    (encode : Value → String) (hexdigest : String → String) (point other : TelemetryPoint)
    → point.context.target_id ≡ other.context.target_id
    → point.measurement ≡ other.measurement
    → IsDistinct point.tags
    → Permᴰ point.tags other.tags
    → series_key encode hexdigest point ≡ series_key encode hexdigest other
unfolding series_key
series_key-perm encode hexdigest point other target measured distinct perm =
    let tags : sort_tags point.tags ≡ sort_tags other.tags = sort_tags-perm perm distinct in
    λ i. first_chars 24 (
      hexdigest (
        encode (
          object (
            ("target_id", str (target i))
            ∷ ("measurement", str (measured i))
            ∷ ("tags", object (tag_values (tags i)))
            ∷ []))))
