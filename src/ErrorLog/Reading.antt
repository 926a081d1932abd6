-- ===== src/ErrorLog/Reading.antt =====
-- What one poll of the error log reads: which entries become events, and where the cursor goes.
use mathlib.Core.Option.{some-injective}
use azure_mysql_monitoring.Prelude.{
  ltb, if◌then◌else◌, Bool-cases, length, take, All, All-mem, ℕ, zero, suc, ◌≤◌, ◌<◌, ◌≡◌, refl,
  sym, ap, subst, ◌⊎◌, inl, inr, Bool, true, false, some, List, [], ◌∷◌, map, Memᴰ, arith, ◌∙◌,
}
use azure_mysql_monitoring.ErrorLog.{
  Entry, Reader, in_order, select_rows, since, newest_of, finish_poll, max_rows_per_poll, Envelope,
  Event, event_of, poll, poll_rows,
}
use azure_mysql_monitoring.Prelude.Sorting.{
  IsAscending, sort_by-mem, mem-sort_by, sort_by-IsAscending,
}

abbrev logged_at : Entry → ℕ
logged_at e = e.logged

since-mem :
    (cursor : ℕ) (es : List Entry) {e : Entry}
    → Memᴰ e (since cursor es)
    → (cursor < e.logged) × Memᴰ e es
unfolding since
since-mem cursor [] m = elim m [ ]
since-mem cursor (f ∷ fs) {e} m = elim (Bool-cases (ltb cursor f.logged)) [
  | inr old ↦ let r = since-mem cursor fs (rw old at m) in (r.0, Memᴰ.tail r.1)
  | inl fresh ↦ step fresh (since-mem cursor fs) (rw fresh at m)
]
  where
    step :
        ltb cursor f.logged ≡ true
        → (Memᴰ e (since cursor fs) → (cursor < e.logged) × Memᴰ e fs)
        → Memᴰ e (f ∷ since cursor fs)
        → (cursor < e.logged) × Memᴰ e (f ∷ fs)
    step fresh rest (Memᴰ.head p) =
        (subst (λ x. cursor < logged_at x) (sym p) (ground (arith, fresh)), Memᴰ.head p)
    step fresh rest (Memᴰ.tail n) = ((rest n).0, Memᴰ.tail (rest n).1)

mem-since :
    (cursor : ℕ) (es : List Entry) {e : Entry}
    → cursor < e.logged
    → Memᴰ e es
    → Memᴰ e (since cursor es)
unfolding since
mem-since cursor [] late m = m
mem-since cursor (f ∷ fs) {e} late (Memᴰ.head p) =
    let fresh : ltb cursor f.logged ≡ true =
      subst (λ x. ltb cursor (logged_at x) ≡ true) p (ground (arith, late)) in
    rw fresh (Memᴰ.head p)
mem-since cursor (f ∷ fs) late (Memᴰ.tail m) = elim (Bool-cases (ltb cursor f.logged)) [
  | inl fresh ↦ rw fresh (Memᴰ.tail (mem-since cursor fs late m))
  | inr old ↦ rw old (mem-since cursor fs late m)
]

take-mem : {A : Type 0} (n : ℕ) (xs : List A) {x : A} → Memᴰ x (take n xs) → Memᴰ x xs
take-mem zero xs m = elim m [ ]
take-mem (suc n) [] m = m
take-mem (suc n) (y ∷ ys) (Memᴰ.head p) = Memᴰ.head p
take-mem (suc n) (y ∷ ys) (Memᴰ.tail m) = Memᴰ.tail (take-mem n ys m)

-- What a cut of an ascending list leaves out is not before what it keeps.
mem-take :
    (n : ℕ) (es : List Entry) {e : Entry}
    → IsAscending logged_at es
    → Memᴰ e es
    → Memᴰ e (take n es) ⊎ ((length (take n es) ≡ n) × All (λ f. f.logged ≤ e.logged) (take n es))
mem-take zero es h m = inr (refl, tt)
mem-take (suc n) [] h m = inl m
mem-take (suc n) (f ∷ fs) h (Memᴰ.head p) = inl (Memᴰ.head p)
mem-take (suc n) (f ∷ fs) h (Memᴰ.tail m) = elim (mem-take n fs h.1 m) [
  | inl k ↦ inl (Memᴰ.tail k)
  | inr k ↦ inr (ap suc k.0, (All-mem (λ g. f.logged ≤ g.logged) fs h.0 m, k.1))
]

newest_of-le :
    (t : ℕ) (es : List Entry) → (t ≤ newest_of t es) × All (λ e. e.logged ≤ newest_of t es) es
unfolding newest_of
newest_of-le t [] = (omega arith, tt)
newest_of-le t (e ∷ es) =
    let r = newest_of-le (if ltb t e.logged then e.logged else t) es in
    (ground (arith, r.0), (ground (arith, r.0), r.1))

newest_of-bound :
    (t b : ℕ) (es : List Entry) → t ≤ b → All (λ e. e.logged ≤ b) es → newest_of t es ≤ b
unfolding newest_of
newest_of-bound t b [] h all = h
newest_of-bound t b (e ∷ es) h all =
    newest_of-bound (if ltb t e.logged then e.logged else t) b es (ground (arith, h, all.0)) all.1

mem-map : {A B : Type 0} (f : A → B) (xs : List A) {x : A} → Memᴰ x xs → Memᴰ (f x) (map f xs)
mem-map f [] m = elim m [ ]
mem-map f (y ∷ ys) (Memᴰ.head p) = Memᴰ.head (ap f p)
mem-map f (y ∷ ys) (Memᴰ.tail m) = Memᴰ.tail (mem-map f ys m)

length-map : {A B : Type 0} (f : A → B) (xs : List A) → length (map f xs) ≡ length xs
length-map f [] = refl
length-map f (x ∷ xs) = ap suc (length-map f xs)

-- Where the cursor stands after the rows.
finish_poll-cursor :
    (writable : Bool) (cursor : ℕ) (rows : List Entry) (r : Reader)
    → r.cursor ≡ some cursor
    → (finish_poll writable cursor rows r).cursor ≡ some (newest_of cursor rows)
unfolding finish_poll newest_of
finish_poll-cursor writable cursor [] r h = h
finish_poll-cursor true cursor (e ∷ es) r h = refl
finish_poll-cursor false cursor (e ∷ es) r h = refl

-- A row of the query is an entry of the buffer that is newer than the cursor.
select_rows-mem :
    (cursor limit : ℕ) (buffer : List Entry) {e : Entry}
    → Memᴰ e (select_rows cursor limit buffer)
    → (cursor < e.logged) × Memᴰ e buffer
unfolding select_rows
select_rows-mem cursor limit buffer m = since-mem cursor buffer (
    sort_by-mem logged_at (since cursor buffer) (take-mem limit (in_order (since cursor buffer)) m))

module _ (envelope : Envelope) (writable : Bool) (buffer : List Entry) (r : Reader)
    (cursor : ℕ) where
  abbrev rows : List Entry
  rows = select_rows cursor max_rows_per_poll buffer

  poll_lem :
      r.cursor ≡ some cursor
      → r.available ≡ true
      → poll envelope writable (some buffer) r
        ≡ (map (event_of envelope) rows, finish_poll writable cursor rows r)
  unfolding poll poll_rows
  poll_lem c a = rw (c, a) refl

  -- An event is an entry of the buffer, between the old cursor and the new one.
  pub record IsRead (new : ℕ) (event : Event) : Type 0 where
    pub entry : Entry
    pub there : Memᴰ entry buffer
    pub built : event ≡ event_of envelope entry
    pub after : cursor < entry.logged
    pub until : entry.logged ≤ new

  rows-IsRead :
      (new : ℕ) (es : List Entry)
      → ((e : Entry) → Memᴰ e es → (cursor < e.logged) × Memᴰ e buffer)
      → All (λ e. e.logged ≤ new) es
      → All (IsRead new) (map (event_of envelope) es)
  rows-IsRead new [] sub all = tt
  rows-IsRead new (e ∷ es) sub all =
      let s = sub e (Memᴰ.head refl) in
      (
        record { entry = e; there = s.1; built = refl; after = s.0; until = all.0 },
        rows-IsRead new es (λ f m. sub f (Memᴰ.tail m)) all.1,
      )

  -- A poll that reads yields entries of the buffer, each newer than the old cursor and none newer
  -- than the new one; and the cursor does not go back.
  pub poll-IsRead :
      r.cursor ≡ some cursor
      → r.available ≡ true
      → (new : ℕ) × ((poll envelope writable (some buffer) r).1.cursor ≡ some new)
        × (cursor ≤ new)
        × All (IsRead new) (poll envelope writable (some buffer) r).0
  poll-IsRead c a =
      let n = newest_of-le cursor rows in
      (
        newest_of cursor rows,
        ap (λ p. p.1.cursor) (poll_lem c a) ∙ finish_poll-cursor writable cursor rows r c,
        n.0,
        subst (All (IsRead (newest_of cursor rows))) (sym (ap (λ p. p.0) (poll_lem c a))) (
            rows-IsRead (newest_of cursor rows) rows
              (λ e m. select_rows-mem cursor max_rows_per_poll buffer m) n.1),
      )

  -- No entry of the buffer is passed over that is newer than the old cursor and older than the new
  -- one, nor any that is newer than the old cursor where the poll yields less than its cap. Left out
  -- can be those of the very time at which the cap cuts.
  pub poll_complete :
      (e : Entry) (new : ℕ)
      → r.cursor ≡ some cursor
      → r.available ≡ true
      → (poll envelope writable (some buffer) r).1.cursor ≡ some new
      → Memᴰ e buffer
      → cursor < e.logged
      → (e.logged < new) ⊎ (length (poll envelope writable (some buffer) r).0 < max_rows_per_poll)
      → Memᴰ (event_of envelope e) (poll envelope writable (some buffer) r).0
  unfolding select_rows
  poll_complete e new c a went m late early =
      let all = in_order (since cursor buffer) in
      let events : (poll envelope writable (some buffer) r).0 ≡ map (event_of envelope) rows =
        ap (λ p. p.0) (poll_lem c a) in
      let at_new : newest_of cursor rows ≡ new = some-injective _ _ (
        sym (finish_poll-cursor writable cursor rows r c)
        ∙ ap (λ p. p.1.cursor) (sym (poll_lem c a))
        ∙ went) in
      let ordered = sort_by-IsAscending logged_at (since cursor buffer) in
      let there = mem-sort_by logged_at (since cursor buffer) (mem-since cursor buffer late m) in
      rw events (elim (mem-take max_rows_per_poll all ordered there) [
        | inl k ↦ mem-map (event_of envelope) rows k
        | inr k ↦
            let bound : newest_of cursor rows ≤ e.logged =
              newest_of-bound cursor e.logged rows (omega (arith, late)) k.1 in
            let full : length (poll envelope writable (some buffer) r).0 ≡ max_rows_per_poll =
              ap length events ∙ length-map (event_of envelope) rows ∙ k.0 in
            elim early [
              | inl before ↦ absurd (omega (arith, before, bound, at_new))
              | inr short ↦ absurd (omega (arith, short, full))
            ]
      ])
