-- ===== src/Score/Grants.antt =====
-- internal/score/impact.go: an impact that adds no grant comes from scores where each movement's
-- grants were granted before.
use partitur.Prelude.{
  ◌≡◌, refl, sym, ap, ◌∙◌, subst, arith, String, Bool, true, ◌&&◌, Option, none, some, List, [],
  ◌∷◌, ◌++◌, str_eq, eq_iff, contains, is_empty, if◌then◌else◌, Bool-cases, Option-cases, inl, inr,
}
use partitur.Dict.{Dict, insert, lookup, has, lookup-insert}
use partitur.Json.{Fields, Value, items, get, must_array, must_string, must_strings}
use partitur.Canonical.{sorted_strings}
use partitur.Score.Document.{Movement, Score}
use partitur.Score.Impact.{GrantChange, Impact, difference, append_grant_change}
use partitur.Score.Projection.{items_of, project_movement, project_movements, projection_value}
use partitur.Score.Changes.{add_objects}
use partitur.Score.Compare.{
  insert_grant, sort_grants, kept_grants, new_grants, impact_between, compare,
}
use partitur.Score.Narrower.{strings_kept, added-within, impact_lem}

unfoldable pub adds_no_grant : List GrantChange → Bool
adds_no_grant [] = true
adds_no_grant (g ∷ gs) = is_empty g.added && adds_no_grant gs

insert_grant_lem :
    (g : GrantChange) (gs : List GrantChange)
    → adds_no_grant (insert_grant g gs) ≡ (is_empty g.added && adds_no_grant gs)
unfolding insert_grant adds_no_grant
insert_grant_lem g [] = refl
insert_grant_lem g (h ∷ gs) = ground (arith, insert_grant_lem g gs)

sort_grants_lem : (gs : List GrantChange) → adds_no_grant (sort_grants gs) ≡ adds_no_grant gs
unfolding sort_grants adds_no_grant
sort_grants_lem [] = refl
sort_grants_lem (g ∷ gs) = ground (arith, sort_grants_lem gs, insert_grant_lem g (sort_grants gs))

append_lem :
    (gs : List GrantChange) (g : GrantChange)
    → adds_no_grant (gs ++ g ∷ []) ≡ (adds_no_grant gs && is_empty g.added)
unfolding adds_no_grant
append_lem [] g = ground arith
append_lem (h ∷ gs) g = ground (arith, append_lem gs g)

append_grant_change_lem :
    (gs : List GrantChange) (id : String) (before after : List String)
    → adds_no_grant (append_grant_change gs id before after)
      ≡ (adds_no_grant gs && is_empty (difference after before))
unfolding append_grant_change
append_grant_change_lem gs id before after = ground (
  arith,
  append_lem gs (record {
    movement_id = id;
    added = difference after before;
    removed = difference before after;
  }),
)

-- The grants of a movement that a map has, and none of one that it has not.
abbrev grants_in : String → Dict Fields → List String
grants_in id d = elim (lookup id d) [ none ↦ [] | some m ↦ must_strings m "grants" ]

unfoldable kept_within : Dict Fields → Dict Fields → Bool
kept_within [] right = true
kept_within ((id, m) ∷ ms) right =
    is_empty (difference (grants_in id right) (must_strings m "grants")) && kept_within ms right

unfoldable new_within : Dict Fields → Dict Fields → Bool
new_within left [] = true
new_within left ((id, n) ∷ ns) =
    (if has id left then true else is_empty (difference (must_strings n "grants") []))
    && new_within left ns

kept_grants_lem :
    (ms right : Dict Fields) (gs : List GrantChange)
    → adds_no_grant (kept_grants ms right gs) ≡ (adds_no_grant gs && kept_within ms right)
unfolding kept_grants kept_within
kept_grants_lem [] right gs = ground arith
kept_grants_lem ((id, m) ∷ ms) right gs =
    let next = append_grant_change gs id (must_strings m "grants") (grants_in id right) in
    ground (
      arith,
      kept_grants_lem ms right next,
      append_grant_change_lem gs id (must_strings m "grants") (grants_in id right),
    )

new_grants_lem :
    (left ns : Dict Fields) (gs : List GrantChange)
    → adds_no_grant (new_grants left ns gs) ≡ (adds_no_grant gs && new_within left ns)
unfolding new_grants new_within
new_grants_lem left [] gs = ground arith
new_grants_lem left ((id, n) ∷ ns) gs = elim (Bool-cases (has id left)) [
  | inl old ↦ ground (arith, new_grants_lem left ns gs)
  | inr new ↦ ground (
    arith,
    new_grants_lem left ns (append_grant_change gs id [] (must_strings n "grants")),
    append_grant_change_lem gs id [] (must_strings n "grants"),
  )
]

kept_within_empty :
    (ms right : Dict Fields) (id : String) (m : Fields)
    → kept_within ms right ≡ true
    → lookup id ms ≡ some m
    → is_empty (difference (grants_in id right) (must_strings m "grants")) ≡ true
unfolding kept_within lookup
kept_within_empty [] right id m h k = absurd (ground arith)
kept_within_empty ((j, n) ∷ ms) right id m h k = elim (Bool-cases (str_eq j id)) [
  | inl same ↦
      let at_j =
        subst (λ z. is_empty (difference (grants_in z right) (must_strings n "grants")) ≡ true)
          ((eq_iff j id).0 same) (ground arith) in
      subst (λ z. is_empty (difference (grants_in id right) (must_strings z "grants")) ≡ true)
        (ground arith) at_j
  | inr other ↦ kept_within_empty ms right id m (ground arith) (ground arith)
]

new_within_empty :
    (left ns : Dict Fields) (id : String) (n : Fields)
    → new_within left ns ≡ true
    → lookup id ns ≡ some n
    → lookup id left ≡ none
    → is_empty (difference (must_strings n "grants") []) ≡ true
unfolding new_within lookup
new_within_empty left [] id n h k none_left = absurd (ground arith)
new_within_empty left ((j, m) ∷ ns) id n h k none_left = elim (Bool-cases (str_eq j id)) [
  | inl same ↦
      let at_j =
        subst
          (λ z.
            (if has z left then true else is_empty (difference (must_strings m "grants") []))
            ≡ true)
          ((eq_iff j id).0 same) (ground arith) in
      ground arith
  | inr other ↦ new_within_empty left ns id n (ground arith) (ground arith) none_left
]

-- The last movement with an identifier, which is the only one of a compiled score.
unfoldable pub movement_named : String → List Movement → Option Movement
movement_named id [] = none
movement_named id (m ∷ ms) = elim (movement_named id ms) [
  | some later ↦ some later
  | none ↦ if str_eq m.id id then some m else none
]

abbrev projected : Option Movement → Option Fields → Option Fields
projected none other = other
projected (some m) other = some (project_movement m)

items_kept : (vs : List Value) → items (items_of vs) ≡ vs
unfolding items items_of
items_kept [] = refl
items_kept (v ∷ vs) = ap (λ ws. v ∷ ws) (items_kept vs)

id_kept : (m : Movement) → must_string (project_movement m) "id" ≡ m.id
unfolding must_string project_movement get
id_kept m = refl

lookup-add_objects :
    (id : String) (ms : List Movement) (d : Dict Fields)
    → lookup id (add_objects (project_movements ms) d)
      ≡ projected (movement_named id ms) (lookup id d)
unfolding add_objects project_movements movement_named
lookup-add_objects id [] d = refl
lookup-add_objects id (m ∷ ms) d =
    let next = insert (must_string (project_movement m) "id") (project_movement m) d in
    ground (
      arith,
      lookup-add_objects id ms next,
      lookup-insert (must_string (project_movement m) "id") id (project_movement m) d,
      id_kept m,
    )

grants_kept : (m : Movement) → must_strings (project_movement m) "grants" ≡ sorted_strings m.grants
unfolding must_strings must_array get project_movement items
grants_kept m = strings_kept (sorted_strings m.grants)

movements_kept :
    (s : Score) → must_array (projection_value s) "movements" ≡ project_movements s.movements
unfolding must_array get projection_value items
movements_kept s = items_kept (project_movements s.movements)

-- The grants of the movement with an identifier.
abbrev pub grants_named : String → Score → List String
grants_named id s = elim (movement_named id s.movements) [ none ↦ [] | some m ↦ m.grants ]

abbrev objects_of : Score → Dict Fields
objects_of s = add_objects (must_array (projection_value s) "movements") []

lookup-objects_of :
    (id : String) (s : Score)
    → lookup id (objects_of s) ≡ projected (movement_named id s.movements) none
unfolding lookup
lookup-objects_of id s =
    subst (λ vs. lookup id (add_objects vs []) ≡ projected (movement_named id s.movements) none)
      (sym (movements_kept s)) (lookup-add_objects id s.movements [])

module _ (subtree_hash : String → Value → String) (before after : Score) (impact : Impact)
    (compared : compare subtree_hash before after ≡ some impact)
    (no_grant : adds_no_grant impact.grants ≡ true) where
  within_lem :
      (kept_within (objects_of before) (objects_of after) ≡ true)
      × (new_within (objects_of before) (objects_of after) ≡ true)
  unfolding impact_between
  within_lem =
      let old = objects_of before in
      let new = objects_of after in
      let found : impact.grants ≡ sort_grants (new_grants old new (kept_grants old new [])) =
        ap (λ i. i.grants) (impact_lem subtree_hash before after impact compared) in
      let all : adds_no_grant [] && kept_within old new && new_within old new ≡ true = ground (
        arith,
        subst (λ gs. adds_no_grant gs ≡ true) found no_grant,
        sort_grants_lem (new_grants old new (kept_grants old new [])),
        new_grants_lem old new (kept_grants old new []),
        kept_grants_lem old new [],
      ) in
      ground arith

  kept_lem :
      (id x : String) (m n : Movement)
      → movement_named id before.movements ≡ some m
      → movement_named id after.movements ≡ some n
      → contains n.grants x ≡ true
      → contains m.grants x ≡ true
  kept_lem id x m n was is h =
      let found : lookup id (objects_of before) ≡ some (project_movement m) =
        lookup-objects_of id before ∙ ap (λ o. projected o none) was in
      let now : lookup id (objects_of after) ≡ some (project_movement n) =
        lookup-objects_of id after ∙ ap (λ o. projected o none) is in
      let none_added =
        kept_within_empty (objects_of before) (objects_of after) id (project_movement m)
          within_lem.0 found in
      added-within m.grants n.grants x
        (ground (arith, none_added, now, grants_kept m, grants_kept n)) h

  new_lem :
      (id x : String) (n : Movement)
      → movement_named id before.movements ≡ none
      → movement_named id after.movements ≡ some n
      → contains n.grants x ≡ true
      → contains [] x ≡ true
  unfolding sorted_strings
  new_lem id x n was is h =
      let found : lookup id (objects_of before) ≡ none =
        lookup-objects_of id before ∙ ap (λ o. projected o none) was in
      let now : lookup id (objects_of after) ≡ some (project_movement n) =
        lookup-objects_of id after ∙ ap (λ o. projected o none) is in
      let none_added =
        new_within_empty (objects_of before) (objects_of after) id (project_movement n) within_lem.1
          now found in
      added-within [] n.grants x
        (subst (λ gs. is_empty (difference gs []) ≡ true) (grants_kept n) none_added) h

  -- Each grant of a movement of the second score is one that its movement has in the first.
  pub grants_lem :
      (id x : String)
      → contains (grants_named id after) x ≡ true
      → contains (grants_named id before) x ≡ true
  grants_lem id x h = elim (Option-cases (movement_named id after.movements)) [
    | inl gone ↦ absurd (ground arith)
    | inr (n, is) ↦ elim (Option-cases (movement_named id before.movements)) [
      | inl new ↦ absurd (ground (arith, new_lem id x n new is))
      | inr (m, was) ↦ ground (arith, kept_lem id x m n was is)
    ]
  ]
