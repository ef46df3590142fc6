-- ===== src/Score/Parts.antt =====
-- internal/score/patch.go: a pointer whose first part is a plain name begins with that name.
use Prim.Native.Char.{Char, code}
use Prim.Native.String as chars
use Prim.Native.String.{◌++◌ as ◌⧺◌}
use Prim.Native.String.append as clauses
use text.Mathlib.TextEquality.{Char-path}
use partitur.Prelude.{
  ◌≡◌, refl, sym, ap, ◌∙◌, subst, arith, String, Bool, true, false, not, ◌&&◌, ◌||◌, Option, none,
  some, List, [], ◌∷◌, ◌==◌, str_eq, Bool-cases, Option-cases, inl, inr, ◌⊎◌, ◌≢◌,
}
use partitur.Score.Pointer.{put, unescape, split, unescape_all, patch_pointer}

-- No character of the name is escaped in a pointer.
unfoldable pub plain : String → Bool
plain chars.[] = true
plain (chars.◌∷◌ c s) = not (code c == 126 || code c == 47) && plain s

head_plain :
    (c : Char) (s t : String)
    → (chars.◌∷◌ c s) ≡ t
    → plain t ≡ true
    → (not (code c == 126 || code c == 47) ≡ true) × (plain s ≡ true)
unfolding plain
head_plain c s t same h =
    let whole = subst (λ u. plain u ≡ true) (sym same) h in (ground arith, ground arith)

escape_none :
    (c : Char) (o : Option String) (t : String)
    → (code c == 126 || code c == 47) ≡ true
    → plain t ≡ true
    → put c o ≢ some t
escape_none c none t escaped h e = ground arith
escape_none c (some r) t escaped h e = let whole = head_plain c r t (ground arith) h in ground arith

unescape-plain : (s t : String) → unescape s ≡ some t → plain t ≡ true → s ≡ t
unfolding unescape
unescape-plain chars.[] t e h = ground arith
unescape-plain (chars.◌∷◌ c chars.[]) t e h = ground arith
unescape-plain (chars.◌∷◌ c (chars.◌∷◌ d s)) t e h = elim (Bool-cases (code c == 126)) [
  | inl tilde ↦
      absurd (
        ground
          (arith, escape_none "~" (unescape s) t refl h, escape_none "/" (unescape s) t refl h))
  | inr other ↦ elim (Option-cases (unescape (chars.◌∷◌ d s))) [
    | inl failed ↦ absurd (ground arith)
    | inr (r, there) ↦
        let same : chars.◌∷◌ c r ≡ t = ground arith in
        ap (λ u. chars.◌∷◌ c u) (unescape-plain (chars.◌∷◌ d s) r there (head_plain c r t same h).1)
        ∙ same
  ]
]

split_some : (s : String) → (seg : String) × (more : List String) × (split s ≡ seg ∷ more)
unfolding split
split_some chars.[] = ("", [], refl)
split_some (chars.◌∷◌ c s) = elim (Bool-cases (code c == 47)) [
  | inl slash ↦ ("", split s, ground arith)
  | inr other ↦ let (seg, more, there) = split_some s in (chars.◌∷◌ c seg, more, ground arith)
]

split_lem :
    (s seg : String) (more : List String)
    → split s ≡ seg ∷ more
    → (s ≡ seg) ⊎ ((rest : String) × (s ≡ seg ⧺ ("/" ⧺ rest)))
unfolding split
split_lem chars.[] seg more e = inl (ground arith)
split_lem (chars.◌∷◌ c s) seg more e = elim (Bool-cases (code c == 47)) [
  | inl slash ↦
      let empty : "" ≡ seg = ground arith in
      let start : chars.◌∷◌ c s ≡ "/" ⧺ s =
        ap (λ d. chars.◌∷◌ d s) (Char-path c "/" (ground arith))
        ∙ sym (clauses.cons "/" "" s ∙ ap (λ u. chars.◌∷◌ "/" u) (clauses.nil s)) in
      inr (s, start ∙ sym (clauses.nil ("/" ⧺ s)) ∙ ap (λ u. u ⧺ ("/" ⧺ s)) empty)
  | inr other ↦
      let (next, later, there) = split_some s in
      let same : chars.◌∷◌ c next ≡ seg = ground arith in
      elim (split_lem s next later there) [
        | inl whole ↦ inl (ap (λ u. chars.◌∷◌ c u) whole ∙ same)
        | inr (rest, whole) ↦ inr (
          rest,
          ap (λ u. chars.◌∷◌ c u) whole
              ∙ sym (clauses.cons c next ("/" ⧺ rest))
              ∙ ap (λ u. u ⧺ ("/" ⧺ rest)) same,
        )
      ]
]

unescape_first :
    (seg : String) (more : List String) (k t : String) (ts : List String)
    → unescape_all (seg ∷ more) ≡ some (t ∷ ts)
    → t ≡ k
    → unescape seg ≡ some k
unfolding unescape_all
unescape_first seg more k t ts e same = elim (Option-cases (unescape seg)) [
  | inl failed ↦ absurd (ground arith)
  | inr (r, there) ↦ elim (Option-cases (unescape_all more)) [
    | inl failed ↦ absurd (ground arith)
    | inr (rs, later) ↦ ground arith
  ]
]

pub first_part :
    (path k t : String) (ts : List String)
    → patch_pointer path ≡ some (t ∷ ts)
    → plain k ≡ true
    → t ≡ k
    → (path ≡ "/" ⧺ k) ⊎ ((rest : String) × (path ≡ "/" ⧺ (k ⧺ ("/" ⧺ rest))))
unfolding patch_pointer unescape_all
first_part chars.[] k t ts e h same = absurd (ground arith)
first_part (chars.◌∷◌ c s) k t ts e h same = elim (Bool-cases (code c == 47)) [
  | inr other ↦ absurd (ground arith)
  | inl slash ↦
      let (seg, more, there) = split_some s in
      let parsed : unescape_all (seg ∷ more) ≡ some (t ∷ ts) = ground arith in
      let first : unescape seg ≡ some k = unescape_first seg more k t ts parsed same in
      let plain_seg = unescape-plain seg k first h in
      let start = λ (u : String).
        (ap (λ d. chars.◌∷◌ d u) (Char-path c "/" (ground arith))
          ∙ sym (clauses.cons "/" "" u ∙ ap (λ w. chars.◌∷◌ "/" w) (clauses.nil u))) in
      elim (split_lem s seg more there) [
        | inl whole ↦ inl (ap (λ u. chars.◌∷◌ c u) (whole ∙ plain_seg) ∙ start k)
        | inr (rest, whole) ↦ inr (
          rest,
          ap (λ u. chars.◌∷◌ c u) (whole ∙ ap (λ u. u ⧺ ("/" ⧺ rest)) plain_seg)
              ∙ start (k ⧺ ("/" ⧺ rest)),
        )
      ]
]

-- Only the empty pointer has no parts.
pub patch_pointer-some : (path : String) → str_eq path "" ≡ false → patch_pointer path ≢ some []
unfolding patch_pointer unescape_all
patch_pointer-some chars.[] h e = absurd (ground arith)
patch_pointer-some (chars.◌∷◌ c s) h e =
    let (seg, more, there) = split_some s in
    elim (Option-cases (unescape seg)) [
      | inl failed ↦ absurd (ground arith)
      | inr (r, first) ↦ elim (Option-cases (unescape_all more)) [
        | inl failed ↦ absurd (ground arith)
        | inr (rs, later) ↦ absurd (ground arith)
      ]
    ]
