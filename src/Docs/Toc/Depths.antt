-- ===== src/Docs/Toc/Depths.antt =====
-- The depth of the links of the table of contents.
use oauth.Prelude.{
  ℕ, zero, suc, ◌+◌, ◌-◌, ◌≤◌, ◌≡◌, refl, sym, ap, ◌∙◌, List, [], ◌∷◌, ◌++◌, append-nil,
  append_assoc, Bool, true, false, ◌&&◌, ◌||◌, some, Bytes, ltb, if◌then◌else◌, Bool-cases, inl,
  inr, All, arith,
}
use mathlib.Core.Option
use oauth.Docs.Toc.{
  Heading, Item, holder, link, Toc, open_list, descend, close_list, ascend, to_level, append_item,
  with_id, id_text, is_id_selector, numbered, id_from, heading_id, heading_title, add_named,
  add_heading, then_headings, is_passed_over, add_headings, empty_toc, generate_toc,
}

-- The depths of the links, without the items that only hold a list.
unfoldable pub link_depths : List Item → List ℕ
link_depths [] = []
link_depths (holder depth ∷ items) = link_depths items
link_depths (link depth id title ∷ items) = depth ∷ link_depths items

link_depths-append : (xs ys : List Item) → link_depths (xs ++ ys) ≡ link_depths xs ++ link_depths ys
unfolding link_depths
link_depths-append [] ys = refl
link_depths-append (holder depth ∷ xs) ys = link_depths-append xs ys
link_depths-append (link depth id title ∷ xs) ys = ap (depth ∷◌) (link_depths-append xs ys)

-- The level of the current list, counted from the first level.
abbrev At : ℕ → Toc → Type 0
At base t = t.last_level ≡ base + t.depth

-- At another level, with the same links.
abbrev Moved : ℕ → ℕ → Toc → Toc → Type 0
Moved base level t t' =
    (t'.last_level ≡ base + t'.depth)
    × (t'.last_level ≡ level)
    × (link_depths t'.items ≡ link_depths t.items)

no_link :
    (xs : List Item) (depth : ℕ)
    → link_depths xs ++ link_depths (holder depth ∷ []) ≡ link_depths xs
unfolding link_depths
no_link xs depth = append-nil (link_depths xs)

higher :
    (level last depth : ℕ)
    → suc level ≤ last
    → suc 0 ≤ depth
    → (ltb level last && ltb 0 depth) ≡ true
higher level last depth h k = ground arith

open_list-Moved : (base : ℕ) (t : Toc) → At base t → Moved base (suc t.last_level) t (open_list t)
unfolding open_list
open_list-Moved base t h = elim (Bool-cases t.has_item) [
  | inl e ↦ rw e (omega arith, refl, refl)
  | inr e ↦ rw e (
    omega arith,
    refl,
    link_depths-append t.items (holder t.depth ∷ []) ∙ no_link t.items t.depth,
  )
]

descend-Moved :
    (base rounds : ℕ) (t : Toc)
    → At base t
    → Moved base (t.last_level + rounds) t (descend rounds t)
unfolding descend
descend-Moved base zero t h = (h, omega arith, refl)
descend-Moved base (suc rounds) t h =
    let (at, above, same) = open_list-Moved base t h in
    let (at', above', same') = descend-Moved base rounds (open_list t) at in
    (at', omega arith, same' ∙ same)

ascend-Moved :
    (base level rounds : ℕ) (t : Toc)
    → At base t
    → base ≤ level
    → level + rounds ≡ t.last_level
    → Moved base level t (ascend level rounds t)
unfolding ascend close_list
ascend-Moved base level zero t h low e = (h, omega arith, refl)
ascend-Moved base level (suc rounds) t h low e =
    rw (higher level t.last_level t.depth (omega arith) (omega arith)) (
      let (at, above, same) =
        ascend-Moved base level rounds (close_list t) (omega arith) low (omega arith) in
      (at, above, same))

to_level-Moved :
    (base level : ℕ) (t : Toc) → At base t → base ≤ level → Moved base level t (to_level level t)
unfolding to_level
to_level-Moved base level t h low = elim (Bool-cases (ltb t.last_level level)) [
  | inl e ↦
      let (at, above, same) = descend-Moved base (level - t.last_level) t h in
      rw e (at, ground arith, same)
  | inr e ↦ rw e (ascend-Moved base level (t.last_level - level) t h low (ground arith))
]

-- A heading adds one link, at the depth of its level.
Added : ℕ → ℕ → Toc → Toc → Type 0
Added base level t t' =
    (t'.last_level ≡ base + t'.depth)
    × (link_depths t'.items ≡ link_depths t.items ++ (level - base) ∷ [])

difference : (depth last base level : ℕ) → last ≡ base + depth → last ≡ level → depth ≡ level - base
difference depth last base level h e = omega arith

append_item-Added :
    (base level : ℕ) (id title : Bytes) (t t' : Toc)
    → Moved base level t t'
    → Added base level t (append_item id title t')
unfolding append_item link_depths Added
append_item-Added base level id title t t' (at, level_now, same) = (
  at,
  link_depths-append t'.items (link t'.depth id title ∷ [])
      ∙ (ap (◌++ t'.depth ∷ []) same
          ∙ ap (λ d. link_depths t.items ++ d ∷ [])
              (difference t'.depth t'.last_level base level at level_now)),
)

add_named-Added :
    (base : ℕ) (heading : Heading) (t : Toc) (named : Bytes × ℕ)
    → At base t
    → base ≤ heading.level
    → Added base heading.level t (add_named heading t named)
unfolding add_named with_id Added
add_named-Added base heading t named h low =
    let start = with_id named t in
    append_item-Added base heading.level named.0 (heading_title heading) start
      (to_level heading.level start) (to_level-Moved base heading.level start h low)

named_by : Bytes → Bytes → Bytes → Bool
named_by (c ∷ id) toc_id text = true
named_by [] (c ∷ id) text = true
named_by [] [] text = is_id_selector (id_text text)

-- A heading that is passed over, has an id or a "toc-id", or a text that makes a selector.
unfoldable pub is_nameable : Heading → Bool
unfolding named_by
is_nameable heading =
    is_passed_over heading || named_by heading.id heading.toc_id heading.text_content

id_from-named :
    (id toc_id text : Bytes) (t : Toc)
    → named_by id toc_id text ≡ true
    → (named : Bytes × ℕ) × (id_from id toc_id text t ≡ some named)
unfolding id_from named_by
id_from-named (c ∷ id) toc_id text t e = ((c ∷ id, t.counter), refl)
id_from-named [] (c ∷ id) text t e = ((c ∷ id, t.counter), refl)
id_from-named [] [] text t e = (numbered (id_text text) t, rw e refl)

add_heading-named :
    (heading : Heading) (t : Toc)
    → is_passed_over heading ≡ false
    → is_nameable heading ≡ true
    → (named : Bytes × ℕ) × (add_heading heading t ≡ some (add_named heading t named))
unfolding add_heading heading_id is_nameable
add_heading-named heading t kept nameable =
    let (named, is_named) =
      id_from-named heading.id heading.toc_id heading.text_content t (rw kept at nameable) in
    (named, ap (Option.map (add_named heading t)) is_named)

-- The levels of the headings that are not passed over, from the first level on.
unfoldable pub levels_from : ℕ → List Heading → List ℕ
levels_from base [] = []
levels_from base (heading ∷ headings) =
    let rest = levels_from base headings in
    if is_passed_over heading then rest else (heading.level - base) ∷ rest

add_headings-depths :
    (base : ℕ) (headings : List Heading) (t : Toc)
    → At base t
    → All (λ h. base ≤ h.level) headings
    → All (λ h. is_nameable h ≡ true) headings
    → (t' : Toc) × (add_headings headings t ≡ some t')
      × (link_depths t'.items ≡ link_depths t.items ++ levels_from base headings)
unfolding add_headings levels_from Added then_headings
add_headings-depths base [] t h low names = (t, refl, sym (append-nil (link_depths t.items)))
add_headings-depths base (heading ∷ headings) t h (low, lows) (name, names) =
    elim (Bool-cases (is_passed_over heading)) [
      | inl e ↦
          let (t', is_t, depths) = add_headings-depths base headings t h lows names in
          rw e (t', is_t, depths)
      | inr e ↦
          let (named, is_named) = add_heading-named heading t e name in
          let next = add_named heading t named in
          let (at_level, added) = add_named-Added base heading t named h low in
          let (t', is_t, depths) = add_headings-depths base headings next at_level lows names in
          rw e (
            t',
            ap (then_headings (add_headings headings)) is_named ∙ is_t,
            depths
                ∙ (ap (◌++ levels_from base headings) added
                    ∙ append_assoc (link_depths t.items) ((heading.level - base) ∷ [])
                        (levels_from base headings)),
          )
    ]

abbrev pub first_level : Bool → ℕ
first_level several_h1 = if several_h1 then 1 else 2

-- If no heading is above the first level, and each has an id, a "toc-id" or a text that makes a
-- selector, or is passed over, then there is a table: it has one link for each heading that is not
-- passed over, in their order, each as deep as its level is below the first level, however the levels
-- rise, fall and skip.
pub generate_toc-depths :
    (several_h1 : Bool) (ids : List Bytes) (headings : List Heading)
    → All (λ h. first_level several_h1 ≤ h.level) headings
    → All (λ h. is_nameable h ≡ true) headings
    → (items : List Item) × (generate_toc several_h1 ids headings ≡ some items)
      × (link_depths items ≡ levels_from (first_level several_h1) headings)
unfolding generate_toc empty_toc link_depths
generate_toc-depths several_h1 ids headings low names =
    let (t, is_t, depths) =
      add_headings-depths (first_level several_h1) headings (empty_toc several_h1 ids) (omega arith)
        low names in
    (t.items, ap (Option.map (λ t. t.items)) is_t, depths)
