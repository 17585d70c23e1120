-- ===== src/Docs/Summary/Nodes/Refines.antt =====
-- The nodes of a page, as toggles with their lists.
use oauth.Prelude.{
  ℕ, zero, suc, ◌≡◌, refl, ap, ◌∙◌, List, [], ◌∷◌, Bool, true, false, not, none, some, Bytes, inl,
  inr, ◌⊎◌, map, arith, get_elem?,
}
use oauth.Docs.Summary.{
  Lists, no_list, full_only, compact_and_full, Toggle, Summaries, next_text, next_lists,
  flip_toggle, click_found, click_toggle,
}
use oauth.Docs.Summary.Nodes.{
  Node, container, other, summary_list, toggle_next, flip_next, flip_at, flip_from, toggle_count,
  flip_all, text_at, Page, click_text, click_page,
}

-- Whether the next list is visible.
unfoldable pub next_visible : List Node → Bool
next_visible [] = false
next_visible (container text ∷ rest) = next_visible rest
next_visible (other n ∷ rest) = next_visible rest
next_visible (summary_list c v ∷ rest) = v

unfoldable pub next_list : List Node → Lists
unfolding next_visible
next_list [] = no_list
next_list (container text ∷ rest) = next_list rest
next_list (other n ∷ rest) = next_list rest
next_list (summary_list true v ∷ rest) = compact_and_full v (next_visible rest)
next_list (summary_list false v ∷ rest) = full_only v

-- Each toggle with the lists that a search from its container finds.
unfoldable pub view : List Node → List Toggle
unfolding next_list
view [] = []
view (container text ∷ rest) = record { text_content = text; lists = next_list rest } ∷ view rest
view (other n ∷ rest) = view rest
view (summary_list c v ∷ rest) = view rest

-- A full list comes before the next container.
abbrev Full : List Node → Type 0
Full [] = ⊥
Full (container text ∷ rest) = ⊥
Full (other n ∷ rest) = Full rest
Full (summary_list c v ∷ rest) = c ≡ false

-- A list, with a full one behind it if it is compact, comes before the next container.
abbrev Leads : List Node → Type 0
Leads [] = ⊥
Leads (container text ∷ rest) = ⊥
Leads (other n ∷ rest) = Leads rest
Leads (summary_list true v ∷ rest) = Full rest
Leads (summary_list false v ∷ rest) = Unit

-- Every container has lists of its own.
abbrev pub Owned : List Node → Type 0
Owned [] = Unit
Owned (container text ∷ rest) = Leads rest × Owned rest
Owned (other n ∷ rest) = Owned rest
Owned (summary_list c v ∷ rest) = Owned rest

-- What a toggle of the list behind changes, up to the next container.
toggle_next-own :
    (nodes : List Node)
    → Full nodes
    → Full (toggle_next nodes)
      × (next_visible (toggle_next nodes) ≡ not (next_visible nodes))
      × (view (toggle_next nodes) ≡ view nodes)
      × (toggle_count (toggle_next nodes) ≡ toggle_count nodes)
unfolding toggle_next next_visible view toggle_count
toggle_next-own [] h = elim h [ ]
toggle_next-own (container text ∷ rest) h = elim h [ ]
toggle_next-own (other n ∷ rest) h = toggle_next-own rest h
toggle_next-own (summary_list c v ∷ rest) h = (h, refl, refl, refl)

toggle_next-Owned : (nodes : List Node) → Full nodes → Owned nodes → Owned (toggle_next nodes)
unfolding toggle_next
toggle_next-Owned [] h own = elim h [ ]
toggle_next-Owned (container text ∷ rest) h own = elim h [ ]
toggle_next-Owned (other n ∷ rest) h own = toggle_next-Owned rest h own
toggle_next-Owned (summary_list c v ∷ rest) h own = own

-- The lists of a container, flipped.
flip_next-own :
    (nodes : List Node)
    → Leads nodes
    → Leads (flip_next nodes)
      × (next_list (flip_next nodes) ≡ next_lists (next_list nodes))
      × (view (flip_next nodes) ≡ view nodes)
      × (toggle_count (flip_next nodes) ≡ toggle_count nodes)
unfolding flip_next next_list next_lists next_visible view toggle_count
flip_next-own [] h = elim h [ ]
flip_next-own (container text ∷ rest) h = elim h [ ]
flip_next-own (other n ∷ rest) h = flip_next-own rest h
flip_next-own (summary_list true v ∷ rest) h =
    let (full, shown, same, count) = toggle_next-own rest h in
    (full, ap (compact_and_full (not v)) shown, same, count)
flip_next-own (summary_list false v ∷ rest) h = (refl, refl, refl, refl)

flip_next-Owned : (nodes : List Node) → Leads nodes → Owned nodes → Owned (flip_next nodes)
unfolding flip_next
flip_next-Owned [] h own = elim h [ ]
flip_next-Owned (container text ∷ rest) h own = elim h [ ]
flip_next-Owned (other n ∷ rest) h own = flip_next-Owned rest h own
flip_next-Owned (summary_list true v ∷ rest) h own = toggle_next-Owned rest h own
flip_next-Owned (summary_list false v ∷ rest) h own = own

-- The rounds for later toggles pass over what stands before them.
flip_from-container :
    (i rounds : ℕ) (text : Bytes) (rest : List Node)
    → flip_from (suc i) rounds (container text ∷ rest) ≡ container text ∷ flip_from i rounds rest
unfolding flip_from flip_at
flip_from-container i zero text rest = refl
flip_from-container i (suc rounds) text rest =
    flip_from-container (suc i) rounds text (flip_at i rest)

flip_from-other :
    (i rounds : ℕ) (n : ℕ) (rest : List Node)
    → flip_from i rounds (other n ∷ rest) ≡ other n ∷ flip_from i rounds rest
unfolding flip_from flip_at
flip_from-other i zero n rest = refl
flip_from-other i (suc rounds) n rest = flip_from-other (suc i) rounds n (flip_at i rest)

flip_from-list :
    (i rounds : ℕ) (c v : Bool) (rest : List Node)
    → flip_from i rounds (summary_list c v ∷ rest) ≡ summary_list c v ∷ flip_from i rounds rest
unfolding flip_from flip_at
flip_from-list i zero c v rest = refl
flip_from-list i (suc rounds) c v rest = flip_from-list (suc i) rounds c v (flip_at i rest)

-- They leave the lists of the container before them as they are.
rounds-Full :
    (i rounds : ℕ) (nodes : List Node)
    → Full nodes
    → Full (flip_from i rounds nodes)
      × (next_visible (flip_from i rounds nodes) ≡ next_visible nodes)
unfolding next_visible
rounds-Full i rounds [] h = elim h [ ]
rounds-Full i rounds (container text ∷ rest) h = elim h [ ]
rounds-Full i rounds (other n ∷ rest) h =
    rw (flip_from-other i rounds n rest) (rounds-Full i rounds rest h)
rounds-Full i rounds (summary_list c v ∷ rest) h = rw (flip_from-list i rounds c v rest) (h, refl)

rounds-Leads :
    (i rounds : ℕ) (nodes : List Node)
    → Leads nodes
    → Leads (flip_from i rounds nodes) × (next_list (flip_from i rounds nodes) ≡ next_list nodes)
unfolding next_list
rounds-Leads i rounds [] h = elim h [ ]
rounds-Leads i rounds (container text ∷ rest) h = elim h [ ]
rounds-Leads i rounds (other n ∷ rest) h =
    rw (flip_from-other i rounds n rest) (rounds-Leads i rounds rest h)
rounds-Leads i rounds (summary_list true v ∷ rest) h =
    let (full, same) = rounds-Full i rounds rest h in
    rw (flip_from-list i rounds true v rest) (full, ap (compact_and_full v) same)
rounds-Leads i rounds (summary_list false v ∷ rest) h =
    rw (flip_from-list i rounds false v rest) (tt, refl)

-- The rounds flip every toggle, with the lists of its own.
flip_from-view :
    (rounds : ℕ) (nodes : List Node)
    → toggle_count nodes ≡ rounds
    → Owned nodes
    → (view (flip_from 0 rounds nodes) ≡ map flip_toggle (view nodes))
      × Owned (flip_from 0 rounds nodes)
unfolding view toggle_count flip_toggle flip_from
flip_from-view zero [] e own = (refl, tt)
flip_from-view (suc rounds) [] e own = absurd (omega arith)
flip_from-view zero (container text ∷ rest) e own = absurd (omega arith)
flip_from-view (suc rounds) (container text ∷ rest) e (leads, own) =
    let (leads', flipped, same, count) = flip_next-own rest leads in
    let (seen, owned) =
      flip_from-view rounds (flip_next rest) (omega (arith, count))
        (flip_next-Owned rest leads own) in
    let (leads'', kept) = rounds-Leads 0 rounds (flip_next rest) leads' in
    rw (flip_from-container 0 rounds (next_text text) (flip_next rest)) (
      λ i.
          record { text_content = next_text text; lists = (kept ∙ flipped) i }
          ∷ (seen ∙ ap (map flip_toggle) same) i,
      (leads'', owned),
    )
flip_from-view rounds (other n ∷ rest) e own =
    rw (flip_from-other 0 rounds n rest) (flip_from-view rounds rest e own)
flip_from-view rounds (summary_list c v ∷ rest) e own =
    rw (flip_from-list 0 rounds c v rest) (flip_from-view rounds rest e own)

text_at-view :
    (i : ℕ) (nodes : List Node)
    → (text_at i nodes ≡ none) × (get_elem? (view nodes) i ≡ none)
      ⊎ ((t : Toggle) × (text_at i nodes ≡ some t.text_content)
          × (get_elem? (view nodes) i ≡ some t))
unfolding text_at view
text_at-view i [] = inl (refl, refl)
text_at-view i (other n ∷ rest) = text_at-view i rest
text_at-view i (summary_list c v ∷ rest) = text_at-view i rest
text_at-view zero (container text ∷ rest) =
    inr (record { text_content = text; lists = next_list rest }, refl, refl)
text_at-view (suc i) (container text ∷ rest) = text_at-view i rest

-- The page, as its toggles with their lists.
unfoldable pub view_page : Page → Summaries
unfolding view
view_page p = record { toggles = view p.nodes; summary_collapsed = p.summary_collapsed }

-- Where every container has lists of its own before the next one, a click, which runs over the
-- nodes of the page and inserts the compact copies among them, does to the toggles and their lists
-- what the description by toggles says, and leaves every container with lists of its own.
pub click_page-view :
    (i : ℕ) (p : Page)
    → Owned p.nodes
    → (view_page (click_page i p) ≡ click_toggle i (view_page p)) × Owned (click_page i p).nodes
unfolding click_page click_text click_toggle click_found view_page flip_all
click_page-view i p own = elim (text_at-view i p.nodes) [
  | inl (no_text, no_toggle) ↦ rw (no_text, no_toggle) (refl, own)
  | inr (t, is_text, is_toggle) ↦
      let (flipped, owned) = flip_from-view (toggle_count p.nodes) p.nodes refl own in
      rw (is_text, is_toggle)
        (
          ap (λ toggles. record { toggles = toggles; summary_collapsed = some t.text_content })
              flipped,
          owned,
        )
]
