-- ===== src/Docs/Frame/Clicks.antt =====
-- Clicks on the links of the search box.
use oauth.Prelude.{
  ℕ, ◌≡◌, refl, ap, List, [], ◌∷◌, Bool, true, false, not, ◌&&◌, some, Bytes, bytes_eq_refl, ◌==◌,
  map, All, Bool-cases, inl, inr,
}
use oauth.Docs.Frame.{
  FrameLink, Frame, SearchFrame, is_shown, is_src, clear_link, dim_link, light_link, hide_frame,
  show_frame, toggle_with, toggle_search_frame,
}

-- The link with the key is lit, and every other one is dim.
abbrev pub Lit : ℕ → FrameLink → Type 0
Lit key l = (l.active ≡ (l.key == key)) × (l.inactive ≡ not (l.key == key))

light-dim : (key : ℕ) (l : FrameLink) → Lit key (light_link key (dim_link l))
unfolding light_link dim_link
light-dim key l = elim (Bool-cases (l.key == key)) [
  | inl e ↦ rw (e, e) (refl, refl)
  | inr e ↦ rw (e, e) (refl, refl)
]

lights :
    (key : ℕ) (links : List FrameLink) → All (Lit key) (map (light_link key) (map dim_link links))
lights key [] = tt
lights key (l ∷ links) = (light-dim key l, lights key links)

clear-light :
    (key : ℕ) (l : FrameLink) → clear_link (dim_link (light_link key (dim_link l))) ≡ clear_link l
unfolding clear_link dim_link light_link
clear-light key l = elim (Bool-cases (l.key == key)) [ inl e ↦ rw e refl | inr e ↦ rw e refl ]

clears :
    (key : ℕ) (links : List FrameLink)
    → map clear_link (map dim_link (map (light_link key) (map dim_link links)))
      ≡ map clear_link links
clears key [] = refl
clears key (l ∷ links) = rw (clear-light key l) (ap (clear_link l ∷◌) (clears key links))

-- A click on a link whose list is not shown shows it in the frame, and lights this link alone; a
-- second click hides the frame, and leaves no link lit or dim.
pub toggle_search_frame-twice :
    (style_sheet : Bool) (key : ℕ) (link : Bytes) (s : SearchFrame) (f : Frame)
    → s.frame ≡ some f
    → (is_src f.src link && is_shown style_sheet f) ≡ false
    → ((toggle_search_frame style_sheet key link s).frame
        ≡ some (record { src = some link; style = some true }))
      × All (Lit key) (toggle_search_frame style_sheet key link s).links
      × (toggle_search_frame style_sheet key link (toggle_search_frame style_sheet key link s)
          ≡ record {
            frame = some (record { src = some link; style = some false });
            links = map clear_link s.links;
          })
unfolding toggle_search_frame toggle_with show_frame hide_frame is_shown is_src
toggle_search_frame-twice style_sheet key link s f is_frame hidden =
    rw (is_frame, hidden, bytes_eq_refl link)
      (
        refl,
        lights key s.links,
        ap
            (λ links. record {
              frame = some (record { src = some link; style = some false });
              links = links;
            })
            (clears key s.links),
      )
