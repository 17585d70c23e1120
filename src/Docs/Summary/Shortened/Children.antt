-- ===== src/Docs/Summary/Shortened/Children.antt =====
-- The links among the children of an element, over the rounds of `buildCompactSummary`.
use oauth.Prelude.{
  ℕ, ◌≡◌, ◌≢◌, refl, ap, ◌∙◌, List, [], ◌∷◌, ◌++◌, All, Bool-cases, inl, inr, Option, none, some,
  ◌==◌, if◌then◌else◌,
}
use oauth.Docs.Summary.Shortened.{
  Tag, Inlines, DomNode, text, link, copied, element, DomNodes, no_nodes, nodes, node_links, links,
  shorten, child_link, lifted, or_else, round, rounds,
}
use oauth.Docs.Summary.Shortened.Described.{first_link, short_node, Apart, Distinct}
use oauth.Docs.Summary.Shortened.Rounds.{
  node_rounds, same_key, child_link-absent, Apart-sym, node_links-short,
}

-- The first of the links whose parent is the element.
unfoldable pub first_child : List ℕ → DomNodes → Option (Tag × Inlines)
unfolding or_else child_link
first_child [] ns = none
first_child (k ∷ ks) ns = or_else (child_link k ns) (first_child ks ns)

-- A round for a link that stands deeper, or elsewhere, leaves the links among the children.
child_link-lifted :
    (j : ℕ) (t : Tag) (l : Option (Tag × Inlines)) (ms ns : DomNodes)
    → child_link j (nodes (lifted t l ms) ns) ≡ child_link j ns
unfolding child_link lifted
child_link-lifted j t none ms ns = refl
child_link-lifted j t (some (t', is)) ms ns = refl

child_link-round :
    (j k : ℕ) (ns : DomNodes) → child_link k ns ≡ none → child_link j (round k ns) ≡ child_link j ns
unfolding child_link round lifted
child_link-round j k no_nodes h = refl
child_link-round j k (nodes (text w) ns) h = child_link-round j k ns h
child_link-round j k (nodes (copied t is) ns) h = child_link-round j k ns h
child_link-round j k (nodes (element t ms) ns) h =
    child_link-lifted j t (child_link k ms) (round k ms) (round k ns) ∙ child_link-round j k ns h
child_link-round j k (nodes (link i t is) ns) h = elim (Bool-cases (i == k)) [
  | inl here ↦ let found : ◌≡◌ {A = Option (Tag × Inlines)} (some (t, is)) none = rw here at h in cc
  | inr other ↦
      let rest = child_link-round j k ns (rw other at h) in
      rw other (ap (λ c. if i == j then some (t, is) else c) rest)
]

node_rounds-copied :
    (ks : List ℕ) (t : Tag) (is : Inlines) → node_rounds ks (copied t is) ≡ copied t is
unfolding node_rounds round
node_rounds-copied [] t is = refl
node_rounds-copied (k ∷ ks) t is = node_rounds-copied ks t is

first_child-round :
    (ks : List ℕ) (k : ℕ) (ns : DomNodes)
    → child_link k ns ≡ none
    → first_child ks (round k ns) ≡ first_child ks ns
unfolding first_child or_else
first_child-round [] k ns h = refl
first_child-round (j ∷ ks) k ns h =
    λ i. or_else (child_link-round j k ns h i) (first_child-round ks k ns h i)

-- The rounds on an element, by the result of the first.
node_rounds-lifted :
    (ks : List ℕ) (t : Tag) (k : ℕ) (ns : DomNodes) (l : Option (Tag × Inlines))
    → child_link k ns ≡ l
    → node_rounds ks (element t (round k ns))
      ≡ lifted t (first_child ks (round k ns)) (rounds ks (round k ns))
    → node_rounds ks (lifted t l (round k ns))
      ≡ lifted t (or_else l (first_child ks ns)) (rounds ks (round k ns))
unfolding lifted or_else
node_rounds-lifted ks t k ns none e rest =
    rest ∙ ap (λ l. lifted t l (rounds ks (round k ns))) (first_child-round ks k ns e)
node_rounds-lifted ks t k ns (some (t', is)) e rest = node_rounds-copied ks t' (shorten is)

pub node_rounds-element :
    (ks : List ℕ) (t : Tag) (ns : DomNodes)
    → node_rounds ks (element t ns) ≡ lifted t (first_child ks ns) (rounds ks ns)
unfolding node_rounds rounds round first_child lifted
node_rounds-element [] t ns = refl
node_rounds-element (k ∷ ks) t ns =
    node_rounds-lifted ks t k ns (child_link k ns) refl (node_rounds-element ks t (round k ns))

-- Links that are elsewhere do not matter.
first_child-append :
    (xs ys : List ℕ) (ns : DomNodes)
    → All (λ x. child_link x ns ≡ none) xs
    → first_child (xs ++ ys) ns ≡ first_child ys ns
unfolding first_child or_else
first_child-append [] ys ns h = refl
first_child-append (x ∷ xs) ys ns h = rw h.0 (first_child-append xs ys ns h.1)

first_child-same :
    (ks : List ℕ) (ns ms : DomNodes)
    → ((k : ℕ) → child_link k ms ≡ child_link k ns)
    → first_child ks ms ≡ first_child ks ns
unfolding first_child
first_child-same [] ns ms h = refl
first_child-same (k ∷ ks) ns ms h = λ i. or_else (h k i) (first_child-same ks ns ms h i)

children_absent :
    (xs : List ℕ) (ns : DomNodes) → Apart xs (links ns) → All (λ x. child_link x ns ≡ none) xs
children_absent [] ns h = tt
children_absent (x ∷ xs) ns h = (child_link-absent x ns h.0, children_absent xs ns h.1)

-- The first link found among the children is the first child that is a link.
pub first_child-links : (ns : DomNodes) → Distinct ns → first_child (links ns) ns ≡ first_link ns
unfolding first_child links child_link first_link or_else
first_child-links no_nodes h = refl
first_child-links (nodes (text w) ns) h =
    first_child-same (links ns) ns _ (λ k. refl) ∙ first_child-links ns h.1
first_child-links (nodes (copied t is) ns) h =
    first_child-same (links ns) ns _ (λ k. refl) ∙ first_child-links ns h.1
first_child-links (nodes (link j t is) ns) h = rw (same_key j) refl
first_child-links (nodes (element t ms) ns) h =
    first_child-same (links ms ++ links ns) ns _ (λ k. refl)
    ∙ first_child-append (links ms) (links ns) ns
        (children_absent (links ms) ns (Apart-sym (links ns) (links ms) h.2))
    ∙ first_child-links ns h.1

pub Apart-short :
    (ks : List ℕ) (n : DomNode) → Apart ks (node_links n) → Apart ks (node_links (short_node n))
Apart-short [] n h = tt
Apart-short (k ∷ ks) n h = (node_links-short (λ j. j ≢ k) n h.0, Apart-short ks n h.1)
