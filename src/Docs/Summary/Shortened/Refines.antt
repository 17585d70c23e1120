-- ===== src/Docs/Summary/Shortened/Refines.antt =====
-- The loop of `buildCompactSummary` against a description without steps.
use oauth.Prelude.{
  ℕ, ◌≡◌, ◌≢◌, refl, ap, ◌∙◌, List, [], ◌∷◌, All, All-append, Bool-cases, inl, inr, codes,
}
use oauth.Docs.Summary.Shortened.{
  DomNode, text, link, copied, element, DomNodes, no_nodes, nodes, node_links, links, lifted, round,
  rounds, lift_links, SummaryList, build_compact_summary, drop_node, drop_nodes, is_dropped,
}
use oauth.Docs.Summary.Shortened.Described.{
  short_node, short_nodes, Apart, summary_list, DistinctNode, Distinct,
}
use oauth.Docs.Summary.Shortened.Rounds.{
  node_rounds, rounds-nodes, rounds-append, All-left, same_key, node_rounds-absent, rounds-absent,
  Apart-sym,
}
use oauth.Docs.Summary.Shortened.Children.{node_rounds-element, first_child-links, Apart-short}

mutual
  unfolding short_nodes links node_rounds round rounds

  node_rounds-short : (n : DomNode) → DistinctNode n → node_rounds (node_links n) n ≡ short_node n
  node_rounds-short (text w) h = refl
  node_rounds-short (copied t is) h = refl
  node_rounds-short (link j t is) h = rw (same_key j) refl
  node_rounds-short (element t ns) h = node_rounds-element (links ns) t ns ∙ λ i.
      lifted t (first_child-links ns h i) (rounds-short ns h i)

  rounds-short : (ns : DomNodes) → Distinct ns → rounds (links ns) ns ≡ short_nodes ns
  rounds-short no_nodes h = refl
  rounds-short (nodes n ns) h =
      let here = node_links n in
      let rest = links ns in
      rounds-append here rest (nodes n ns)
      ∙ ap (rounds rest) (
          rounds-nodes here n ns ∙ λ i.
          nodes (node_rounds-short n h.0 i) (rounds-absent here ns (Apart-sym rest here h.2) i))
      ∙ rounds-nodes rest (short_node n) ns
      ∙ λ i.
          nodes (node_rounds-absent rest (short_node n) (Apart-short rest n h.2) i)
            (rounds-short ns h.1 i)

-- What is dropped takes its links with it.
mutual
  unfolding drop_nodes links

  links-drop_node {κ} :
      (P : ℕ → Type κ) (n : DomNode) (rest : DomNodes)
      → All P (node_links n)
      → All P (links rest)
      → All P (links (drop_node n rest))
  links-drop_node P (text w) rest h hs = hs
  links-drop_node P (link k t is) rest h hs = elim (Bool-cases (is_dropped t)) [
    | inl dropped ↦ rw dropped hs
    | inr kept ↦ rw kept (h.0, hs)
  ]
  links-drop_node P (copied t is) rest h hs = elim (Bool-cases (is_dropped t)) [
    | inl dropped ↦ rw dropped hs
    | inr kept ↦ rw kept hs
  ]
  links-drop_node P (element t ns) rest h hs = elim (Bool-cases (is_dropped t)) [
    | inl dropped ↦ rw dropped hs
    | inr kept ↦
        rw kept (All-append P (links (drop_nodes ns)) (links rest) (links-drop_nodes P ns h) hs)
  ]

  links-drop_nodes {κ} :
      (P : ℕ → Type κ) (ns : DomNodes) → All P (links ns) → All P (links (drop_nodes ns))
  links-drop_nodes P no_nodes h = tt
  links-drop_nodes P (nodes n ns) h =
      let (here, rest) = All-left P (node_links n) (links ns) h in
      links-drop_node P n (drop_nodes ns) here (links-drop_nodes P ns rest)

Apart-drop : (ks : List ℕ) (ns : DomNodes) → Apart ks (links ns) → Apart ks (links (drop_nodes ns))
Apart-drop [] ns h = tt
Apart-drop (k ∷ ks) ns h = (links-drop_nodes (λ j. j ≢ k) ns h.0, Apart-drop ks ns h.1)

mutual
  unfolding drop_nodes links

  drop_node-Distinct :
      (n : DomNode) (rest : DomNodes)
      → DistinctNode n
      → Distinct rest
      → Apart (links rest) (node_links n)
      → Distinct (drop_node n rest)
  drop_node-Distinct (text w) rest h hs apart = (tt, hs, apart)
  drop_node-Distinct (link k t is) rest h hs apart = elim (Bool-cases (is_dropped t)) [
    | inl dropped ↦ rw dropped hs
    | inr kept ↦ rw kept (tt, hs, apart)
  ]
  drop_node-Distinct (copied t is) rest h hs apart = elim (Bool-cases (is_dropped t)) [
    | inl dropped ↦ rw dropped hs
    | inr kept ↦ rw kept (tt, hs, apart)
  ]
  drop_node-Distinct (element t ns) rest h hs apart = elim (Bool-cases (is_dropped t)) [
    | inl dropped ↦ rw dropped hs
    | inr kept ↦ rw kept (drop_nodes-Distinct ns h, hs, Apart-drop (links rest) ns apart)
  ]

  drop_nodes-Distinct : (ns : DomNodes) → Distinct ns → Distinct (drop_nodes ns)
  drop_nodes-Distinct no_nodes h = tt
  drop_nodes-Distinct (nodes n ns) h =
      drop_node-Distinct n (drop_nodes ns) h.0 (drop_nodes-Distinct ns h.1)
        (links-drop_nodes (λ j. All (λ y. y ≢ j) (node_links n)) ns h.2)

-- The compact copy of a list holds what is left without notes and descriptions, where every element
-- that has links among its children has given way to the first of them, and every link in the list
-- itself stays; both show what stands in their first strong element, if they have one. It is enough
-- that the links differ: no link is shortened or moved by the round of another one.
pub build_compact_summary-short :
    (l : SummaryList)
    → Distinct l.children
    → build_compact_summary l ≡ record {
      class_name = codes "summary compact";
      children = short_nodes (drop_nodes l.children);
    }
unfolding build_compact_summary lift_links
build_compact_summary-short l h =
    ap (λ ns. summary_list (codes "summary compact") ns)
      (rounds-short (drop_nodes l.children) (drop_nodes-Distinct l.children h))
