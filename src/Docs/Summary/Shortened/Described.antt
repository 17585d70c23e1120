-- ===== src/Docs/Summary/Shortened/Described.antt =====
-- A description of `buildCompactSummary` without steps.
use oauth.Prelude.{ℕ, ◌≢◌, List, All, Option, none, some, Bytes}
use oauth.Docs.Summary.Shortened.{
  Tag, Inlines, DomNode, text, link, copied, element, DomNodes, no_nodes, nodes, node_links, links,
  shorten, lifted, SummaryList,
}

-- The first link among the children of an element.
unfoldable pub first_link : DomNodes → Option (Tag × Inlines)
first_link no_nodes = none
first_link (nodes (link k t is) ns) = some (t, is)
first_link (nodes n ns) = first_link ns

-- An element that has links among its children gives way to the first of them; a link shows what
-- stands in its first strong element, if there is one.
unfoldable mutual
  pub short_node : DomNode → DomNode
  short_node (text w) = text w
  short_node (link k t is) = link k t (shorten is)
  short_node (copied t is) = copied t is
  short_node (element t ns) = lifted t (first_link ns) (short_nodes ns)

  pub short_nodes : DomNodes → DomNodes
  short_nodes no_nodes = no_nodes
  short_nodes (nodes n ns) = nodes (short_node n) (short_nodes ns)

-- No number of the one list is in the other.
abbrev pub Apart : List ℕ → List ℕ → Type 0
Apart xs ys = All (λ x. All (λ y. y ≢ x) ys) xs

-- Every link has a number of its own.
abbrev pub summary_list : Bytes → DomNodes → SummaryList
summary_list class_name children = record { class_name = class_name; children = children }

abbrev mutual
  pub DistinctNode : DomNode → Type 0
  DistinctNode (element t ns) = Distinct ns
  DistinctNode _ = Unit

  pub Distinct : DomNodes → Type 0
  Distinct no_nodes = Unit
  Distinct (nodes n ns) = DistinctNode n × Distinct ns × Apart (links ns) (node_links n)
