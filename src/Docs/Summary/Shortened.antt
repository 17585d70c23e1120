-- ===== src/Docs/Summary/Shortened.antt =====
-- `buildCompactSummary` of docs/js/app.js, on the nodes below the copy of a list. Setting `innerHTML`
-- or `outerHTML` to the text of nodes makes nodes like them.
pub mod Described
pub mod Rounds
pub mod Children
pub mod Refines
use oauth.Prelude.{
  ℕ, List, [], ◌∷◌, ◌++◌, Bool, ◌||◌, Option, none, some, Bytes, codes, bytes_eq, ◌==◌,
  if◌then◌else◌,
}
use oauth.Params.{Params, includes}

pub record Tag : Type 0 where
  pub name : Bytes
  pub classes : List Bytes
  pub attributes : Params Bytes

-- What stands in a link, which holds no other link.
mutual
  pub data Inline : Type 0 where
    word : Bytes → Inline
    inline : Tag → Inlines → Inline

  pub data Inlines : Type 0 where
    no_inlines : Inlines
    inlines : Inline → Inlines → Inlines

-- The links of the list by a number, and those that are put into it, of which it has none at first.
mutual
  pub data DomNode : Type 0 where
    text : Bytes → DomNode
    link : ℕ → Tag → Inlines → DomNode
    copied : Tag → Inlines → DomNode
    element : Tag → DomNodes → DomNode

  pub data DomNodes : Type 0 where
    no_nodes : DomNodes
    nodes : DomNode → DomNodes → DomNodes

-- `.summary_desc, .note`
unfoldable pub is_dropped : Tag → Bool
unfolding includes bytes_eq
is_dropped t = includes t.classes (codes "summary_desc") || includes t.classes (codes "note")

-- `node.remove()` for all of them.
unfoldable mutual
  pub drop_inline : Inline → Inlines → Inlines
  drop_inline (word w) rest = inlines (word w) rest
  drop_inline (inline t is) rest =
      let inner = drop_inlines is in if is_dropped t then rest else inlines (inline t inner) rest

  pub drop_inlines : Inlines → Inlines
  drop_inlines no_inlines = no_inlines
  drop_inlines (inlines i is) = drop_inline i (drop_inlines is)

unfoldable mutual
  pub drop_node : DomNode → DomNodes → DomNodes
  drop_node (text w) rest = nodes (text w) rest
  drop_node (link k t is) rest =
      if is_dropped t then rest else nodes (link k t (drop_inlines is)) rest
  drop_node (copied t is) rest =
      if is_dropped t then rest else nodes (copied t (drop_inlines is)) rest
  drop_node (element t ns) rest =
      let inner = drop_nodes ns in if is_dropped t then rest else nodes (element t inner) rest

  pub drop_nodes : DomNodes → DomNodes
  drop_nodes no_nodes = no_nodes
  drop_nodes (nodes n ns) = drop_node n (drop_nodes ns)

-- `queryAll("a", list)`, in the order of the document.
unfoldable mutual
  pub node_links : DomNode → List ℕ
  node_links (text w) = []
  node_links (link k t is) = k ∷ []
  node_links (copied t is) = []
  node_links (element t ns) = links ns

  pub links : DomNodes → List ℕ
  links no_nodes = []
  links (nodes n ns) = node_links n ++ links ns

unfoldable pub or_else : {A : Type 0} → Option A → Option A → Option A
or_else none b = b
or_else (some a) b = some a

-- `link.querySelector("strong")`, by what stands in it.
unfoldable mutual
  pub strong_in : Inline → Option Inlines
  strong_in (word w) = none
  strong_in (inline t is) =
      let inner = first_strong is in if bytes_eq t.name (codes "strong") then some is else inner

  pub first_strong : Inlines → Option Inlines
  first_strong no_inlines = none
  first_strong (inlines i is) = or_else (strong_in i) (first_strong is)

unfoldable pub given_inlines : Inlines → Option Inlines → Inlines
given_inlines is none = is
given_inlines is (some strong) = strong

-- `if (strong) link.innerHTML = strong.innerHTML`
unfoldable pub shorten : Inlines → Inlines
unfolding first_strong given_inlines
shorten is = given_inlines is (first_strong is)

-- The link of a number among the children of an element.
unfoldable pub child_link : ℕ → DomNodes → Option (Tag × Inlines)
child_link k no_nodes = none
child_link k (nodes (link j t is) ns) =
    let rest = child_link k ns in if j == k then some (t, is) else rest
child_link k (nodes n ns) = child_link k ns

-- An element gives way to a link that it holds.
unfoldable pub lifted : Tag → Option (Tag × Inlines) → DomNodes → DomNode
unfolding shorten
lifted t none ns = element t ns
lifted t (some (t', is)) ns = copied t' (shorten is)

-- The round of the loop for a link: it is shortened, and takes the place of its parent. The list
-- itself has no parent, and stays.
unfoldable mutual
  pub round_node : ℕ → DomNode → DomNode
  round_node k (text w) = text w
  round_node k (link j t is) = if j == k then link j t (shorten is) else link j t is
  round_node k (copied t is) = copied t is
  round_node k (element t ns) = lifted t (child_link k ns) (round k ns)

  pub round : ℕ → DomNodes → DomNodes
  round k no_nodes = no_nodes
  round k (nodes n ns) = nodes (round_node k n) (round k ns)

-- The loop, over the links as they were found.
unfoldable pub rounds : List ℕ → DomNodes → DomNodes
unfolding round
rounds [] ns = ns
rounds (k ∷ ks) ns = rounds ks (round k ns)

pub record SummaryList : Type 0 where
  pub class_name : Bytes
  pub children : DomNodes

unfoldable pub lift_links : DomNodes → DomNodes
unfolding rounds links
lift_links ns = rounds (links ns) ns

unfoldable pub build_compact_summary : SummaryList → SummaryList
unfolding lift_links drop_nodes
build_compact_summary l = record {
  class_name = codes "summary compact";
  children = lift_links (drop_nodes l.children);
}
