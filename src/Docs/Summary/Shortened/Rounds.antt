-- ===== src/Docs/Summary/Shortened/Rounds.antt =====
-- The rounds of the loop of `buildCompactSummary`, node by node.
use oauth.Prelude.{
  ℕ, ◌≡◌, ◌≢◌, refl, sym, ap, ◌∙◌, List, [], ◌∷◌, ◌++◌, All, All-append, Option, none, some, arith,
  ◌==◌, true, false,
}
use oauth.Docs.Summary.Shortened.{
  Tag, Inlines, DomNode, text, link, copied, element, DomNodes, no_nodes, nodes, node_links, links,
  child_link, lifted, round_node, round, rounds,
}
use oauth.Docs.Summary.Shortened.Described.{first_link, short_node, short_nodes, Apart}

-- The rounds on one node.
unfoldable pub node_rounds : List ℕ → DomNode → DomNode
node_rounds [] n = n
node_rounds (k ∷ ks) n = node_rounds ks (round_node k n)

pub rounds-nodes :
    (ks : List ℕ) (n : DomNode) (ns : DomNodes)
    → rounds ks (nodes n ns) ≡ nodes (node_rounds ks n) (rounds ks ns)
unfolding rounds round node_rounds
rounds-nodes [] n ns = refl
rounds-nodes (k ∷ ks) n ns = rounds-nodes ks (round_node k n) (round k ns)

pub rounds-append :
    (xs ys : List ℕ) (ns : DomNodes) → rounds (xs ++ ys) ns ≡ rounds ys (rounds xs ns)
unfolding rounds
rounds-append [] ys ns = refl
rounds-append (k ∷ xs) ys ns = rounds-append xs ys (round k ns)

node_rounds-append :
    (xs ys : List ℕ) (n : DomNode) → node_rounds (xs ++ ys) n ≡ node_rounds ys (node_rounds xs n)
unfolding node_rounds
node_rounds-append [] ys n = refl
node_rounds-append (k ∷ xs) ys n = node_rounds-append xs ys (round_node k n)

pub All-left {κ} :
    {A : Type 0} (P : A → Type κ) (xs ys : List A) → All P (xs ++ ys) → All P xs × All P ys
All-left P [] ys h = (tt, h)
All-left P (x ∷ xs) ys h = let (l, r) = All-left P xs ys h.1 in ((h.0, l), r)

other_key : (j k : ℕ) → j ≢ k → (j == k) ≡ false
other_key j k h = ground arith

pub same_key : (j : ℕ) → (j == j) ≡ true
same_key j = ground arith

pub child_link-absent :
    (k : ℕ) (ns : DomNodes) → All (λ j. j ≢ k) (links ns) → child_link k ns ≡ none
unfolding child_link links node_links
child_link-absent k no_nodes h = refl
child_link-absent k (nodes (text w) ns) h = child_link-absent k ns h
child_link-absent k (nodes (copied t is) ns) h = child_link-absent k ns h
child_link-absent k (nodes (element t ms) ns) h =
    child_link-absent k ns (All-left _ (links ms) (links ns) h).1
child_link-absent k (nodes (link j t is) ns) h = rw (other_key j k h.0) (child_link-absent k ns h.1)

-- A round for a link that is elsewhere.
mutual
  unfolding round links lifted

  round_node-absent : (k : ℕ) (n : DomNode) → All (λ j. j ≢ k) (node_links n) → round_node k n ≡ n
  round_node-absent k (text w) h = refl
  round_node-absent k (copied t is) h = refl
  round_node-absent k (link j t is) h = rw (other_key j k h.0) refl
  round_node-absent k (element t ns) h =
      rw (child_link-absent k ns h) (ap (element t) (round-absent k ns h))

  round-absent : (k : ℕ) (ns : DomNodes) → All (λ j. j ≢ k) (links ns) → round k ns ≡ ns
  round-absent k no_nodes h = refl
  round-absent k (nodes n ns) h =
      let (here, rest) = All-left _ (node_links n) (links ns) h in
      λ i. nodes (round_node-absent k n here i) (round-absent k ns rest i)

pub node_rounds-absent :
    (ks : List ℕ) (n : DomNode) → Apart ks (node_links n) → node_rounds ks n ≡ n
unfolding node_rounds
node_rounds-absent [] n h = refl
node_rounds-absent (k ∷ ks) n h =
    ap (node_rounds ks) (round_node-absent k n h.0) ∙ node_rounds-absent ks n h.1

pub rounds-absent : (ks : List ℕ) (ns : DomNodes) → Apart ks (links ns) → rounds ks ns ≡ ns
unfolding rounds
rounds-absent [] ns h = refl
rounds-absent (k ∷ ks) ns h = ap (rounds ks) (round-absent k ns h.0) ∙ rounds-absent ks ns h.1

Apart-cons : (x : ℕ) (ys xs : List ℕ) → All (λ y. x ≢ y) ys → Apart ys xs → Apart ys (x ∷ xs)
Apart-cons x [] xs h hs = tt
Apart-cons x (y ∷ ys) xs h hs = ((h.0, hs.0), Apart-cons x ys xs h.1 hs.1)

Apart-nil : (ys : List ℕ) → Apart ys []
Apart-nil [] = tt
Apart-nil (y ∷ ys) = (tt, Apart-nil ys)

apart_swap : (x : ℕ) (ys : List ℕ) → All (λ y. y ≢ x) ys → All (λ y. x ≢ y) ys
apart_swap x [] h = tt
apart_swap x (y ∷ ys) h = (λ e. h.0 (sym e), apart_swap x ys h.1)

pub Apart-sym : (xs ys : List ℕ) → Apart xs ys → Apart ys xs
Apart-sym [] ys h = Apart-nil ys
Apart-sym (x ∷ xs) ys h = Apart-cons x ys xs (apart_swap x ys h.0) (Apart-sym xs ys h.1)

-- The numbers that are left.
lifted-links {κ} :
    (P : ℕ → Type κ) (t : Tag) (l : Option (Tag × Inlines)) (ns : DomNodes)
    → All P (links ns)
    → All P (node_links (lifted t l ns))
unfolding links lifted
lifted-links P t none ns h = h
lifted-links P t (some l) ns h = tt

mutual
  unfolding links short_nodes lifted

  pub node_links-short {κ} :
      (P : ℕ → Type κ) (n : DomNode) → All P (node_links n) → All P (node_links (short_node n))
  node_links-short P (text w) h = h
  node_links-short P (link k t is) h = h
  node_links-short P (copied t is) h = h
  node_links-short P (element t ns) h =
      lifted-links P t (first_link ns) (short_nodes ns) (links-short P ns h)

  links-short {κ} :
      (P : ℕ → Type κ) (ns : DomNodes) → All P (links ns) → All P (links (short_nodes ns))
  links-short P no_nodes h = tt
  links-short P (nodes n ns) h =
      let (here, rest) = All-left P (node_links n) (links ns) h in
      All-append P (node_links (short_node n)) (links (short_nodes ns)) (node_links-short P n here)
        (links-short P ns rest)
