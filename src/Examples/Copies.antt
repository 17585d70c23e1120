-- ===== src/Examples/Copies.antt =====
-- Inputs for the summaries of docs/js/app.js: the two collections, and the compact copy of a list.
use oauth.Prelude.{◌≡◌, refl, [], ◌∷◌, Bytes, codes, none, true, false, All, arith}
use oauth.Docs.Summary.{Toggle, full_only, is_collapse}
use oauth.Docs.Summary.Reload.{Consistent}
use oauth.Docs.Summary.Both.{Both, click_constant, toggle_both}
use oauth.Docs.Summary.Both.LastClick.{
  alike, fresh_page, Visit, opened, constant_clicked, followed, navigated, copied_page, View, Shows,
  Visit-Shows,
}
use oauth.Docs.Summary.Shortened.{
  Tag, word, inline, no_inlines, inlines, text, link, copied, element, DomNodes, no_nodes, nodes,
  build_compact_summary, drop_nodes, is_dropped, lifted, child_link, drop_inlines, or_else, links,
}
use oauth.Docs.Summary.Shortened.Described.{Distinct, short_nodes, summary_list}
use oauth.Docs.Summary.Shortened.Refines.{build_compact_summary-short}

abbrev one_toggle : Toggle
one_toggle = record { text_content = codes "collapse"; lists = full_only true }

abbrev fresh_toggles : All (Consistent false) (one_toggle ∷ [])
fresh_toggles = ((refl, (refl, refl)), tt)

abbrev first_page : Both
first_page = toggle_both (fresh_page (one_toggle ∷ []) (one_toggle ∷ []) none)

abbrev clicked_page : Both
clicked_page = click_constant 0 first_page

abbrev next_page : Both
next_page =
    toggle_both (fresh_page (one_toggle ∷ []) (one_toggle ∷ []) clicked_page.summary_collapsed)

first-Visit : Visit first_page (alike false)
unfolding is_collapse
first-Visit = opened (one_toggle ∷ []) (one_toggle ∷ []) none fresh_toggles fresh_toggles

two_pages : Visit next_page (alike true)
unfolding toggle_both
two_pages =
    followed clicked_page
      (record { methods_collapsed = false; constants_collapsed = true; next_collapsed = true })
      (one_toggle ∷ []) (one_toggle ∷ [])
      (constant_clicked first_page (alike false) 0 one_toggle first-Visit refl) fresh_toggles
      fresh_toggles

-- A click on the constants alone has the methods of the next page collapsed, too.
-- A page shown by a navigation has its methods expanded again, and its constants collapsed.
abbrev shown_page : Both
shown_page = copied_page (one_toggle ∷ []) (one_toggle ∷ []) next_page.summary_collapsed

abbrev constants_alone : View
constants_alone = record {
  methods_collapsed = false;
  constants_collapsed = true;
  next_collapsed = false;
}

three-Visit : Visit shown_page constants_alone
three-Visit =
    navigated next_page (alike true) (one_toggle ∷ []) (one_toggle ∷ []) two_pages fresh_toggles
      fresh_toggles

Visit-Shows_example : Shows constants_alone shown_page
Visit-Shows_example = Visit-Shows shown_page constants_alone three-Visit

abbrev plain_tag : Bytes → Bytes → Tag
plain_tag name class_name = record { name = name; classes = class_name ∷ []; attributes = [] }

abbrev method_link : Tag
method_link = record {
  name = codes "a";
  classes = [];
  attributes = (codes "href", codes "#sign") ∷ [];
}

-- An item of a list, with a link in its signature and another one in its description.
abbrev one_item : DomNodes
one_item =
    nodes
      (element (plain_tag (codes "li") (codes "public")) (
        nodes
          (element (plain_tag (codes "span") (codes "summary_signature")) (
            nodes (text (codes " ")) (
              nodes
                (link 1 method_link (
                  inlines (word (codes "#")) (
                    inlines
                      (inline (plain_tag (codes "strong") (codes ""))
                        (inlines (word (codes "sign")) no_inlines))
                      (inlines (word (codes "(request)")) no_inlines))))
                no_nodes)))
          (nodes
            (element (plain_tag (codes "span") (codes "summary_desc"))
              (nodes (link 2 method_link (inlines (word (codes "see")) no_inlines)) no_nodes))
            no_nodes)))
      no_nodes

abbrev short_item : DomNodes
short_item =
    nodes
      (element (plain_tag (codes "li") (codes "public"))
        (nodes (copied method_link (inlines (word (codes "sign")) no_inlines)) no_nodes))
      no_nodes

one_item_short :
    build_compact_summary (summary_list (codes "summary") one_item)
    ≡ summary_list (codes "summary compact") short_item
unfolding build_compact_summary is_dropped lifted child_link drop_inlines or_else
one_item_short = refl

one_item-Distinct : Distinct one_item
unfolding links
one_item-Distinct =
    (((tt, (tt, tt, tt), (tt, tt)), ((tt, tt, tt), tt, tt), ((omega arith, tt), tt)), tt, tt)

build_compact_summary-short_example :
    build_compact_summary (summary_list (codes "summary") one_item)
    ≡ summary_list (codes "summary compact") (short_nodes (drop_nodes one_item))
build_compact_summary-short_example =
    build_compact_summary-short (summary_list (codes "summary") one_item) one_item-Distinct
