-- ===== src/Docs/Summary/Both.antt =====
-- `constantSummaryToggle` of docs/js/app.js beside `summaryToggle`: a page has two collections of
-- toggles, which share the entry `summaryCollapsed` of the local storage.
pub mod LastClick
use oauth.Prelude.{ℕ, List, Option, Bytes}
use oauth.Docs.Summary.{Toggle, Summaries, click_toggle, summary_toggle}

-- The toggles of the methods and of the constants, and the entry of the storage.
pub record Both : Type 0 where
  pub methods : List Toggle
  pub constants : List Toggle
  pub summary_collapsed : Option Bytes

unfoldable pub methods_of : Both → Summaries
methods_of b = record { toggles = b.methods; summary_collapsed = b.summary_collapsed }

unfoldable pub with_methods : Both → Summaries → Both
with_methods b s = record {
  methods = s.toggles;
  constants = b.constants;
  summary_collapsed = s.summary_collapsed;
}

unfoldable pub constants_of : Both → Summaries
constants_of b = record { toggles = b.constants; summary_collapsed = b.summary_collapsed }

unfoldable pub with_constants : Both → Summaries → Both
with_constants b s = record {
  methods = b.methods;
  constants = s.toggles;
  summary_collapsed = s.summary_collapsed;
}

-- A click on a toggle of the methods, at its index, and on one of the constants.
unfoldable pub click_method : ℕ → Both → Both
unfolding methods_of with_methods click_toggle
click_method i b = with_methods b (click_toggle i (methods_of b))

unfoldable pub click_constant : ℕ → Both → Both
unfolding constants_of with_constants click_toggle
click_constant i b = with_constants b (click_toggle i (constants_of b))

-- `constantSummaryToggle`
unfoldable pub constant_summary_toggle : Both → Both
unfolding constants_of with_constants summary_toggle
constant_summary_toggle b = with_constants b (summary_toggle (constants_of b))

-- `summaryToggle(); constantSummaryToggle();` on a page that was just put in place
unfoldable pub toggle_both : Both → Both
unfolding methods_of with_methods summary_toggle constant_summary_toggle
toggle_both b = constant_summary_toggle (with_methods b (summary_toggle (methods_of b)))
