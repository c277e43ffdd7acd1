-- ===== src/GraphFilter/Tests.antt =====
-- Filters on one candidate.
use mocktrue.Base.{◌≡◌, ◌≢◌, [], false, codes, ok, err, arith}
use mocktrue.GraphFilter.Candidate.{Candidate, Options}
use mocktrue.GraphFilter.Token.{out_of_fuel}
use mocktrue.GraphFilter.Token.Render.{render}
use mocktrue.GraphFilter.Match.{match_expression}
use mocktrue.GraphFilter.Language.{
  Expr, number_test, text_test, negate, both, either, eval, print, whole,
}
use mocktrue.GraphFilter.Language.{len, at_least, hex, direction, containing, same}
use mocktrue.GraphFilter.Language.Written.{match_expression-render, match_expression_ends}

abbrev frame : Candidate
frame = record {
  len = 8;
  byte_length = 0;
  byte_count = 0;
  text = [];
  hex = codes "01 03 00 00";
  message = [];
  level = [];
  source = [];
  graph_id = [];
  node_id = [];
  node_type = [];
  direction = codes "RX";
  payload_text = [];
  payload_hex = [];
  details = [];
  action = [];
  category = [];
}

abbrev defaults : Options
defaults = record {
  mode = codes "expression";
  expression = [];
  case_sensitive = false;
  whole_word = false;
}

-- `(len >= 4 or direction == "rx") and not hex contains "0103"`
abbrev wanted : Expr
wanted =
    both (either (number_test len at_least 4) (text_test direction same (codes "rx")))
      (negate (text_test hex containing (codes "0103")))

match_expression-render_example :
    match_expression frame defaults (render (print wanted whole)) ≡ ok (eval frame defaults wanted)
match_expression-render_example =
    match_expression-render frame defaults wanted ((ground arith, tt), tt)

match_expression_ends_example : match_expression frame defaults (codes "len >= (") ≢ err out_of_fuel
match_expression_ends_example = match_expression_ends frame defaults (codes "len >= (")
