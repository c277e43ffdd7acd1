-- ===== src/GraphFilter/Language.antt =====
-- The language of the filter expressions as internal/modules/serial/graph_filter.go means it: its
-- syntax trees, what a tree says of a candidate, and how it is written.
mod Decimal
mod Fields
mod Reading
pub mod Written
mod Levels
use mocktrue.Base.{
  ℕ, ◌+◌, ◌^◌, ◌<◌, List, [], ◌∷◌, ◌++◌, Bool, true, false, ◌==◌, ltb, leb, not, ◌&&◌, ◌||◌,
}
use mocktrue.Base.{if◌then◌else◌, Text, codes, text_eq}
use mocktrue.Base.Int64.{lt64}
use mocktrue.GraphFilter.Candidate.{Candidate, Options, size, contains, prepare}
use mocktrue.GraphFilter.Token.{Token, lparen, rparen, ident, number, str, operator}
use mocktrue.GraphFilter.Match.{itoa}

pub data NumericField : Type 0 where
  len byte_length byte_count : NumericField

pub data StringField : Type 0 where
  text hex message level source graph_id node_id node_type : StringField
  direction payload_text payload_hex details action category : StringField

pub data Relation : Type 0 where
  equal unequal greater at_least less at_most : Relation

pub data TextRelation : Type 0 where
  containing same different : TextRelation

pub data Expr : Type 0 where
  number_test : NumericField → Relation → ℕ → Expr
  text_test : StringField → TextRelation → Text → Expr
  negate : Expr → Expr
  both either : Expr → Expr → Expr

abbrev pub numeric_name : NumericField → Text
numeric_name len = codes "len"
numeric_name byte_length = codes "byteLength"
numeric_name byte_count = codes "byteCount"

abbrev pub string_name : StringField → Text
string_name text = codes "text"
string_name hex = codes "hex"
string_name message = codes "message"
string_name level = codes "level"
string_name source = codes "source"
string_name graph_id = codes "graphId"
string_name node_id = codes "nodeId"
string_name node_type = codes "nodeType"
string_name direction = codes "direction"
string_name payload_text = codes "payloadText"
string_name payload_hex = codes "payloadHex"
string_name details = codes "details"
string_name action = codes "action"
string_name category = codes "category"

abbrev pub sign : Relation → Text
sign equal = codes "=="
sign unequal = codes "!="
sign greater = codes ">"
sign at_least = codes ">="
sign less = codes "<"
sign at_most = codes "<="

abbrev pub text_sign : TextRelation → Token
text_sign containing = ident (codes "contains")
text_sign same = operator (codes "==")
text_sign different = operator (codes "!=")

-- A text field falls back on the payload's.
abbrev pub first_filled : Text → Text → Text
first_filled [] t = t
first_filled (c ∷ cs) t = c ∷ cs

abbrev pub value_of : Candidate → StringField → Text
value_of c text = first_filled c.text c.payload_text
value_of c hex = first_filled c.hex c.payload_hex
value_of c message = c.message
value_of c level = c.level
value_of c source = c.source
value_of c graph_id = c.graph_id
value_of c node_id = c.node_id
value_of c node_type = c.node_type
value_of c direction = c.direction
value_of c payload_text = c.payload_text
value_of c payload_hex = c.payload_hex
value_of c details = c.details
value_of c action = c.action
value_of c category = c.category

abbrev pub related : Relation → ℕ → ℕ → Bool
related equal a b = a == b
related unequal a b = not (a == b)
related greater a b = lt64 b a
related at_least a b = not (lt64 a b)
related less a b = lt64 a b
related at_most a b = not (lt64 b a)

abbrev pub text_related : TextRelation → Text → Text → Bool
text_related containing a b = contains a b
text_related same a b = text_eq a b
text_related different a b = not (text_eq a b)

abbrev pub eval : Candidate → Options → Expr → Bool
eval c o (number_test field r n) = related r (size c) n
eval c o (text_test field r value) =
    let fold = prepare (string_name field) o in
    text_related r (fold (value_of c field)) (fold value)
eval c o (negate e) = not (eval c o e)
eval c o (both a b) = eval c o a && eval c o b
eval c o (either a b) = eval c o a || eval c o b

-- The fuel that the parser spends on a tree, at most.
abbrev pub weight : Expr → ℕ
weight (number_test field r n) = 5
weight (text_test field r value) = 5
weight (negate e) = weight e + 5
weight (both a b) = weight a + weight b + 7
weight (either a b) = weight a + weight b + 8

-- Numbers that an int holds.
abbrev pub IsSized : Expr → Type 0
IsSized (number_test field r n) = n < 2 ^ 63
IsSized (text_test field r value) = Unit {0}
IsSized (negate e) = IsSized e
IsSized (both a b) = IsSized a × IsSized b
IsSized (either a b) = IsSized a × IsSized b

-- Where a tree is printed: as a whole, under `or`, under `and` or `not`.
pub data Level : Type 0 where
  whole under_or under_and : Level

abbrev pub parens : Bool → List Token → List Token
parens true body = lparen ∷ (body ++ (rparen ∷ []))
parens false body = body

abbrev pub is_whole : Level → Bool
is_whole whole = true
is_whole _ = false

abbrev pub is_under_and : Level → Bool
is_under_and under_and = true
is_under_and _ = false

abbrev pub print : Expr → Level → List Token
print (number_test field r n) _ =
    ident (numeric_name field) ∷ operator (sign r) ∷ number (itoa n) ∷ []
print (text_test field r value) _ = ident (string_name field) ∷ text_sign r ∷ str value ∷ []
print (negate e) _ = ident (codes "not") ∷ print e under_and
print (both a b) l =
    parens (is_under_and l) (print a under_or ++ (ident (codes "and") ∷ print b under_and))
print (either a b) l =
    parens (not (is_whole l)) (print a whole ++ (ident (codes "or") ∷ print b under_or))
