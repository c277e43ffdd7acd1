-- ===== src/GraphFilter/Candidate.antt =====
-- `serialGraphFilterCandidate`: what a filter is matched against. An int is its pattern of 64 bits,
-- a text is ASCII where cases are folded or blanks are dropped.
pub mod Contains
use mocktrue.Base.{ℕ, [], ◌∷◌, Bool, true, false, Option, none, some, map}
use mocktrue.Base.{◌==◌, ◌||◌, not, if◌then◌else◌, Text, codes, text_eq, to_lower}
use mocktrue.Base.Int64.{lt64}

pub record Candidate : Type 0 where
  pub len : ℕ
  pub byte_length : ℕ
  pub byte_count : ℕ
  pub text : Text
  pub hex : Text
  pub message : Text
  pub level : Text
  pub source : Text
  pub graph_id : Text
  pub node_id : Text
  pub node_type : Text
  pub direction : Text
  pub payload_text : Text
  pub payload_hex : Text
  pub details : Text
  pub action : Text
  pub category : Text

pub record Options : Type 0 where
  pub mode : Text
  pub expression : Text
  pub case_sensitive : Bool
  pub whole_word : Bool

-- `length`, whose name the list function has.
unfoldable pub size : Candidate → ℕ
size c =
    if not (c.len == 0)
    then c.len
    else if not (c.byte_length == 0)
    then c.byte_length
    else c.byte_count

unfoldable pub numeric_field : Candidate → Text → Option ℕ
numeric_field c name =
    let key = map to_lower name in
    if text_eq key (codes "len")
      || (text_eq key (codes "bytelength") || text_eq key (codes "bytecount"))
    then some (size c)
    else none

unfoldable pub string_field : Candidate → Text → Option Text
string_field c name =
    let key = map to_lower name in
    if text_eq key (codes "text")
    then some (if not (text_eq c.text []) then c.text else c.payload_text)
    else if text_eq key (codes "hex")
    then some (if not (text_eq c.hex []) then c.hex else c.payload_hex)
    else if text_eq key (codes "message")
    then some c.message
    else if text_eq key (codes "level")
    then some c.level
    else if text_eq key (codes "source")
    then some c.source
    else if text_eq key (codes "graphid")
    then some c.graph_id
    else if text_eq key (codes "nodeid")
    then some c.node_id
    else if text_eq key (codes "nodetype")
    then some c.node_type
    else if text_eq key (codes "direction")
    then some c.direction
    else if text_eq key (codes "payloadtext")
    then some c.payload_text
    else if text_eq key (codes "payloadhex")
    then some c.payload_hex
    else if text_eq key (codes "details")
    then some c.details
    else if text_eq key (codes "action")
    then some c.action
    else if text_eq key (codes "category")
    then some c.category
    else none

unfoldable pub equal_fold : Text → Text → Bool
equal_fold a b = text_eq (map to_lower a) (map to_lower b)

-- `unicode.IsSpace` of a byte read as a rune.
unfoldable pub is_space : ℕ → Bool
is_space c =
    c == 9
    || (c == 10 || (c == 11 || (c == 12 || (c == 13 || (c == 32 || (c == 0x85 || c == 0xa0))))))

unfoldable pub normalize_hex : Text → Text
normalize_hex [] = []
normalize_hex (c ∷ cs) =
    let rest = normalize_hex cs in if is_space c then rest else to_lower c ∷ rest

-- `strings.HasPrefix`, by recursion, and `strings.Contains`.
unfoldable pub starts_with : Text → Text → Bool
starts_with s [] = true
starts_with [] (_ ∷ _) = false
starts_with (a ∷ s) (b ∷ p) = let rest = starts_with s p in if a == b then rest else false

unfoldable pub contains : Text → Text → Bool
unfolding starts_with
contains [] p = starts_with [] p
contains (a ∷ s) p = let rest = contains s p in if starts_with (a ∷ s) p then true else rest

unfoldable pub is_numeric_operator : Text → Bool
is_numeric_operator o =
    text_eq o (codes "==")
    || (text_eq o (codes "!=")
        || (text_eq o (codes ">")
            || (text_eq o (codes ">=") || (text_eq o (codes "<") || text_eq o (codes "<=")))))

unfoldable pub compare_number : ℕ → Text → ℕ → Bool
compare_number left o right =
    if text_eq o (codes "==")
    then left == right
    else if text_eq o (codes "!=")
    then not (left == right)
    else if text_eq o (codes ">")
    then lt64 right left
    else if text_eq o (codes ">=")
    then not (lt64 left right)
    else if text_eq o (codes "<")
    then lt64 left right
    else if text_eq o (codes "<=")
    then not (lt64 right left)
    else false

-- What both sides are brought to before they are compared.
unfoldable pub prepare : Text → Options → Text → Text
prepare field options value =
    if equal_fold field (codes "hex") || equal_fold field (codes "payloadhex")
    then normalize_hex value
    else if not options.case_sensitive
    then map to_lower value
    else value

unfoldable pub compare_string : Text → Text → Text → Text → Options → Bool
compare_string field left o right options =
    let left' = prepare field options left in
    let right' = prepare field options right in
    if text_eq o (codes "contains")
    then contains left' right'
    else if text_eq o (codes "==")
    then text_eq left' right'
    else if text_eq o (codes "!=")
    then not (text_eq left' right')
    else false
