-- ===== src/Bundle/Sections.antt =====
-- services/bundle_parser.py: the sections of a bundle, their names, types and fields.
pub mod RoundTrip
use quadletman.Prelude.{
  ℕ, Bool, true, false, not, ◌&&◌, ◌||◌, List, [], ◌∷◌, ◌++◌, Option, none, some, if◌then◌else◌,
  ◌==◌, Text, codes, text_eq, is_empty, strip, lstrip, starts_with, ends_with, drop_end, has,
  before, after, join, split_lines,
}
use quadletman.Prelude.Dict.{Dict, lookup, insert}
use quadletman.Sanitized.Check.{Checked, ok, refused}
use quadletman.Sanitized.Names.{safe_str}

-- The loop of `_split_sections`, with the lines of the current section.
unfoldable pub sections_from : List Text → List Text → List Text
unfolding strip text_eq is_empty
sections_from current [] = if is_empty current then [] else join (codes "\n") current ∷ []
sections_from current (line ∷ lines) =
    let closed = sections_from [] lines in
    let more = sections_from (current ++ line ∷ []) lines in
    if text_eq (strip line) (codes "---")
    then (if is_empty current then closed else join (codes "\n") current ∷ closed)
    else more

unfoldable pub split_sections : Text → List Text
unfolding sections_from split_lines
split_sections content = sections_from [] (split_lines content)

-- what `export_service_bundle` makes of its sections
unfoldable pub bundle_text : List Text → Text
bundle_text sections = join (codes "\n---\n") sections ++ codes "\n"

-- a section of `export_service_bundle`, for a content that is already stripped at its end
unfoldable pub section_text : Text → Text → Text
section_text name content = codes "# FileName=" ++ (name ++ (codes "\n" ++ content))

-- Behind a literal, if the text begins with it.
unfoldable pub behind_literal : Text → Text → Option Text
behind_literal [] s = some s
behind_literal (p ∷ ps) [] = none
behind_literal (p ∷ ps) (c ∷ s) = let rest = behind_literal ps s in if p == c then rest else none

-- `re.match(r"#\s*FileName\s*=\s*(.+)", line)` and `group(1).strip()`, for a line without white space at
-- its ends
unfoldable pub name_group : Text → Option Text
unfolding strip
name_group [] = none
name_group (c ∷ s) = some (strip (c ∷ s))

unfoldable pub filename_in : Text → Option Text
unfolding behind_literal lstrip name_group
filename_in line = elim (behind_literal (codes "#") line) [
  | none ↦ none
  | some s ↦ elim (behind_literal (codes "FileName") (lstrip s)) [
    | none ↦ none
    | some t ↦ elim (behind_literal (codes "=") (lstrip t)) [
      | none ↦ none
      | some u ↦ name_group (lstrip u)
    ]
  ]
]

unfoldable pub filename_of : List Text → Checked Text
unfolding filename_in strip safe_str
filename_of [] = ok []
filename_of (line ∷ lines) =
    let rest = filename_of lines in
    elim (filename_in (strip line)) [ none ↦ rest | some name ↦ safe_str name ]

unfoldable pub extract_filename : Text → Checked Text
unfolding filename_of split_lines
extract_filename section = filename_of (split_lines section)

abbrev pub type_map : Dict Text
type_map =
    (codes "[Container]", codes "container")
    ∷ (codes "[Network]", codes "network")
    ∷ (codes "[Volume]", codes "volume")
    ∷ (codes "[Kube]", codes "kube")
    ∷ (codes "[Image]", codes "image")
    ∷ (codes "[Build]", codes "build")
    ∷ (codes "[Pod]", codes "pod")
    ∷ []

unfoldable pub type_of : List Text → Text
unfolding strip lookup
type_of [] = []
type_of (line ∷ lines) =
    let rest = type_of lines in elim (lookup (strip line) type_map) [ none ↦ rest | some t ↦ t ]

unfoldable pub detect_type : Text → Text
unfolding type_of split_lines
detect_type section = type_of (split_lines section)

-- `Section.Key` and its values, in order
abbrev pub Fields : Type 0
Fields = Dict (List Text)

-- `result.setdefault(key, []).append(value)`
unfoldable pub add_value : Text → Text → Fields → Fields
unfolding lookup insert
add_value key value fields = elim (lookup key fields) [
  | none ↦ insert key (value ∷ []) fields
  | some values ↦ insert key (values ++ value ∷ []) fields
]

-- `stripped[1:-1]`
unfoldable pub inner : Text → Text
unfolding drop_end
inner [] = []
inner (c ∷ s) = drop_end 1 s

-- The loop of `_parse_ini_multi`.
unfoldable pub ini_from : Text → Fields → List Text → Fields
unfolding strip is_empty starts_with ends_with inner has before after add_value
ini_from section fields [] = fields
ini_from section fields (line ∷ lines) =
    let stripped = strip line in
    let next = ini_from section fields lines in
    let entered = ini_from (inner stripped) fields lines in
    let key = section ++ (codes "." ++ strip (before b'=' stripped)) in
    let added = ini_from section (add_value key (strip (after b'=' stripped)) fields) lines in
    if is_empty stripped || starts_with (codes "#") stripped
    then next
    else if starts_with (codes "[") stripped && ends_with (codes "]") stripped
    then entered
    else if has b'=' stripped
    then added
    else next

unfoldable pub parse_ini_multi : Text → Fields
unfolding ini_from split_lines
parse_ini_multi content = ini_from [] [] (split_lines content)
