-- ===== src/Core/ToolPath.antt =====
-- crates/executor-core/src/path.rs: tool paths, browsing them, and the source text of a single call.
-- `to_string` and `from_str` are those of `serde_json`, `read_to_string` is that of `std::fs`; both
-- failures come as their texts.
pub mod Children
use zoen_gateway.Prelude.{
  ◌-◌, ℕ, ◌+◌, Bool, true, false, not, ◌&&◌, ◌||◌, Option, none, some, List, [], ◌∷◌, ◌++◌, map,
  leb, ◌==◌, if◌then◌else◌, unwrap_or, length, get_elem?, take, any, all, select, is_some,
}
use zoen_gateway.Prelude.Text.{Text, ascii, text_eq, split, starts_with, strip_prefix}
use zoen_gateway.Prelude.Trim.{trim}
use zoen_gateway.Prelude.Map.{Map, text_key, lookup, insert}
use zoen_gateway.Prelude.Effect.{Result, ok, err}
use zoen_gateway.Prelude.Json.{Value, Fields, end, as_object}

pub data ToolPathError : Type 0 where
  empty bad_segment args_not_object : ToolPathError
  invalid_json : Text → ToolPathError
  empty_file_ref : ToolPathError
  file_read : (path io : Text) → ToolPathError
  file_not_object : Text → ToolPathError
  flags : ToolPathError

-- The tests are on bytes: a character that is not ASCII has bytes that are not either.
unfoldable pub is_token : Text → Bool
is_token segment =
    not (text_eq segment [])
    && all
        (λ c.
          (leb b'0' c && leb c b'9')
          || ((leb b'A' c && leb c b'Z')
              || ((leb b'a' c && leb c b'z') || (c == b'.' || (c == b'_' || c == b'-')))))
        segment

flat_split : List Text → List Text
flat_split [] = []
flat_split (part ∷ parts) = split b'.' part ++ flat_split parts

unfoldable pub to_segments : List Text → List Text
unfolding flat_split
to_segments parts = select (λ s. not (text_eq s [])) (map trim (flat_split parts))

-- `join(".")`
unfoldable pub join_dots : List Text → Text
join_dots [] = []
join_dots (s ∷ []) = s
join_dots (s ∷ t ∷ ss) = s ++ (ascii "." ++ join_dots (t ∷ ss))

unfoldable pub build_tool_path : List Text → Result ToolPathError Text
build_tool_path parts =
    let segments = to_segments parts in
    if length segments == 0
    then err empty
    else if any (λ s. not (is_token s)) segments
    then err bad_segment
    else ok (join_dots segments)

pub record ToolPathChild : Type 0 where
  pub segment : Text
  pub invokable : Bool
  pub has_children : Bool
  pub tool_count : ℕ

pub record ToolPathInspection : Type 0 where
  pub prefix_segments : List Text
  pub exact_path : Option Text
  pub matching_tool_count : ℕ
  pub children : List ToolPathChild

-- `zip(..).all(==)`
unfoldable pub zip_equal : List Text → List Text → Bool
zip_equal [] path = true
zip_equal (a ∷ s) [] = true
zip_equal (a ∷ s) (b ∷ t) = text_eq a b && zip_equal s t

unfoldable pub is_prefix : List Text → List Text → Bool
is_prefix s path = leb (length s) (length path) && zip_equal s path

-- An entry of the map of children: is it a tool, are tools below it, how many.
abbrev pub Entry : Type 0
Entry = Bool × Bool × ℕ

pub record Browse : Type 0 where
  pub children : Map Text Entry
  pub exact_path : Option Text
  pub matching_tool_count : ℕ

unfoldable pub count_tool : ℕ → ℕ → Entry → Entry
count_tool depth size (invokable, has_children, count) =
    (invokable || size == depth + 1, has_children || leb (depth + 2) size, count + 1)

unfoldable pub add_child : ℕ → List Text → Map Text Entry → Map Text Entry
add_child depth segments children = add_at (get_elem? segments depth)
  where
    add_at : Option Text → Map Text Entry
    add_at none = children
    add_at (some child) =
        insert child
          (count_tool depth (length segments) (unwrap_or (lookup child children) (false, false, 0)))
          children

unfoldable pub browse_path : List Text → Text → Browse → Browse
browse_path prefix path b =
    let segments = to_segments (path ∷ []) in
    if length segments == 0 || not (is_prefix prefix segments)
    then b
    else if length segments == length prefix
    then record b {
      exact_path = if is_some b.exact_path then b.exact_path else some (join_dots segments);
      matching_tool_count = b.matching_tool_count + 1;
    }
    else record b {
      children = add_child (length prefix) segments b.children;
      matching_tool_count = b.matching_tool_count + 1;
    }

unfoldable pub browse : List Text → List Text → Browse → Browse
browse prefix [] b = b
browse prefix (path ∷ paths) b = browse prefix paths (browse_path prefix path b)

unfoldable pub child_of : Text × Entry → ToolPathChild
child_of (segment, (invokable, has_children, count)) = record {
  segment = segment;
  invokable = invokable;
  has_children = has_children;
  tool_count = count;
}

abbrev pub nothing_seen : Browse
nothing_seen = record { children = []; exact_path = none; matching_tool_count = 0 }

unfoldable pub inspect_tool_path : List Text → List Text → ToolPathInspection
inspect_tool_path tool_paths raw_prefix_parts =
    let prefix = to_segments raw_prefix_parts in
    let b = browse prefix tool_paths nothing_seen in
    record {
      prefix_segments = prefix;
      exact_path = b.exact_path;
      matching_tool_count = b.matching_tool_count;
      children = map child_of b.children;
    }

pub record Invocation : Type 0 where
  pub path : Text
  pub args : Fields

-- `last()`, trimmed; empty when there is none.
unfoldable pub last_part : List Text → Text
last_part [] = []
last_part (s ∷ []) = trim s
last_part (s ∷ t ∷ ss) = last_part (t ∷ ss)

unfoldable pub compile_call : (Value → Text) → Text → Value → Text
compile_call to_string path args =
    ascii "return await tools["
    ++ (to_string (Value.string path) ++ (ascii "](" ++ (to_string args ++ ascii ");")))

object_of : Option Fields → Result ToolPathError Fields
object_of none = err args_not_object
object_of (some fs) = ok fs

parsed_object : Result Text Value → Result ToolPathError Fields
unfolding object_of
parsed_object (err e) = err (invalid_json e)
parsed_object (ok v) = object_of (as_object v)

-- What `&s[1..]` is of the last part.
file_name : Text → Text
file_name last = unwrap_or (strip_prefix (ascii "@") last) []

read_file : Text → Result Text Text → Result ToolPathError Text
read_file path (ok text) = ok (trim text)
read_file path (err io) = err (file_read path io)

invocation : Fields → Result ToolPathError Text → Result ToolPathError Invocation
invocation args (err e) = err e
invocation args (ok path) = ok (record { path = path; args = args })

with_args : List Text → Result ToolPathError Fields → Result ToolPathError Invocation
unfolding invocation
with_args parts (err e) = err e
with_args parts (ok args) = invocation args (build_tool_path parts)

module _ (read_to_string : Text → Result Text Text) (from_str : Text → Result Text Value) where
  unfoldable pub parse_json_object : Text → Result ToolPathError Fields
  unfolding parsed_object
  parse_json_object raw = parsed_object (from_str raw)

  json_text : Bool → Text → Result ToolPathError Text
  unfolding file_name read_file
  json_text is_file last =
      if is_file then read_file (file_name last) (read_to_string (file_name last)) else ok last

  with_text : Bool → Text → List Text → Result ToolPathError Text → Result ToolPathError Invocation
  unfolding file_name with_args
  with_text is_file last raw (err e) = err e
  with_text is_file last raw (ok text) =
      let has_json = starts_with (ascii "{") text in
      let path_parts = if is_file || has_json then take (length raw - 1) raw else raw in
      if is_file && not has_json
      then err (file_not_object (file_name last))
      else if any (λ part. starts_with (ascii "-") (trim part)) path_parts
      then err flags
      else with_args path_parts (if has_json then parse_json_object text else ok end)

  unfoldable pub resolve_invocation : List Text → Result ToolPathError Invocation
  unfolding json_text with_text
  resolve_invocation raw_path_parts =
      let last = last_part raw_path_parts in
      let is_file = starts_with (ascii "@") last in
      if is_file && text_eq last (ascii "@")
      then err empty_file_ref
      else with_text is_file last raw_path_parts (json_text is_file last)
