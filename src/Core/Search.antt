-- ===== src/Core/Search.antt =====
-- crates/executor-core/src/search.rs: ranked search of tools, and its pages. A text stands for its
-- code points here. A fraction of matched words is compared exactly, where the source rounds it to a
-- float: no difference below 2^50 words. Scores are not bounded.
pub mod Pages
use zoen_gateway.Prelude.{
  ℕ, zero, suc, ◌+◌, ◌-◌, ◌*◌, ◌/◌, ◌%◌, ◌^◌, ◌≤◌, ◌<◌, String, ◌≡◌, refl, sym, ap, ◌∙◌, subst, ◌≢◌,
  ◌↔◌, ◌⊎◌, inl, inr, Bool, true, false, not, ◌&&◌, ◌||◌, Option, none, some, List, [], ◌∷◌, ◌++◌,
  map, arith, ltb, leb, ◌==◌, if◌then◌else◌, ==_iff, Bool-cases, Option-cases, is_some, unwrap_or,
  and_then, or_else, length, get_elem?, take, drop, any, all, find_first, select, length-append,
  All, In, In-append,
}
use zoen_gateway.Prelude.Text.{}
use zoen_gateway.Prelude.Effect.{}
use zoen_gateway.Prelude.Text.{
  Text, text_eq, text_eq_iff, text_eq_refl, ascii, text_lt, starts_with, has_byte, contains, split,
  strip_prefix,
}
use zoen_gateway.Prelude.Effect.{Result, ok, err, Result-cases}
use zoen_gateway.Prelude.Chars.{is_uppercase, is_alphanumeric, to_lowercase, is_whitespace}
use zoen_gateway.Prelude.Json.{Value, Fields, get_field, as_str, as_object}
use zoen_gateway.Prelude.Sort.{sort_by, then_with}
use zoen_gateway.Prelude.Text.{text_cmp}
use Prim.Native.Nat.{Ordering, compare}
use mathlib.Core.List.{reverse}

pub record SearchPage (T : Type 0) : Type 0 where
  pub items : List T
  pub total : ℕ
  pub has_more : Bool
  pub next_offset : Option ℕ

-- `u32::try_from(_).unwrap_or(u32::MAX)` and `u32::saturating_add`.
abbrev pub u32_max : ℕ
u32_max = 2 ^ 32 - 1

abbrev pub saturate_u32 : ℕ → ℕ
saturate_u32 n = if ltb u32_max n then u32_max else n

abbrev pub at_least_one : ℕ → ℕ
at_least_one n = if n == 0 then 1 else n

abbrev pub when : {A : Type 0} → Bool → A → Option A
when true a = some a
when false a = none

unfoldable pub paginate : {T : Type 0} → List T → ℕ → ℕ → SearchPage T
paginate items offset limit =
    let total = saturate_u32 (length items) in
    let start = if ltb offset (length items) then offset else length items in
    let page = take (at_least_one limit) (drop start items) in
    let taken = if ltb u32_max (length page) then 0 else length page in
    let next = saturate_u32 (offset + taken) in
    let has_more = ltb next total in
    record { items = page; total = total; has_more = has_more; next_offset = when has_more next }

pub record ToolDiscovery : Type 0 where
  pub path : Text
  pub name : Text
  pub description : Option Text
  pub integration : Text
  pub score : ℕ

pub record SearchArgs : Type 0 where
  pub query : Text
  pub namespace : Option Text
  pub limit : ℕ
  pub offset : ℕ

pub record SearchableTool : Type 0 where
  pub path : Text
  pub name : Text
  pub description : Text
  pub integration : Text

-- `as_u64` reads a number's literal, where it is a whole number below 2^64.
abbrev pub u32_or : ℕ → Option ℕ → ℕ
u32_or d none = d
u32_or d (some n) = if ltb u32_max n then d else n

abbrev pub clamp : ℕ → ℕ → ℕ → ℕ
clamp lo hi n = if ltb n lo then lo else if ltb hi n then hi else n

abbrev pub non_empty : Option Text → Option Text
non_empty none = none
non_empty (some []) = none
non_empty (some (c ∷ s)) = some (c ∷ s)

abbrev pub field_of : String → Value → Option Value
field_of k v = and_then (as_object v) (get_field (ascii k))

unfoldable pub from_value : (Value → Option ℕ) → Value → SearchArgs
unfolding get_field
from_value as_u64 v = record {
  query = unwrap_or (and_then (field_of "query" v) as_str) [];
  namespace =
      non_empty (and_then (or_else (field_of "namespace" v) (field_of "integration" v)) as_str);
  limit = clamp 1 100 (u32_or 12 (and_then (field_of "limit" v) as_u64));
  offset = u32_or 0 (and_then (field_of "offset" v) as_u64);
}

abbrev pub is_separator : ℕ → Bool
is_separator c = c == b'_' || c == b'.' || c == b'/' || c == b':' || c == b'-'

-- The characters that the loop pushes; the flag is `prev_alnum_lower`.
unfoldable pub normalized_chars : Bool → Text → Text
normalized_chars prev [] = []
normalized_chars prev (c ∷ s) =
    let front = λ (rest : Text). if is_uppercase c && prev then b' ' ∷ rest else rest in
    let separated = front (b' ' ∷ normalized_chars false s) in
    let pushed = front (to_lowercase c ∷ normalized_chars (is_alphanumeric c) s) in
    if is_separator c then separated else pushed

-- `str::split` at the characters that a test picks, without the empty pieces.
abbrev pub push_piece : Text → List Text → List Text
push_piece [] pieces = pieces
push_piece (c ∷ s) pieces = (c ∷ s) ∷ pieces

unfoldable pub pieces_from : (ℕ → Bool) → Text → Text → List Text
pieces_from p piece [] = push_piece piece []
pieces_from p piece (c ∷ s) =
    let at = push_piece piece (pieces_from p [] s) in
    let more = pieces_from p (piece ++ c ∷ []) s in if p c then at else more

unfoldable pub join : ℕ → List Text → Text
join c [] = []
join c (s ∷ []) = s
join c (s ∷ t ∷ rest) = s ++ c ∷ join c (t ∷ rest)

unfoldable pub normalize_search_text : Text → Text
unfolding normalized_chars pieces_from join is_whitespace
normalize_search_text value =
    join b' ' (pieces_from is_whitespace [] (normalized_chars false value))

unfoldable pub tokenize_search_text : Text → List Text
unfolding normalize_search_text
tokenize_search_text value =
    pieces_from (λ c. not (is_alphanumeric c)) [] (normalize_search_text value)

unfoldable pub discovery : SearchableTool → ℕ → ToolDiscovery
discovery tool score = record {
  path = tool.path;
  name = tool.name;
  description = non_empty (some tool.description);
  integration = tool.integration;
  score = score;
}

unfoldable pub is_prefix_match : List Text → List Text → Bool
unfolding text_eq
is_prefix_match tokens [] = true
is_prefix_match [] (p ∷ prefix) = false
is_prefix_match (t ∷ tokens) (p ∷ prefix) = text_eq t p && is_prefix_match tokens prefix

abbrev pub is_empty : {A : Type 0} → List A → Bool
is_empty [] = true
is_empty (a ∷ xs) = false

unfoldable pub matches_namespace : SearchableTool → Option Text → Bool
unfolding normalize_search_text tokenize_search_text is_prefix_match
matches_namespace tool none = true
matches_namespace tool (some namespace) =
    let ns = tokenize_search_text namespace in
    is_empty (normalize_search_text namespace)
    || (is_empty ns
        || (is_prefix_match (tokenize_search_text tool.integration) ns
            || is_prefix_match (tokenize_search_text tool.path) ns))

-- What a query's words score in a field, and the words that match.
unfoldable pub score_tokens : Text → List Text → ℕ → List Text → ℕ × List Text
unfolding text_eq contains
score_tokens field words weight [] = (0, [])
score_tokens field words weight (token ∷ query_tokens) =
    let (score, matched) = score_tokens field words weight query_tokens in
    if any (λ c. text_eq c token) words
    then (weight * 4 + score, token ∷ matched)
    else if any (λ c. starts_with token c || starts_with c token) words
    then (weight * 2 + score, token ∷ matched)
    else if contains token field
    then (weight + score, token ∷ matched)
    else (score, matched)

unfoldable pub phrase_score : Text → Text → ℕ → ℕ
unfolding text_eq contains
phrase_score query field weight =
    if text_eq field query
    then weight * 14
    else if starts_with query field
    then weight * 9
    else if contains query field
    then weight * 6
    else 0

unfoldable pub score_field : Text → List Text → Text × List Text → ℕ → ℕ × Bool × List Text
unfolding score_tokens phrase_score
score_field query query_tokens ([], words) weight = (0, false, [])
score_field query query_tokens (c ∷ field, words) weight =
    let (score, matched) = score_tokens (c ∷ field) words weight query_tokens in
    if is_empty query
    then (score, false, matched)
    else (phrase_score query (c ∷ field) weight + score, contains query (c ∷ field), matched)

unfoldable pub prepared : Text → Text × List Text
unfolding normalize_search_text tokenize_search_text
prepared value = (normalize_search_text value, tokenize_search_text value)

abbrev pub is_in : Text → List Text → Bool
unfolding text_eq
is_in t ts = any (λ u. text_eq u t) ts

-- The number of different words: the size of the set `matched`.
unfoldable pub distinct : List Text → ℕ
unfolding text_eq
distinct [] = 0
distinct (t ∷ ts) = let rest = distinct ts in if is_in t ts then rest else suc rest

abbrev pub same_first : List Text → List Text → Bool
unfolding text_eq
same_first (s ∷ _) (t ∷ _) = text_eq s t
same_first [] [] = true
same_first _ _ = false

-- `coverage < min_cov`, and the score of a coverage: `m` of `q` words.
abbrev pub below_coverage : ℕ → ℕ → Bool
below_coverage m q = if leb q 2 then ltb m q else ltb (m * 5) (q * 3)

abbrev pub coverage_score : ℕ → ℕ → ℕ
coverage_score m q = if m == q then 25 else (20 * m + q) / (2 * q)

unfoldable pub score_tool_match : SearchableTool → Text → Option ToolDiscovery
unfolding normalize_search_text tokenize_search_text prepared score_field distinct discovery text_eq
score_tool_match tool query =
    let normalized = normalize_search_text query in
    let query_tokens = tokenize_search_text query in
    let path = prepared tool.path in
    let name = prepared tool.name in
    let (s1, e1, m1) = score_field normalized query_tokens path 12 in
    let (s2, e2, m2) = score_field normalized query_tokens (prepared tool.integration) 8 in
    let (s3, e3, m3) = score_field normalized query_tokens name 10 in
    let (s4, e4, m4) = score_field normalized query_tokens (prepared tool.description) 5 in
    let m = distinct (m1 ++ (m2 ++ (m3 ++ m4))) in
    let q = length query_tokens in
    let covered = coverage_score m q in
    let first = if same_first path.1 query_tokens || same_first name.1 query_tokens then 8 else 0 in
    let exact = if text_eq path.0 normalized || text_eq name.0 normalized then 20 else 0 in
    if is_empty normalized || is_empty query_tokens
    then none
    else if m == 0
    then none
    else if below_coverage m q && not (e1 || (e2 || (e3 || e4)))
    then none
    else some (discovery tool (s1 + s2 + s3 + s4 + covered + first + exact))

unfoldable pub filter_map : {A B : Type 0} → (A → Option B) → List A → List B
filter_map f [] = []
filter_map f (a ∷ xs) = elim (f a) [ none ↦ filter_map f xs | some b ↦ b ∷ filter_map f xs ]

-- `str::trim`.
unfoldable pub trim_front : Text → Text
unfolding is_whitespace
trim_front [] = []
trim_front (c ∷ s) = if is_whitespace c then trim_front s else c ∷ s

unfoldable pub trim_chars : Text → Text
unfolding trim_front
trim_chars s = reverse (trim_front (reverse (trim_front s)))

unfoldable pub by_path : ToolDiscovery → ToolDiscovery → Ordering
unfolding text_cmp
by_path a b = text_cmp a.path b.path

-- The higher score first.
unfoldable pub by_score : ToolDiscovery → ToolDiscovery → Ordering
unfolding by_path
by_score a b = then_with (compare b.score a.score) (by_path a b)

unfoldable pub namespace_hits : List SearchableTool → Text → List ToolDiscovery
unfolding text_eq discovery sort_by by_path
namespace_hits tools ns =
    sort_by by_path (map (λ t. discovery t 0) (select (λ t. text_eq t.integration ns) tools))

unfoldable pub query_hits : List SearchableTool → Text → Option Text → List ToolDiscovery
unfolding filter_map score_tool_match matches_namespace sort_by by_score
query_hits tools query namespace =
    sort_by by_score (
      filter_map (λ t. score_tool_match t query)
        (select (λ t. matches_namespace t namespace) tools))

unfoldable pub search_tools : List SearchableTool → SearchArgs → SearchPage ToolDiscovery
unfolding normalize_search_text namespace_hits query_hits paginate
search_tools tools args =
    let empty_query = is_empty (normalize_search_text args.query) in
    let ns = unwrap_or args.namespace [] in
    let has_ns = not (is_empty (normalize_search_text ns)) in
    let ranked =
      if empty_query
      then namespace_hits tools (trim_chars ns)
      else query_hits tools args.query args.namespace in
    if empty_query && not has_ns
    then record { items = []; total = 0; has_more = false; next_offset = none }
    else paginate ranked args.offset args.limit
