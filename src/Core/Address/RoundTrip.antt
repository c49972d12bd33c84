-- ===== src/Core/Address/RoundTrip.antt =====
-- Reading an address back from what it prints.
use zoen_gateway.Prelude.{false, some, [], ◌∷◌, ◌≡◌, refl, arith}
use zoen_gateway.Prelude.Text.{Text, ascii, text_eq, split, has_byte}
use zoen_gateway.Prelude.Effect.{ok}
use zoen_gateway.Core.Owner
use zoen_gateway.Core.Owner.{Owner, org, user}
use zoen_gateway.Core.Id.{new_opaque, new_slug}
use zoen_gateway.Core.Address.{
  ToolAddress, ◌·◌, to_string, find_dot, walk, assemble, parse_tool_address,
}

-- The parts are as their constructors return them.
pub record IsValid (a : ToolAddress) : Type 0 where
  pub integration_ok : new_slug a.integration ≡ ok a.integration
  pub connection_ok : new_slug a.connection ≡ ok a.connection
  pub tool_ok : new_opaque a.tool ≡ ok a.tool

find_dot-dotted : (s t : Text) → has_byte 46 s ≡ false → find_dot (s · t) ≡ some (s, t)
unfolding find_dot
find_dot-dotted [] t h = refl
find_dot-dotted (a ∷ s) t h = ground (arith, find_dot-dotted s t)

split-dotted : (s t : Text) → has_byte 46 s ≡ false → split 46 (s · t) ≡ s ∷ split 46 t
unfolding split
split-dotted [] t h = refl
split-dotted (a ∷ s) t h = ground (arith, split-dotted s t)

split-plain : (s : Text) → has_byte 46 s ≡ false → split 46 s ≡ s ∷ []
unfolding split
split-plain [] h = refl
split-plain (a ∷ s) h = ground (arith, split-plain s)

slug-has_no_dot : (s : Text) → new_slug s ≡ ok s → has_byte 46 s ≡ false
unfolding new_slug
slug-has_no_dot s h = ground arith

slug-is_not_empty : (s : Text) → new_slug s ≡ ok s → text_eq s [] ≡ false
unfolding new_slug
slug-is_not_empty s h = ground arith

opaque-is_not_empty : (s : Text) → new_opaque s ≡ ok s → text_eq s [] ≡ false
unfolding new_opaque
opaque-is_not_empty s h = ground arith

owner-has_no_dot : (o : Owner) → has_byte 46 (Owner.as_str o) ≡ false
unfolding Owner.as_str
owner-has_no_dot org = refl
owner-has_no_dot user = refl

assemble_valid :
    (a : ToolAddress)
    → IsValid a
    → assemble a.integration (Owner.as_str a.owner) a.connection a.tool ≡ some a
unfolding assemble
assemble_valid a v =
    rw
      (
        (Owner.parse-as_str (Owner.as_str a.owner) a.owner).1 refl,
        slug-is_not_empty a.integration v.integration_ok,
        slug-is_not_empty a.connection v.connection_ok,
        opaque-is_not_empty a.tool v.tool_ok,
        v.integration_ok,
        v.connection_ok,
        v.tool_ok,
      )
      refl

walk_printed :
    (p i o c t : Text)
    → has_byte 46 p ≡ false
    → has_byte 46 i ≡ false
    → has_byte 46 o ≡ false
    → has_byte 46 c ≡ false
    → walk 4 (p · i · o · c · t) ≡ some (p · i · o · c, t)
unfolding walk
walk_printed p i o c t hp hi ho hc =
    rw
      (
        find_dot-dotted p (i · o · c · t) hp,
        find_dot-dotted i (o · c · t) hi,
        find_dot-dotted o (c · t) ho,
        find_dot-dotted c t hc,
      )
      refl

split_printed :
    (p i o c : Text)
    → has_byte 46 p ≡ false
    → has_byte 46 i ≡ false
    → has_byte 46 o ≡ false
    → has_byte 46 c ≡ false
    → split 46 (p · i · o · c) ≡ p ∷ i ∷ o ∷ c ∷ []
split_printed p i o c hp hi ho hc =
    rw
      (
        split-dotted p (i · o · c) hp,
        split-dotted i (o · c) hi,
        split-dotted o c ho,
        split-plain c hc,
      )
      refl

-- An address whose parts are as the constructors of the identifiers return them is read back from
-- what it prints, whatever dots its tool has.
pub parse_tool_address-to_string :
    (a : ToolAddress) → IsValid a → parse_tool_address (to_string a) ≡ some a
unfolding parse_tool_address to_string text_eq assemble
parse_tool_address-to_string a v =
    let hi = slug-has_no_dot a.integration v.integration_ok in
    let hc = slug-has_no_dot a.connection v.connection_ok in
    let ho = owner-has_no_dot a.owner in
    rw
      (
        walk_printed (ascii "tools") a.integration (Owner.as_str a.owner) a.connection a.tool refl
            hi ho hc,
        split_printed (ascii "tools") a.integration (Owner.as_str a.owner) a.connection refl hi ho
            hc,
      )
      (assemble_valid a v)
