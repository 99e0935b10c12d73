-- ===== src/Messages/RoundTrip.antt =====
-- A block that can arrive comes back from its wire form as it was.
use agent_force.Prelude.{◌≡◌, refl, true, false, List, [], ◌∷◌, str_eq, All, arith, ap}
use agent_force.Effects.{ok}
use agent_force.Json.{null, Fields, end, field}
use agent_force.Messages.{ContentBlock, text_block, tool_use_block, tool_result_block, opaque_block}
use agent_force.Messages.Wire.{
  block_from_dict, block_to_wire, blocks_to_wire, blocks_from_wire, without_null, without_type,
}

-- The extra fields of an opaque block: none is called `type`, and none is null.
abbrev pub IsKept : Fields → Type 0
IsKept end = Unit
IsKept (field k null fs) = ⊥
IsKept (field k v fs) = (str_eq k "type" ≡ false) × IsKept fs

-- A block of one of the three types that the loop reads has that type; an opaque one has another.
abbrev pub IsReplayable : ContentBlock → Type 0
IsReplayable (opaque_block kind extra) =
    (str_eq kind "text" ≡ false)
    × (str_eq kind "tool_use" ≡ false)
    × (str_eq kind "tool_result" ≡ false)
    × IsKept extra
IsReplayable b = Unit

without_null-kept : (fs : Fields) → IsKept fs → without_null fs ≡ fs
unfolding without_null
without_null-kept end h = refl
without_null-kept (field k null fs) h = absurd h
without_null-kept (field k v fs) h = ap (field k v) (without_null-kept fs h.1)

without_type-kept : (fs : Fields) → IsKept fs → without_type fs ≡ fs
unfolding without_type
without_type-kept end h = refl
without_type-kept (field k null fs) h = absurd h
without_type-kept (field k v fs) h = rw h.0 (ap (field k v) (without_type-kept fs h.1))

pub block_from_dict-wire :
    (b : ContentBlock) → IsReplayable b → block_from_dict (block_to_wire b) ≡ ok b
unfolding block_from_dict block_to_wire
block_from_dict-wire (text_block t) h = refl
block_from_dict-wire (tool_use_block i n d) h = refl
block_from_dict-wire (tool_result_block i c true) h = refl
block_from_dict-wire (tool_result_block i c false) h = refl
block_from_dict-wire (opaque_block kind extra) h =
    rw (without_null-kept extra h.3) (ground (arith, without_type-kept extra h.3))

-- A conversation's blocks, of any types, come back from their wire form as they were, if the opaque
-- ones have a type of their own, and no extra field that is null or called `type`.
pub blocks_from_wire-blocks_to_wire :
    (bs : List ContentBlock) → All IsReplayable bs → blocks_from_wire (blocks_to_wire bs) ≡ ok bs
unfolding blocks_from_wire blocks_to_wire
blocks_from_wire-blocks_to_wire [] h = refl
blocks_from_wire-blocks_to_wire (b ∷ bs) h =
    rw (block_from_dict-wire b h.0) (rw (blocks_from_wire-blocks_to_wire bs h.1) refl)
