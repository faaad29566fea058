-- ===== src/Collector/Item.antt =====
-- `reduct_item_t` with its union, as far as the collector reads it. An address is a number of
-- 64-byte units, and a pointer that may be `NULL` is an `Option`.
use reduct.Prelude.{ℕ, Bool, Option, List}

abbrev pub Address : Type 0
Address = ℕ

abbrev pub Pointer : Type 0
Pointer = Option Address

-- A handle: the address of an item, or a word that is not one (a number).
pub data Handle : Type 0 where
  item : Address → Handle
  immediate : ℕ → Handle

-- The tag of the union of a node and a region in a user or an origin.
pub data Owner : Type 0 where
  node region : Pointer → Owner

pub record Node : Type 0 where
  pub first_input : Pointer
  pub output : Pointer
  pub first_region : Pointer
  pub parent : Pointer
  pub next : Pointer
  -- the union's constant, where the type of the node is SIMPLE_CONST
  pub constant : Option Handle

pub record Edge : Type 0 where
  pub origin : Pointer
  pub user : Pointer
  pub next : Pointer

pub record Region : Type 0 where
  pub first_argument : Pointer
  pub result : Pointer
  pub first_node : Pointer
  pub parent : Pointer
  pub next : Pointer

pub record User : Type 0 where
  pub owner : Owner
  pub edge : Pointer
  pub next : Pointer

pub record Origin : Type 0 where
  pub owner : Owner
  pub first_edge : Pointer
  pub next : Pointer

-- `callable` and `result` share one field.
pub record Future : Type 0 where
  pub callable : Handle
  pub argv : List Handle
  pub done : Bool

-- The type of the item with the member of the union that it selects. NONE has the link of a free
-- list. An atom has REDUCT_ATOM_FLAG_LARGE, its arena, and its index in the map of atoms; a list
-- has its handles, REDUCT_LIST_FLAG_LARGE and its arena; an arena has `prev` and `next`; a function
-- has its constants; a closure its function and its constants.
pub data Payload : Type 0 where
  blank : Pointer → Payload
  atom : Bool → Pointer → Option ℕ → Payload
  arena : Pointer → Pointer → Payload
  list : List Handle → Bool → Pointer → Payload
  function : List Handle → Payload
  closure : Address → List Handle → Payload
  rvsdg_node : Node → Payload
  rvsdg_edge : Edge → Payload
  rvsdg_region : Region → Payload
  rvsdg_user : User → Payload
  rvsdg_origin : Origin → Payload
  future : Future → Payload

-- REDUCT_ITEM_FLAG_MARKED and REDUCT_ITEM_FLAG_RETAINED.
pub record Flags : Type 0 where
  pub marked : Bool
  pub retained : Bool

-- The items of all blocks, by address: what they are, and their flags.
abbrev pub Payloads : Type 0
Payloads = Address → Payload

abbrev pub Marking : Type 0
Marking = Address → Flags
