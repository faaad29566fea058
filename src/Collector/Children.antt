-- ===== src/Collector/Children.antt =====
-- What the marking of an item goes on to, in the order of the code: the calls of `reduct_item_mark`
-- of each `reduct_item_mark_*`. Marking writes flags only, so the fields can be read beforehand.
use reduct.Prelude.{
  ℕ, zero, suc, Bool, Option, none, some, List, [], ◌∷◌, ◌++◌, if◌then◌else◌, ◌>>=◌,
}
use reduct.Collector.Item.{
  Address, Pointer, Handle, item, immediate, Owner, node, region, Node, Edge, Region, User, Origin,
  Future, Payload, atom, list, function, closure, rvsdg_node, rvsdg_edge, rvsdg_region, rvsdg_user,
  rvsdg_origin, future, Payloads,
}

-- `if (p != NULL) mark(p)`, and `if (REDUCT_HANDLE_IS_ITEM(h)) mark(h)`.
abbrev pub of_pointer : Pointer → List Address
of_pointer none = []
of_pointer (some p) = p ∷ []

abbrev pub of_handle : Handle → List Address
of_handle (item p) = p ∷ []
of_handle (immediate _) = []

unfoldable pub of_handles : List Handle → List Address
of_handles [] = []
of_handles (h ∷ hs) = of_handle h ++ of_handles hs

abbrev pub of_owner : Owner → List Address
of_owner (node p) = of_pointer p
of_owner (region p) = of_pointer p

-- `x->next`.
abbrev pub next_of : Payload → Pointer
next_of (rvsdg_node n) = n.next
next_of (rvsdg_edge e) = e.next
next_of (rvsdg_region r) = r.next
next_of (rvsdg_user u) = u.next
next_of (rvsdg_origin o) = o.next
next_of _ = none

infixl 4 ◌<++>◌
abbrev pub ◌<++>◌ : Option (List Address) → Option (List Address) → Option (List Address)
a <++> b = a >>= λ xs. b >>= λ ys. some (xs ++ ys)

-- The loop `while (x != NULL) { mark(x); x = x->next; }`: the addresses it meets, or `none` where
-- it has not ended in `width` rounds.
unfoldable pub walk : Payloads → ℕ → Pointer → Option (List Address)
walk pay width none = some []
walk pay zero (some p) = none
walk pay (suc width) (some p) = walk pay width (next_of (pay p)) >>= λ ps. some (p ∷ ps)

module _ (pay : Payloads) (width : ℕ) where
  abbrev pub of_node : Node → Option (List Address)
  of_node n =
      some (of_pointer n.parent)
      <++> walk pay width n.first_input
      <++> some (of_pointer n.output)
      <++> walk pay width n.first_region
      <++> some (elim n.constant [ none ↦ [] | some h ↦ of_handle h ])

  abbrev pub of_edge : Edge → Option (List Address)
  of_edge e = some (of_pointer e.origin ++ of_pointer e.user)

  abbrev pub of_region : Region → Option (List Address)
  of_region r =
      some (of_pointer r.parent)
      <++> walk pay width r.first_argument
      <++> some (of_pointer r.result)
      <++> walk pay width r.first_node

  abbrev pub of_user : User → Option (List Address)
  of_user u = some (of_owner u.owner ++ of_pointer u.edge)

  abbrev pub of_origin : Origin → Option (List Address)
  of_origin o = some (of_owner o.owner) <++> walk pay width o.first_edge

  -- `callable` is marked whether or not it has become `result`, and `result` again when it has.
  abbrev pub of_future : Future → Option (List Address)
  of_future f =
      some
        (of_handle f.callable ++ (if f.done then of_handle f.callable else []) ++ of_handles f.argv)

  abbrev pub of_arena : Bool → Pointer → List Address
  of_arena large a = if large then of_pointer a else []

  abbrev pub of_closure : Address → List Handle → List Address
  of_closure f constants = f ∷ of_handles constants

  -- The switch of `reduct_item_mark`.
  unfoldable pub children_of : Payload → Option (List Address)
  children_of (list hs large a) = some (of_handles hs ++ of_arena large a)
  children_of (atom large a _) = some (of_arena large a)
  children_of (function constants) = some (of_handles constants)
  children_of (closure f constants) = some (of_closure f constants)
  children_of (rvsdg_node n) = of_node n
  children_of (rvsdg_edge e) = of_edge e
  children_of (rvsdg_region r) = of_region r
  children_of (rvsdg_user u) = of_user u
  children_of (rvsdg_origin o) = of_origin o
  children_of (future f) = of_future f
  children_of _ = some []

  abbrev pub children : Address → Option (List Address)
  children p = children_of (pay p)
