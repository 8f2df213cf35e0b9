-- ===== src/Netmap/Tree.antt =====
-- The tree that is drawn: each node at most once, with enough fuel, and from the roots only.
use weverywhere.Prelude.{
  ℕ, zero, suc, ◌≡◌, refl, sym, ap, ◌∙◌, inl, inr, Bool, false, not, List, [], ◌∷◌, ◌++◌,
  Option-cases, Bool-cases, Bytes, Text, keep, member, Distinct, Distinct-snoc, All, subst, ◌||◌,
  length, bytes_eq, is_empty,
}
use weverywhere.Netmap.{
  Node, Row, Drawing, find_node, has_node, row, child_prefix, roots, sort_nodes, collect_rows, each,
  with_row, draw,
}

abbrev pub keys : List (Bytes × Row) → List Bytes
keys [] = []
keys ((pk, r) ∷ rs) = pk ∷ keys rs

keys_snoc :
    (rs : List (Bytes × Row)) (pk : Bytes) (r : Row)
    → keys (rs ++ (pk, r) ∷ []) ≡ keys rs ++ pk ∷ []
keys_snoc [] pk r = refl
keys_snoc ((j, q) ∷ rs) pk r = ap (◌∷◌ j) (keys_snoc rs pk r)

-- The rows are those of the printed keys, and no key is printed twice.
pub record IsOnce (d : Drawing) : Type 0 where
  pub same : keys d.rows ≡ d.printed
  pub distinct : Distinct d.printed

with_row-IsOnce :
    (d : Drawing) (n : Node) (pk : Bytes) (prefix : Text) (last : Bool)
    → IsOnce d
    → member pk d.printed ≡ false
    → IsOnce (with_row d n pk prefix last)
unfolding with_row
with_row-IsOnce d n pk prefix last o fresh = record {
  same = keys_snoc d.rows pk (row n prefix last) ∙ ap (λ (l : List Bytes). l ++ pk ∷ []) o.same;
  distinct = Distinct-snoc d.printed pk o.distinct fresh;
}

-- What a step keeps, the loop keeps.
pub each-keeps {ℓ} :
    (P : Drawing → Type ℓ) (f : Bytes → Bool → Drawing → Drawing)
    → ((pk : Bytes) (last : Bool) (d : Drawing) → P d → P (f pk last d))
    → (cs : List Node) (d : Drawing) → P d
    → P (each f cs d)
unfolding each
each-keeps P f step [] d p = p
each-keeps P f step (c ∷ cs) d p = each-keeps P f step cs _ (step c.pubkey (is_empty cs) d p)

collect_rows-IsOnce :
    (fuel : ℕ) (nodes : List Node) (pk : Bytes) (prefix : Text) (last : Bool) (d : Drawing)
    → IsOnce d
    → IsOnce (collect_rows fuel nodes pk prefix last d)
unfolding collect_rows
collect_rows-IsOnce zero nodes pk prefix last d o = o
collect_rows-IsOnce (suc fuel) nodes pk prefix last d o = elim (Option-cases (find_node pk nodes)) [
  | inl missing ↦ rw (missing, collect_rows) o
  | inr (n, e) ↦ elim (Bool-cases (member pk d.printed)) [
    | inl seen ↦ rw (e, seen, collect_rows) o
    | inr fresh ↦
        rw (e, fresh, collect_rows)
          (each-keeps IsOnce _
            (λ child end. collect_rows-IsOnce fuel nodes child (child_prefix prefix last) end) _ _
            (with_row-IsOnce d n pk prefix last o fresh))
  ]
]

-- However the reported parents are linked, in cycles too, no node has two rows in the tree.
pub draw-Distinct :
    (nodes : List Node) (our_pubkey : Bytes) → Distinct (keys (draw nodes our_pubkey).rows)
unfolding draw
draw-Distinct nodes our_pubkey =
    let start : Drawing = record { printed = []; rows = [] } in
    let once : IsOnce start = record { same = refl; distinct = tt } in
    let o =
      each-keeps IsOnce _ (λ pk last. collect_rows-IsOnce (suc (length nodes)) nodes pk [] last)
        (roots nodes our_pubkey) start once in
    subst Distinct (sym o.same) o.distinct

keep-none : (p : Node → Bool) (ns : List Node) → All (λ n. p n ≡ false) ns → keep p ns ≡ []
keep-none p [] a = refl
keep-none p (n ∷ ns) a = rw a.0 (keep-none p ns a.1)

-- Nodes whose parents are all among them, and none of which has this node as its parent, are left out
-- of the tree: it has no row at all.
pub draw-rootless :
    (nodes : List Node) (our_pubkey : Bytes)
    → All (λ n. (bytes_eq n.parent our_pubkey || not (has_node n.parent nodes)) ≡ false) nodes
    → (draw nodes our_pubkey).rows ≡ []
unfolding draw roots sort_nodes each
draw-rootless nodes our_pubkey a = rw (keep-none _ nodes a) refl
