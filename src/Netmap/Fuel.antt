-- ===== src/Netmap/Fuel.antt =====
-- The fuel of the tree is enough: more of it draws the same tree.
use weverywhere.Prelude.{
  ℕ, zero, suc, ◌+◌, ◌≤◌, ◌<◌, ◌≡◌, refl, ap, ◌∙◌, inl, inr, Bool, true, false, not, List, [], ◌∷◌,
  ◌++◌, some, Option-cases, Bool-cases, Bytes, Text, arith, keep, member, member-append, length,
  bytes_eq, bytes_eq_iff, is_empty,
}
use weverywhere.Netmap.Tree.{each-keeps}
use weverywhere.Netmap.{
  Node, Drawing, find_node, child_prefix, roots, collect_rows, each, with_row, draw,
}

-- The number of nodes without a row.
abbrev pub unprinted : List Node → List Bytes → ℕ
unprinted ns printed = length (keep (λ n. not (member n.pubkey printed)) ns)

unprinted-append :
    (ns : List Node) (printed : List Bytes) (pk : Bytes)
    → unprinted ns (printed ++ pk ∷ []) ≤ unprinted ns printed
unprinted-append [] printed pk = omega arith
unprinted-append (n ∷ ns) printed pk =
    ground (arith, unprinted-append ns printed pk, member-append n.pubkey printed (pk ∷ []))

-- A node that gets its row is one fewer.
unprinted-found :
    (ns : List Node) (printed : List Bytes) (pk : Bytes) (n : Node)
    → find_node pk ns ≡ some n
    → member pk printed ≡ false
    → unprinted ns (printed ++ pk ∷ []) < unprinted ns printed
unfolding find_node
unprinted-found [] printed pk n e fresh = absurd cc
unprinted-found (m ∷ ns) printed pk n e fresh = elim (Bool-cases (bytes_eq m.pubkey pk)) [
  | inl same ↦
      let eq : m.pubkey ≡ pk = ground (arith, bytes_eq_iff m.pubkey pk) in
      let before : member m.pubkey printed ≡ false = rw eq fresh in
      let after : member m.pubkey (printed ++ pk ∷ []) ≡ true =
        ground (arith, member-append m.pubkey printed (pk ∷ []), same) in
      rw (before, after) (omega (arith, unprinted-append ns printed pk))
  | inr other ↦
      ground (arith, unprinted-found ns printed pk n, member-append m.pubkey printed (pk ∷ []))
]

abbrev AtMost : List Node → ℕ → Drawing → Type 0
AtMost nodes k d = unprinted nodes d.printed ≤ k

-- Drawing never forgets a printed node.
collect_rows-AtMost :
    (fuel : ℕ) (nodes : List Node) (k : ℕ) (pk : Bytes) (prefix : Text) (last : Bool) (d : Drawing)
    → AtMost nodes k d
    → AtMost nodes k (collect_rows fuel nodes pk prefix last d)
unfolding collect_rows with_row
collect_rows-AtMost zero nodes k pk prefix last d h = h
collect_rows-AtMost (suc fuel) nodes k pk prefix last d h =
    elim (Option-cases (find_node pk nodes)) [
      | inl missing ↦ rw (missing, collect_rows) h
      | inr (n, e) ↦ elim (Bool-cases (member pk d.printed)) [
        | inl seen ↦ rw (e, seen, collect_rows) h
        | inr fresh ↦
            rw (e, fresh, collect_rows)
              (each-keeps (AtMost nodes k) _
                (λ child end. collect_rows-AtMost fuel nodes k child (child_prefix prefix last) end)
                _ (with_row d n pk prefix last)
                (omega (arith, unprinted-append nodes d.printed pk)))
      ]
    ]

-- Two steps that agree where at most `k` nodes are left make the same loop.
each-agrees :
    (nodes : List Node) (k : ℕ) (f g : Bytes → Bool → Drawing → Drawing)
    → ((pk : Bytes) (last : Bool) (d : Drawing) → AtMost nodes k d → f pk last d ≡ g pk last d)
    → ((pk : Bytes) (last : Bool) (d : Drawing) → AtMost nodes k d → AtMost nodes k (f pk last d))
    → (cs : List Node) (d : Drawing) → AtMost nodes k d
    → each f cs d ≡ each g cs d
unfolding each
each-agrees nodes k f g agree stay [] d h = refl
each-agrees nodes k f g agree stay (c ∷ cs) d h =
    each-agrees nodes k f g agree stay cs _ (stay c.pubkey (is_empty cs) d h)
    ∙ ap (each g cs) (agree c.pubkey (is_empty cs) d h)

-- More fuel than there are nodes without a row is enough.
collect_rows-enough :
    (fuel : ℕ) (nodes : List Node) (pk : Bytes) (prefix : Text) (last : Bool) (d : Drawing)
    → unprinted nodes d.printed < fuel
    → collect_rows (suc fuel) nodes pk prefix last d ≡ collect_rows fuel nodes pk prefix last d
unfolding collect_rows with_row
collect_rows-enough zero nodes pk prefix last d h = absurd (omega arith)
collect_rows-enough (suc fuel) nodes pk prefix last d h = elim (Option-cases (find_node pk nodes)) [
  | inl missing ↦ rw (missing, collect_rows) refl
  | inr (n, e) ↦ elim (Bool-cases (member pk d.printed)) [
    | inl seen ↦ rw (e, seen, collect_rows) refl
    | inr fresh ↦
        let k = unprinted nodes (d.printed ++ pk ∷ []) in
        let room : k < fuel = omega (arith, unprinted-found nodes d.printed pk n e fresh) in
        rw (e, fresh, collect_rows)
          (each-agrees nodes k _ _
            (λ child end d' le.
              collect_rows-enough fuel nodes child (child_prefix prefix last) end d' (omega arith))
            (λ child end.
              collect_rows-AtMost (suc fuel) nodes k child (child_prefix prefix last) end)
            _ (with_row d n pk prefix last) (omega arith))
  ]
]

start_left : (ns : List Node) → unprinted ns [] ≤ length ns
start_left [] = omega arith
start_left (n ∷ ns) = omega (arith, start_left ns)

-- The tree drawn with a given fuel.
abbrev pub draw_at : List Node → Bytes → ℕ → Drawing
draw_at nodes our_pubkey fuel =
    each (λ pk last. collect_rows fuel nodes pk [] last) (roots nodes our_pubkey)
      (record { printed = []; rows = [] })

draw_at-suc :
    (nodes : List Node) (our_pubkey : Bytes) (fuel : ℕ)
    → length nodes < fuel
    → draw_at nodes our_pubkey (suc fuel) ≡ draw_at nodes our_pubkey fuel
draw_at-suc nodes our_pubkey fuel h =
    let start : Drawing = record { printed = []; rows = [] } in
    each-agrees nodes (length nodes) (λ pk last. collect_rows (suc fuel) nodes pk [] last)
      (λ pk last. collect_rows fuel nodes pk [] last)
      (λ pk last d le. collect_rows-enough fuel nodes pk [] last d (omega arith))
      (λ pk last. collect_rows-AtMost (suc fuel) nodes (length nodes) pk [] last)
      (roots nodes our_pubkey) start (start_left nodes)

-- The fuel never runs out: with any amount more, the tree is the same.
pub draw-enough :
    (nodes : List Node) (our_pubkey : Bytes) (extra : ℕ)
    → draw_at nodes our_pubkey (extra + suc (length nodes)) ≡ draw nodes our_pubkey
unfolding draw
draw-enough nodes our_pubkey zero =
    let e : 0 + suc (length nodes) ≡ suc (length nodes) = omega arith in
    ap (draw_at nodes our_pubkey) e
draw-enough nodes our_pubkey (suc extra) =
    let e : suc extra + suc (length nodes) ≡ suc (extra + suc (length nodes)) = omega arith in
    ap (draw_at nodes our_pubkey) e
    ∙ (draw_at-suc nodes our_pubkey (extra + suc (length nodes)) (omega arith)
        ∙ draw-enough nodes our_pubkey extra)
