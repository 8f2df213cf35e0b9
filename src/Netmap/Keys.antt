-- ===== src/Netmap/Keys.antt =====
-- The end of `print_network_map` in src/command/netmap.rs: the rows padded to one width, and the list
-- of public keys, in which keys that share a short id are marked.
use weverywhere.Prelude.{
  ℕ, ◌+◌, ◌-◌, ◌<◌, ◌≡◌, ◌≢◌, refl, sym, ap, ◌∙◌, Bool, true, false, List, [], ◌∷◌, ◌++◌, map,
  Bytes, Text, arith, ltb, lt→ltb, subst, if◌then◌else◌, bytes_eq, bytes_eq_iff, is_empty, length,
  replicate, In, at_head, in_tail, Bool-cases, inl, inr,
}
use weverywhere.Prelude.Utf8.{codes}
use weverywhere.Executor.State.{short_id, to_hex}
use weverywhere.Netmap.{Node, Row, text_le}

abbrev pub larger : ℕ → ℕ → ℕ
larger a b = if ltb a b then b else a

-- `rows.iter().map(…).max().unwrap_or(0)`.
unfoldable pub tree_width : List Row → ℕ
tree_width [] = 0
tree_width (r ∷ rs) = larger (length r.tree) (tree_width rs)

unfoldable pub row_line : ℕ → Row → Text
row_line width r =
    r.tree
    ++ (replicate (width - length r.tree) 32 ++ (codes "   [" ++ (r.trust_mark ++ (93 ∷ r.warn))))

-- A line of the list: the key, the host's name, and whether it is our own.
pub record KeyLine : Type 0 where
  pub pubkey : Bytes
  pub hostname : Text
  pub is_you : Bool

unfoldable pub node_ids : List Node → List KeyLine
node_ids [] = []
node_ids (n ∷ ns) =
    record { pubkey = n.pubkey; hostname = n.hostname; is_you = false } ∷ node_ids ns

unfoldable pub ids : Text → Bytes → List Node → List KeyLine
ids you our_pubkey nodes =
    (if is_empty our_pubkey
      then []
      else record { pubkey = our_pubkey; hostname = you; is_you = true } ∷ [])
    ++ node_ids nodes

-- `sort_by`: by hostname, then by key.
unfoldable pub id_le : KeyLine → KeyLine → Bool
id_le a b =
    if bytes_eq a.hostname b.hostname
    then text_le a.pubkey b.pubkey
    else text_le a.hostname b.hostname

unfoldable pub insert_id : KeyLine → List KeyLine → List KeyLine
insert_id a [] = a ∷ []
insert_id a (b ∷ bs) = let rest = insert_id a bs in if id_le a b then a ∷ b ∷ bs else b ∷ rest

unfoldable pub sort_ids : List KeyLine → List KeyLine
sort_ids [] = []
sort_ids (a ∷ as_) = insert_id a (sort_ids as_)

-- `short_counts[&short]`.
unfoldable pub short_count : Text → List KeyLine → ℕ
short_count short [] = 0
short_count short (a ∷ rest) =
    (if bytes_eq (short_id a.pubkey) short then 1 else 0) + short_count short rest

-- A line is marked as one whose short id another has too.
unfoldable pub is_shared : List KeyLine → KeyLine → Bool
is_shared all a = ltb 1 (short_count (short_id a.pubkey) all)

unfoldable pub key_line : List KeyLine → KeyLine → Text
key_line all a =
    codes "  "
    ++ (short_id a.pubkey
        ++ (codes "  "
            ++ (to_hex a.pubkey
                ++ (codes "  "
                    ++ (a.hostname
                        ++ (codes (if a.is_you then " (you)" else "")
                            ++ codes (
                                if is_shared all a
                                then "   (!) SHARED SHORT-ID - verify full key"
                                else "")))))))

unfoldable pub key_lines : Text → Bytes → List Node → List Text
unfolding sort_ids
key_lines you our_pubkey nodes =
    let sorted = sort_ids (ids you our_pubkey nodes) in map (key_line sorted) sorted

short_count-insert_id :
    (short : Text) (a : KeyLine) (xs : List KeyLine)
    → short_count short (insert_id a xs) ≡ short_count short (a ∷ xs)
unfolding insert_id short_count
short_count-insert_id short a [] = refl
short_count-insert_id short a (b ∷ bs) = elim (Bool-cases (id_le a b)) [
  | inl e ↦ rw e refl
  | inr e ↦ rw e (omega (arith, short_count-insert_id short a bs))
]

short_count-sort_ids :
    (short : Text) (xs : List KeyLine) → short_count short (sort_ids xs) ≡ short_count short xs
unfolding sort_ids short_count
short_count-sort_ids short [] = refl
short_count-sort_ids short (a ∷ xs) =
    omega (arith, short_count-insert_id short a (sort_ids xs), short_count-sort_ids short xs)

short_count_pos :
    (n : Node) (nodes : List Node)
    → In n nodes
    → 0 < short_count (short_id n.pubkey) (node_ids nodes)
unfolding short_count node_ids
short_count_pos n [] among = elim among [ ]
short_count_pos n (m ∷ ms) (at_head e) =
    let same : bytes_eq (short_id m.pubkey) (short_id n.pubkey) ≡ true =
      (bytes_eq_iff _ _).1 (sym (ap (λ (x : Node). short_id x.pubkey) e)) in
    rw same (omega arith)
short_count_pos n (m ∷ ms) (in_tail later) = omega (arith, short_count_pos n ms later)

-- If our own node is among those that answered, as the daemon of this machine is, then its key is
-- listed twice, and its line is marked as one that shares its short id, even if no other key does.
pub is_shared-own :
    (you : Text) (our_pubkey : Bytes) (nodes : List Node) (n : Node) (a : KeyLine)
    → our_pubkey ≢ []
    → In n nodes
    → n.pubkey ≡ our_pubkey
    → a.pubkey ≡ our_pubkey
    → is_shared (sort_ids (ids you our_pubkey nodes)) a ≡ true
unfolding is_shared ids short_count
is_shared-own you [] nodes n a has_key among same own = absurd (has_key refl)
is_shared-own you (k ∷ ks) nodes n a has_key among same own =
    let short = short_id a.pubkey in
    let first : bytes_eq (short_id (k ∷ ks)) short ≡ true =
      (bytes_eq_iff _ _).1 (sym (ap short_id own)) in
    let twin : 0 < short_count short (node_ids nodes) =
      subst (λ (t : Text). 0 < short_count t (node_ids nodes)) (ap short_id (same ∙ sym own))
        (short_count_pos n nodes among) in
    let here : ℕ = if bytes_eq (short_id (k ∷ ks)) short then 1 else 0 in
    let one : here ≡ 1 = rw first refl in
    lt→ltb _ _ (omega (arith, short_count-sort_ids short (ids you (k ∷ ks) nodes), one, twin))
